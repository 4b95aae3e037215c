-- ===== src/Base/StringMap.antt =====
-- `std::map<std::string, V>`: the entries in ascending order of their keys.
pub mod Order
pub mod Selection
use Prim.Native.Nat.{Ordering, ◌≤◌, ◌<◌}
use Prim.Native.String.{String, compare}
use mathlib.Core.Path.{◌≡◌, refl, ap}
use mathlib.Core.Bool.{Bool, true, false}
use mathlib.Core.Option
use mathlib.Core.Option.{Option, none, some}
use mathlib.Core.List.{List, [], ◌∷◌, map}
use native.Mathlib.Omega.{arith}
use text.Mathlib.Text.{◌==◌}
use text.Mathlib.TextEquality.{eq_iff}
use mathlib.Core.Logic.{inl, inr, ◌↔◌}
use fty_security_wallet.Base.Tests.{if◌then◌else◌, Bool-cases, Option-cases}
use fty_security_wallet.Base.Lists.{length, All}

abbrev pub StringMap : Type 0 → Type 0
StringMap V = List (String × V)

module _ {V : Type 0} where
  -- `find(k)`
  unfoldable pub lookup : String → StringMap V → Option V
  lookup k [] = none
  lookup k ((key, value) ∷ rest) = if key == k then some value else lookup k rest

  -- `count(k) > 0`
  unfoldable pub member : String → StringMap V → Bool
  unfolding lookup
  member k m = elim (lookup k m) [ none ↦ false | some _ ↦ true ]

  abbrev insert_by : Ordering → String → V → String → V → StringMap V → StringMap V → StringMap V
  insert_by Ordering.lt k v j w m rest = (k, v) ∷ (j, w) ∷ m
  insert_by Ordering.eq k v j w m rest = (k, v) ∷ m
  insert_by Ordering.gt k v j w m rest = (j, w) ∷ rest

  -- `m[k] = v`
  unfoldable pub insert : String → V → StringMap V → StringMap V
  insert k v [] = (k, v) ∷ []
  insert k v ((j, w) ∷ m) = insert_by (compare k j) k v j w m (insert k v m)

  -- `erase(k)`
  unfoldable pub erase : String → StringMap V → StringMap V
  erase k [] = []
  erase k ((j, v) ∷ m) = let rest = erase k m in if j == k then rest else (j, v) ∷ rest

  -- The mapped values, in the order of the keys.
  unfoldable pub values : StringMap V → List V
  values [] = []
  values ((j, v) ∷ m) = v ∷ values m

  unfoldable pub keys : StringMap V → List String
  keys [] = []
  keys ((j, v) ∷ m) = j ∷ keys m

  pub lookup-insert :
      (key other : String) (value : V) (entries : StringMap V)
      → lookup other (insert key value entries)
        ≡ (if key == other then some value else lookup other entries)
  unfolding lookup insert
  lookup-insert key other value [] = refl
  lookup-insert key other value ((name, held) ∷ rest) = ground (
    arith,
    lookup-insert key other value rest,
    eq_iff key name,
    eq_iff name other,
    eq_iff key other,
  )

  pub lookup-erase :
      (k j : String) (m : StringMap V)
      → lookup j (erase k m) ≡ (if k == j then none else lookup j m)
  unfolding lookup erase
  lookup-erase k j [] = ground arith
  lookup-erase k j ((i, w) ∷ m) = elim (Bool-cases (i == k)) [
    | inl same ↦ rw same (ground (arith, lookup-erase k j m, eq_iff i k, eq_iff i j, eq_iff k j))
    | inr other ↦ rw other (ground (arith, lookup-erase k j m, eq_iff i k, eq_iff i j, eq_iff k j))
  ]

  pub member_iff : (k : String) (m : StringMap V) → (member k m ≡ false) ↔ (lookup k m ≡ none)
  unfolding member
  member_iff k m = elim (Option-cases (lookup k m)) [
    | inl absent ↦ (λ h. absent, λ h. rw (absent, member))
    | inr (v, present) ↦ (λ h. cc (rw (present, member) at h), λ h. cc)
  ]

  pub member-erase_ne :
      (k j : String) (m : StringMap V) → (k == j) ≡ false → member j (erase k m) ≡ member j m
  unfolding member
  member-erase_ne k j m ne = rw (lookup-erase k j m, member) (rw (ne, member))

  length-erase-le : (k : String) (m : StringMap V) → length (erase k m) ≤ length m
  unfolding erase
  length-erase-le k [] = omega arith
  length-erase-le k ((j, v) ∷ m) = ground (arith, length-erase-le k m)

  pub length-erase-lt :
      (k : String) (m : StringMap V) → member k m ≡ true → length (erase k m) < length m
  unfolding member lookup erase
  length-erase-lt k [] h = cc
  length-erase-lt k ((j, v) ∷ m) h = ground (arith, length-erase-lt k m, length-erase-le k m)

  -- What holds of every value, when one is put in or an entry taken out.
  pub All-values-insert :
      (P : V → Type 0) (k : String) (v : V) (m : StringMap V)
      → P v
      → All P (values m)
      → All P (values (insert k v m))
  unfolding values insert
  All-values-insert P k v [] pv all = (pv, tt)
  All-values-insert P k v ((j, w) ∷ m) pv all =
      by_order (compare k j) (All-values-insert P k v m pv all.1)
    where
      by_order :
          (o : Ordering)
          → All P (values (insert k v m))
          → All P (values (insert_by o k v j w m (insert k v m)))
      by_order Ordering.lt rest = (pv, all)
      by_order Ordering.eq rest = (pv, all.1)
      by_order Ordering.gt rest = (all.0, rest)

  pub All-values-erase :
      (P : V → Type 0) (k : String) (m : StringMap V)
      → All P (values m)
      → All P (values (erase k m))
  unfolding values erase
  All-values-erase P k [] all = tt
  All-values-erase P k ((j, w) ∷ m) all = elim (Bool-cases (j == k)) [
    | inl same ↦ rw same (All-values-erase P k m all.1)
    | inr other ↦ rw other (all.0, All-values-erase P k m all.1)
  ]

  -- Each value changed, under its key.
  abbrev pub map_values : (V → V) → StringMap V → StringMap V
  map_values f [] = []
  map_values f ((k, v) ∷ m) = (k, f v) ∷ map_values f m

  pub lookup-map_values :
      (f : V → V) (k : String) (m : StringMap V)
      → lookup k (map_values f m) ≡ Option.map f (lookup k m)
  unfolding lookup
  lookup-map_values f k [] = refl
  lookup-map_values f k ((j, v) ∷ m) = elim (Bool-cases (j == k)) [
    | inl here ↦ rw here refl
    | inr later ↦ rw later (lookup-map_values f k m)
  ]

  pub values-map_values : (f : V → V) (m : StringMap V) → values (map_values f m) ≡ map f (values m)
  unfolding values
  values-map_values f [] = refl
  values-map_values f ((j, v) ∷ m) = ap (λ l. f v ∷ l) (values-map_values f m)
