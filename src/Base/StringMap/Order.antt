-- ===== src/Base/StringMap/Order.antt =====
-- The entries of a map stand in ascending order of their keys, as `std::map` keeps them: then the
-- look-ups determine the map.
use Prim.Native.Nat.{Ordering}
use Prim.Native.String.{String, compare}
use mathlib.Core.Path.{◌≡◌, refl, sym, ap, ◌∙◌, subst}
use mathlib.Core.Logic.{inl, inr}
use mathlib.Core.Option.{none, some}
use mathlib.Core.List.{[], ◌∷◌}
use text.Mathlib.Text.{◌==◌}
use text.Mathlib.TextEquality.{eq_iff, path_by_compare}
use text.Mathlib.TextPositions.{eq_refl, compare_refl}
use fty_security_wallet.Base.Tests.{Bool-cases}
use fty_security_wallet.Base.Lists.{All}
use fty_security_wallet.Base.TextOrder.{lt_trans, lt_of_gt, Ordering-cases}
use fty_security_wallet.Base.StringMap.{StringMap, lookup, insert, erase, map_values}

module _ {V : Type 0} where
  abbrev pub IsBelow : String → StringMap V → Type 0
  IsBelow k m = All (λ e. compare k e.0 ≡ Ordering.lt) m

  abbrev pub IsAscending : StringMap V → Type 0
  IsAscending [] = Unit
  IsAscending ((k, v) ∷ m) = IsBelow k m × IsAscending m

  IsBelow-trans :
      (k j : String) (m : StringMap V) → compare k j ≡ Ordering.lt → IsBelow j m → IsBelow k m
  IsBelow-trans k j [] h below = tt
  IsBelow-trans k j ((i, v) ∷ m) h below = (lt_trans k j i h below.0, IsBelow-trans k j m h below.1)

  IsBelow-insert :
      (k j : String) (v : V) (m : StringMap V)
      → compare k j ≡ Ordering.lt
      → IsBelow k m
      → IsBelow k (insert j v m)
  unfolding insert
  IsBelow-insert k j v [] h below = (h, tt)
  IsBelow-insert k j v ((i, w) ∷ m) h below = elim (Ordering-cases (compare j i)) [
    | inl before ↦ rw before (h, below)
    | inr (inl same) ↦ rw same (h, below.1)
    | inr (inr after) ↦ rw after (below.0, IsBelow-insert k j v m h below.1)
  ]

  pub insert-IsAscending :
      (j : String) (v : V) (m : StringMap V) → IsAscending m → IsAscending (insert j v m)
  unfolding insert
  insert-IsAscending j v [] up = (tt, tt)
  insert-IsAscending j v ((i, w) ∷ m) up = elim (Ordering-cases (compare j i)) [
    | inl before ↦ rw before ((before, IsBelow-trans j i m before up.0), up)
    | inr (inl same) ↦
        rw same (subst (λ k. IsBelow k m) (sym (path_by_compare j i same)) (up.0), up.1)
    | inr (inr after) ↦
        rw after (IsBelow-insert i j v m (lt_of_gt j i after) up.0, insert-IsAscending j v m up.1)
  ]

  IsBelow-erase : (k j : String) (m : StringMap V) → IsBelow k m → IsBelow k (erase j m)
  unfolding erase
  IsBelow-erase k j [] below = tt
  IsBelow-erase k j ((i, w) ∷ m) below = elim (Bool-cases (i == j)) [
    | inl same ↦ rw same (IsBelow-erase k j m below.1)
    | inr other ↦ rw other (below.0, IsBelow-erase k j m below.1)
  ]

  pub erase-IsAscending : (j : String) (m : StringMap V) → IsAscending m → IsAscending (erase j m)
  unfolding erase
  erase-IsAscending j [] up = tt
  erase-IsAscending j ((i, w) ∷ m) up = elim (Bool-cases (i == j)) [
    | inl same ↦ rw same (erase-IsAscending j m up.1)
    | inr other ↦ rw other (IsBelow-erase i j m up.0, erase-IsAscending j m up.1)
  ]

  -- A key below all others is not among them.
  pub lookup_below : (k : String) (m : StringMap V) → IsBelow k m → lookup k m ≡ none
  unfolding lookup
  lookup_below k [] below = refl
  lookup_below k ((i, w) ∷ m) below = elim (Bool-cases (i == k)) [
    | inl same ↦ absurd (cc (below.0, ap (λ t. compare k t) ((eq_iff i k).0 same), compare_refl k))
    | inr other ↦ rw other (lookup_below k m below.1)
  ]

  first : (k : String) (v : V) (m : StringMap V) → lookup k ((k, v) ∷ m) ≡ some v
  unfolding lookup
  first k v m = rw (eq_refl k)

  -- What the tails of two maps with one first key hold.
  tails :
      (k j : String) (v w : V) (m n : StringMap V) (i : String)
      → k ≡ j
      → IsBelow k m
      → IsBelow j n
      → lookup i ((k, v) ∷ m) ≡ lookup i ((j, w) ∷ n)
      → lookup i m ≡ lookup i n
  unfolding lookup
  tails k j v w m n i key below_m below_n h = elim (Bool-cases (k == i)) [
    | inr other ↦ rw other at (rw (sym key) at h)
    | inl here ↦
        let k≡i = (eq_iff k i).0 here in
        ap (λ t. lookup t m) (sym k≡i)
        ∙ lookup_below k m below_m
        ∙ sym (lookup_below j n below_n)
        ∙ ap (λ t. lookup t n) (sym key ∙ k≡i)
  ]

  -- Two maps in order with the same look-ups are one.
  pub map_ext :
      (m n : StringMap V)
      → IsAscending m
      → IsAscending n
      → ((k : String) → lookup k m ≡ lookup k n)
      → m ≡ n
  unfolding lookup
  map_ext [] [] up_m up_n h = refl
  map_ext [] ((k, v) ∷ n) up_m up_n h = absurd (cc (rw (eq_refl k) at (h k)))
  map_ext ((k, v) ∷ m) [] up_m up_n h = absurd (cc (rw (eq_refl k) at (h k)))
  map_ext ((k, v) ∷ m) ((j, w) ∷ n) up_m up_n h = elim (Ordering-cases (compare k j)) [
    | inl before ↦
        let below : IsBelow k ((j, w) ∷ n) = (before, IsBelow-trans k j n before up_n.0) in
        absurd (cc (first k v m, h k, lookup_below k ((j, w) ∷ n) below))
    | inr (inr after) ↦
        let before = lt_of_gt k j after in
        let below : IsBelow j ((k, v) ∷ m) = (before, IsBelow-trans j k m before up_m.0) in
        absurd (cc (first j w n, h j, lookup_below j ((k, v) ∷ m) below))
    | inr (inl same) ↦
        let key = path_by_compare k j same in
        let value : v ≡ w =
          cc (first k v m, h k, ap (λ i. lookup i ((j, w) ∷ n)) key, first j w n) in
        cc (key, value, map_ext m n up_m.1 up_n.1 λ i. tails k j v w m n i key up_m.0 up_n.0 (h i))
  ]

  IsBelow-map_values :
      (f : V → V) (k : String) (m : StringMap V) → IsBelow k m → IsBelow k (map_values f m)
  IsBelow-map_values f k [] below = tt
  IsBelow-map_values f k ((j, v) ∷ m) below = (below.0, IsBelow-map_values f k m below.1)

  pub map_values-IsAscending :
      (f : V → V) (m : StringMap V) → IsAscending m → IsAscending (map_values f m)
  map_values-IsAscending f [] up = tt
  map_values-IsAscending f ((j, v) ∷ m) up =
      (IsBelow-map_values f j m up.0, map_values-IsAscending f m up.1)
