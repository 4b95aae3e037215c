-- ===== src/Base/StringSet.antt =====
-- `std::set<std::string>`: the members in ascending order, each once. `std::string` compares by
-- bytes, which for UTF-8 is the order of the code points.
use Prim.Native.Nat.{Ordering}
use Prim.Native.String.{String, compare}
use mathlib.Core.Path.{◌≡◌, refl}
use mathlib.Core.Bool.{Bool, false, ◌||◌}
use mathlib.Core.List.{List, [], ◌∷◌}
use native.Mathlib.Omega.{arith}
use text.Mathlib.Text.{◌==◌}
use text.Mathlib.TextEquality.{eq_iff}
use mathlib.Core.Logic.{inl, inr}
use fty_security_wallet.Base.Tests.{if◌then◌else◌}
use fty_security_wallet.Base.TextOrder.{lt_of_gt, Ordering-cases}

abbrev pub StringSet : Type 0
StringSet = List String

-- `count(k) > 0`
unfoldable pub contains : String → StringSet → Bool
contains k [] = false
contains k (x ∷ xs) = x == k || contains k xs

abbrev insert_by : Ordering → String → String → StringSet → StringSet → StringSet
insert_by Ordering.lt k x xs rest = k ∷ x ∷ xs
insert_by Ordering.eq k x xs rest = x ∷ xs
insert_by Ordering.gt k x xs rest = x ∷ rest

-- `insert(k)`
unfoldable pub insert : String → StringSet → StringSet
insert k [] = k ∷ []
insert k (x ∷ xs) = insert_by (compare k x) k x xs (insert k xs)

-- `erase(k)`
unfoldable pub erase : String → StringSet → StringSet
erase k [] = []
erase k (x ∷ xs) = let rest = erase k xs in if x == k then rest else x ∷ rest

-- The set of the elements of an array.
unfoldable pub of_list : List String → StringSet
unfolding insert
of_list [] = []
of_list (x ∷ xs) = insert x (of_list xs)

abbrev pub IsSorted : StringSet → Type 0
IsSorted [] = Unit
IsSorted (x ∷ []) = Unit
IsSorted (x ∷ y ∷ xs) = (compare x y ≡ Ordering.lt) × IsSorted (y ∷ xs)

pub contains-insert :
    (k j : String) (xs : StringSet) → contains j (insert k xs) ≡ (k == j || contains j xs)
unfolding contains insert
contains-insert k j [] = refl
contains-insert k j (x ∷ xs) =
    ground (arith, contains-insert k j xs, eq_iff k x, eq_iff x j, eq_iff k j)

-- A set reads back as it was written.
pub of_list-sorted : (xs : StringSet) → IsSorted xs → of_list xs ≡ xs
unfolding of_list
of_list-sorted [] h = refl
of_list-sorted (x ∷ []) h = refl
of_list-sorted (x ∷ y ∷ xs) h = rw (of_list-sorted (y ∷ xs) h.1) (rw (h.0))

-- An insertion below or above the first member.
insert_by-IsSorted :
    (o : Ordering) (k x : String) (xs : StringSet)
    → compare k x ≡ o
    → IsSorted (x ∷ xs)
    → IsSorted (insert k xs)
    → IsSorted (insert_by o k x xs (insert k xs))
unfolding insert
insert_by-IsSorted Ordering.lt k x xs h up rest = (h, up)
insert_by-IsSorted Ordering.eq k x xs h up rest = up
insert_by-IsSorted Ordering.gt k x [] h up rest = (lt_of_gt k x h, tt)
insert_by-IsSorted Ordering.gt k x (y ∷ ys) h up rest = elim (Ordering-cases (compare k y)) [
  | inl before ↦ rw before (lt_of_gt k x h, (before, up.1))
  | inr (inl same) ↦ rw same up
  | inr (inr after) ↦ rw after (up.0, rw after at rest)
]

tail-IsSorted : (x : String) (xs : StringSet) → IsSorted (x ∷ xs) → IsSorted xs
tail-IsSorted x [] up = tt
tail-IsSorted x (y ∷ ys) up = up.1

pub insert-IsSorted : (k : String) (xs : StringSet) → IsSorted xs → IsSorted (insert k xs)
unfolding insert
insert-IsSorted k [] up = tt
insert-IsSorted k (x ∷ xs) up =
    insert_by-IsSorted (compare k x) k x xs refl up (insert-IsSorted k xs (tail-IsSorted x xs up))

-- A set of the elements of an array is in order.
pub of_list-IsSorted : (l : List String) → IsSorted (of_list l)
unfolding of_list
of_list-IsSorted [] = tt
of_list-IsSorted (x ∷ xs) = insert-IsSorted x (of_list xs) (of_list-IsSorted xs)
