-- ===== src/Base/TextOrder.antt =====
-- The order of texts, by which `std::set` and `std::map` sort.
use Prim.Native.Nat.{ℕ, Ordering, compare as compare_ℕ}
use Prim.Native.Char.{code}
use Prim.Native.String.{String, compare, then}
use Prim.Native.String.compare
use mathlib.Core.Path.{◌≡◌, refl, sym, ◌∙◌}
use mathlib.Core.Logic.{◌⊎◌, inl, inr}
use native.Mathlib.Omega.{arith}

-- One character on each side.
then_trans :
    (a b c : ℕ) (o p q : Ordering)
    → then (compare_ℕ a b) o ≡ Ordering.lt
    → then (compare_ℕ b c) p ≡ Ordering.lt
    → (o ≡ Ordering.lt → p ≡ Ordering.lt → q ≡ Ordering.lt)
    → then (compare_ℕ a c) q ≡ Ordering.lt
then_trans a b c o p q h k both = ground arith

then_flip :
    (a b : ℕ) (o p : Ordering)
    → then (compare_ℕ a b) o ≡ Ordering.gt
    → (o ≡ Ordering.gt → p ≡ Ordering.lt)
    → then (compare_ℕ b a) p ≡ Ordering.lt
then_flip a b o p h flip = ground arith

pub lt_trans :
    (s t u : String)
    → compare s t ≡ Ordering.lt
    → compare t u ≡ Ordering.lt
    → compare s u ≡ Ordering.lt
lt_trans String.[] String.[] u h k = k
lt_trans String.[] (String.◌∷◌ d t) String.[] h k = absurd (cc (sym (compare.cons-nil d t) ∙ k))
lt_trans String.[] (String.◌∷◌ d t) (String.◌∷◌ e u) h k = compare.nil-cons e u
lt_trans (String.◌∷◌ c s) String.[] u h k = absurd (cc (sym (compare.cons-nil c s) ∙ h))
lt_trans (String.◌∷◌ c s) (String.◌∷◌ d t) String.[] h k =
    absurd (cc (sym (compare.cons-nil d t) ∙ k))
lt_trans (String.◌∷◌ c s) (String.◌∷◌ d t) (String.◌∷◌ e u) h k =
    compare.cons-cons c e s u
    ∙ then_trans (code c) (code d) (code e) (compare s t) (compare t u) (compare s u)
        (sym (compare.cons-cons c d s t) ∙ h) (sym (compare.cons-cons d e t u) ∙ k) (lt_trans s t u)

pub lt_of_gt : (s t : String) → compare s t ≡ Ordering.gt → compare t s ≡ Ordering.lt
lt_of_gt String.[] String.[] h = absurd (cc (sym compare.nil-nil ∙ h))
lt_of_gt String.[] (String.◌∷◌ d t) h = absurd (cc (sym (compare.nil-cons d t) ∙ h))
lt_of_gt (String.◌∷◌ c s) String.[] h = compare.nil-cons c s
lt_of_gt (String.◌∷◌ c s) (String.◌∷◌ d t) h =
    compare.cons-cons d c t s
    ∙ then_flip (code c) (code d) (compare s t) (compare t s) (sym (compare.cons-cons c d s t) ∙ h)
        (lt_of_gt s t)

pub Ordering-cases : (o : Ordering) → (o ≡ Ordering.lt) ⊎ ((o ≡ Ordering.eq) ⊎ (o ≡ Ordering.gt))
Ordering-cases Ordering.lt = inl refl
Ordering-cases Ordering.eq = inr (inl refl)
Ordering-cases Ordering.gt = inr (inr refl)
