-- ===== src/Base/Outcome.antt =====
-- What a call does: it returns, throws, or never comes back.
use mathlib.Core.Path.{◌≡◌, refl}
use mathlib.Core.Bool.{Bool, true, false}
use mathlib.Core.Logic.{◌⊎◌, inl, inr}
use Prim.Native.String.{String}

-- A call of a library outside the program: it may throw a `std::exception`, with its `what()`.
pub data Attempt (A : Type 0) : Type 0 where
  returns : A → Attempt A
  throws : String → Attempt A

-- `hang`: the call loops for ever.
pub data Result (E A : Type 0) : Type 0 where
  ok : A → Result E A
  err : E → Result E A
  hang : Result E A

infixl 5 ◌>>=◌ ◌>>◌
abbrev pub ◌>>=◌ : {E A B : Type 0} → Result E A → (A → Result E B) → Result E B
hang >>= next = hang
err thrown >>= next = err thrown
ok value >>= next = next value

abbrev pub ◌>>◌ : {E B : Type 0} → Result E (Unit {0}) → Result E B → Result E B
done >> next = done >>= λ _. next

-- A `try` around a library call, whose handler throws `f what`.
abbrev pub or_throw : {E A : Type 0} → (String → E) → Attempt A → Result E A
or_throw f (returns a) = ok a
or_throw f (throws what) = err (f what)

-- A library call followed by another, both outside a handler of their own.
abbrev pub and_then : {A B : Type 0} → Attempt A → (A → Attempt B) → Attempt B
and_then (returns a) f = f a
and_then (throws what) f = throws what

abbrev pub throw_if : {E : Type 0} → Bool → E → Result E (Unit {0})
throw_if true e = err e
throw_if false e = ok tt

-- Inversion of a successful bind.
pub >>=-eq-ok :
    {E A B : Type 0} (first : Result E A) (next : A → Result E B) {result : B}
    → (first >>= next) ≡ ok result
    → (value : A) × (first ≡ ok value) × (next value ≡ ok result)
>>=-eq-ok hang next h = cc
>>=-eq-ok (err thrown) next h = cc
>>=-eq-ok (ok value) next h = (value, refl, h)

pub Attempt-cases :
    {A : Type 0} (m : Attempt A)
    → ((a : A) × (m ≡ returns a)) ⊎ ((what : String) × (m ≡ throws what))
Attempt-cases (returns a) = inl (a, refl)
Attempt-cases (throws what) = inr (what, refl)

pub ok-injective : {E A : Type 0} {a b : A} → ◌≡◌ {A = Result E A} (ok a) (ok b) → a ≡ b
ok-injective h = cc

-- The same for a test that throws.
pub guarded-eq-ok :
    {E B : Type 0} (b : Bool) (x : E) (k : Result E B) {v : B}
    → (throw_if b x >> k) ≡ ok v
    → (b ≡ false) × (k ≡ ok v)
guarded-eq-ok true x k h = cc
guarded-eq-ok false x k h = (refl, h)

-- And for a `try` around a library call.
pub or_throw-eq-ok :
    {E A : Type 0} (f : String → E) (t : Attempt A) {a : A} → or_throw f t ≡ ok a → t ≡ returns a
or_throw-eq-ok f (returns b) h = cc h
or_throw-eq-ok f (throws what) h = absurd (cc h)
