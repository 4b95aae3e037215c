-- ===== src/Base/Exec.antt =====
-- Methods that mutate an object and may throw: what was written before the throw stays written,
-- so the state comes back beside the exception too.
use mathlib.Core.Path.{◌≡◌, refl, ap}
use mathlib.Core.Bool.{Bool, true, false}
use fty_security_wallet.Base.Outcome.{Result, ok, err, hang, ◌>>=◌ as ◌>>=ᵣ◌}

abbrev pub Exec : Type 0 → Type 0 → Type 0 → Type 0
Exec S E A = S → Result E A × S

module _ {S E A : Type 0} where
  abbrev pub pure : A → Exec S E A
  pure a s = (ok a, s)

  abbrev pub raise : E → Exec S E A
  raise e s = (err e, s)

  abbrev pub lift : Result E A → Exec S E A
  lift r s = (r, s)

  abbrev pub gets : (S → A) → Exec S E A
  gets f s = (ok (f s), s)

abbrev pub modify : {S E : Type 0} → (S → S) → Exec S E (Unit {0})
modify f s = (ok tt, f s)

abbrev pub raise_if : {S E : Type 0} → Bool → E → Exec S E (Unit {0})
raise_if true e s = (err e, s)
raise_if false e s = (ok tt, s)

abbrev pub continue : {S E A B : Type 0} → Result E A → (A → Exec S E B) → Exec S E B
continue (ok a) f s = f a s
continue (err e) f s = (err e, s)
continue hang f s = (hang, s)

infixl 5 ◌>>=◌ ◌>>◌
abbrev pub ◌>>=◌ : {S E A B : Type 0} → Exec S E A → (A → Exec S E B) → Exec S E B
◌>>=◌ m f s = let (r, s') = m s in continue r f s'

abbrev pub ◌>>◌ : {S E B : Type 0} → Exec S E (Unit {0}) → Exec S E B → Exec S E B
m >> k = m >>= λ _. k

-- Inversion of a successful bind.
pub continue-eq-ok :
    {S E A B : Type 0} (r : Result E A) (f : A → Exec S E B) (s : S) {b : B} {t : S}
    → continue r f s ≡ (ok b, t)
    → (a : A) × (r ≡ ok a) × (f a s ≡ (ok b, t))
continue-eq-ok (ok a) f s h = (a, refl, h)
continue-eq-ok (err e) f s h = absurd (cc (ap (λ t. t.0) h))
continue-eq-ok hang f s h = absurd (cc (ap (λ t. t.0) h))

-- A property of the state that holds where a step ends, and that the rest keeps whenever the step
-- returned, holds at the end.
pub continue-keeps :
    {S E A B : Type 0} (P : S → Type 0) (r : Result E A) (f : A → Exec S E B) (s : S)
    → P s
    → ((a : A) → r ≡ ok a → P (f a s).1)
    → P (continue r f s).1
continue-keeps P (ok a) f s h k = k a refl
continue-keeps P (err e) f s h k = h
continue-keeps P hang f s h k = h

-- A last step that leaves the state alone.
pub continue-lift_last :
    {S E A B : Type 0} (r : Result E A) (g : A → Result E B) (s : S)
    → continue r (λ a. lift (g a)) s ≡ (r >>=ᵣ g, s)
continue-lift_last (ok a) g s = refl
continue-lift_last (err e) g s = refl
continue-lift_last hang g s = refl
