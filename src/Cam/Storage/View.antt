-- ===== src/Cam/Storage/View.antt =====
-- The storage as a function from hashes to mappings: the abstract state of the mapping server, and
-- what each kind of request does to it.
use fty_security_wallet.Base.{
  String, false, Option, some, none, ◌≡◌, refl, ap, subst, ◌∙◌, ◌==◌, if◌then◌else◌, eq_iff,
  eq_refl, Bool-cases, Option-cases, inl, inr,
}
use fty_security_wallet.Base.StringMap
use fty_security_wallet.Cam.Mapping.{Mapping}
use fty_security_wallet.Cam.Storage.{Storage, hash_of, has_empty_key}

abbrev pub View : Type 0
View = String → Option Mapping

abbrev pub view : Storage → View
view s hash = StringMap.lookup hash s.mappings

-- A function, changed at one hash.
abbrev pub assign : String → Option Mapping → View → View
assign hash value f other = if hash == other then value else f other

-- Each mapping stands under its own hash and has no empty identifier in its key.
abbrev pub IsKeyed : View → Type 0
IsKeyed f =
    (hash : String) (m : Mapping) → f hash ≡ some m → (hash_of m ≡ hash) × (has_empty_key m ≡ false)

-- What a request asks of the state; `change` computes the new mapping from the one that was
-- received and the stored one.
pub data Operation : Type 0 where
  create replace : Mapping → Operation
  change : (Mapping → Mapping → Mapping) → Mapping → Operation
  remove : String → Operation
  nothing : Operation

abbrev pub put : Mapping → View → View
put m f = if has_empty_key m then f else assign (hash_of m) (some m) f

abbrev pub create_in : Option Mapping → Mapping → View → View
create_in (some _) m f = f
create_in none m f = put m f

abbrev pub replace_in : Option Mapping → Mapping → View → View
replace_in (some _) m f = put m f
replace_in none m f = f

abbrev pub change_in : Option Mapping → (Mapping → Mapping → Mapping) → Mapping → View → View
change_in (some existing) g received f = assign (hash_of received) (some (g received existing)) f
change_in none g received f = f

unfoldable pub apply : Operation → View → View
apply (create m) f = create_in (f (hash_of m)) m f
apply (replace m) f = replace_in (f (hash_of m)) m f
apply (change g m) f = change_in (f (hash_of m)) g m f
apply (remove hash) f = assign hash none f
apply nothing f = f

-- A change that leaves the key alone.
abbrev pub KeepsKey : (Mapping → Mapping → Mapping) → Type 0
KeepsKey g =
    (received existing : Mapping)
    → (hash_of (g received existing) ≡ hash_of existing)
      × (has_empty_key (g received existing) ≡ has_empty_key existing)

abbrev pub IsLawful : Operation → Type 0
IsLawful (change g m) = KeepsKey g
IsLawful _ = Unit

assign-IsKeyed :
    (hash : String) (m : Mapping) (f : View)
    → IsKeyed f
    → hash_of m ≡ hash
    → has_empty_key m ≡ false
    → IsKeyed (assign hash (some m) f)
assign-IsKeyed hash m f keyed same full other n h = elim (Bool-cases (hash == other)) [
  | inl here ↦
      let new : m ≡ n = cc (rw here at h) in
      subst (λ n. (hash_of n ≡ other) × (has_empty_key n ≡ false)) new
        (same ∙ (eq_iff hash other).0 here, full)
  | inr there ↦ keyed other n (rw there at h)
]

pub put_lem :
    (m : Mapping) (hash : String) (f : View)
    → hash_of m ≡ hash
    → has_empty_key m ≡ false
    → put m f ≡ assign hash (some m) f
put_lem m hash f same full = rw full (ap (λ h. assign h (some m) f) same)

pub put-IsKeyed : (m : Mapping) (f : View) → IsKeyed f → IsKeyed (put m f)
put-IsKeyed m f keyed = elim (Bool-cases (has_empty_key m)) [
  | inl bad ↦ rw bad keyed
  | inr full ↦ rw full (assign-IsKeyed (hash_of m) m f keyed refl full)
]

-- Every operation keeps the state keyed.
pub apply-IsKeyed : (o : Operation) (f : View) → IsLawful o → IsKeyed f → IsKeyed (apply o f)
unfolding apply
apply-IsKeyed (create m) f lawful keyed = elim (Option-cases (f (hash_of m))) [
  | inl absent ↦ rw absent (put-IsKeyed m f keyed)
  | inr (old, there) ↦ rw there keyed
]
apply-IsKeyed (replace m) f lawful keyed = elim (Option-cases (f (hash_of m))) [
  | inl absent ↦ rw absent keyed
  | inr (old, there) ↦ rw there (put-IsKeyed m f keyed)
]
apply-IsKeyed (change g m) f lawful keyed = elim (Option-cases (f (hash_of m))) [
  | inl absent ↦ rw absent keyed
  | inr (old, there) ↦ rw there (
      assign-IsKeyed (hash_of m) (g m old) f keyed
        ((lawful m old).0 ∙ (keyed (hash_of m) old there).0)
        ((lawful m old).1 ∙ (keyed (hash_of m) old there).1))
]
apply-IsKeyed (remove hash) f lawful keyed = λ other n h. elim (Bool-cases (hash == other)) [
  | inl here ↦ absurd (cc (rw here at h))
  | inr there ↦ keyed other n (rw there at h)
]
apply-IsKeyed nothing f lawful keyed = keyed

-- A new mapping is found under its hash.
pub apply-create_new :
    (m : Mapping) (f : View)
    → f (hash_of m) ≡ none
    → has_empty_key m ≡ false
    → apply (create m) f (hash_of m) ≡ some m
unfolding apply
apply-create_new m f absent full = rw absent (rw full (rw (eq_refl (hash_of m))))
