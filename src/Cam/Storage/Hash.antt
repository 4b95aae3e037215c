-- ===== src/Cam/Storage/Hash.antt =====
-- `computeHash` (lib/src/cam_credential_asset_mapping_storage.cc): when two keys have one hash.
use Prim.Native.Char.{Char}
use Prim.Native.String.{String, ◌++◌}
use mathlib.Core.Path.{◌≡◌, refl, ap, sym, ◌∙◌}
use mathlib.Core.Logic.{◌≢◌}
use text.Mathlib.TextLemmas.{
  append_assoc, cons-append, nil-append, append-nil, append_cancel_left, head-eq_of_cons-eq,
  tail-eq_of_cons-eq,
}
use fty_security_wallet.Base.{Bool-cases, inl, inr, some, ok, eq_refl}
use fty_security_wallet.Base.StringMap
use fty_security_wallet.Cam.Mapping.{Mapping}
use fty_security_wallet.Cam.Storage.{
  Storage, compute_hash, hash_of, has_empty_key, put_mapping, set_mapping, get_mapping,
}

-- Where the first identifier of a key holds the separator, another key has the same hash.
same_hash :
    (asset middle service protocol : String)
    → compute_hash (asset ++ ("|S" ++ middle)) service protocol
      ≡ compute_hash asset (middle ++ ("|S" ++ service)) protocol
unfolding compute_hash
same_hash asset middle service protocol = simp append_assoc

-- A text that holds the separator is not its part before it.
longer : (asset middle : String) → asset ++ ("|S" ++ middle) ≢ asset
longer asset middle h =
    let nothing_left : "|S" ++ middle ≡ "" =
      append_cancel_left asset ("|S" ++ middle) "" (h ∙ sym (append-nil asset)) in
    absurd (cc (sym (cons-append "|" "S" middle), nothing_left))

-- A mapping that `setMapping` stored, whose asset holds the separator, is what `getMapping` returns
-- for another asset, with another service, though no mapping of that key was stored.
pub get_mapping-set_mapping_collision :
    (m : Mapping) (asset middle : String) (s t : Storage)
    → m.asset_id ≡ asset ++ ("|S" ++ middle)
    → set_mapping m s ≡ (ok tt, t)
    → (m.asset_id ≢ asset)
      × (get_mapping asset (middle ++ ("|S" ++ m.service_id)) m.protocol t ≡ ok m)
unfolding set_mapping get_mapping
get_mapping-set_mapping_collision m asset middle s t divided h =
    elim (Bool-cases (has_empty_key m)) [
      | inl empty ↦ absurd (cc (ap (λ r. r.0) (rw empty at h)))
      | inr filled ↦
          let stored : put_mapping m s ≡ t = ap (λ r. r.1) (rw filled at h) in
          let key : compute_hash asset (middle ++ ("|S" ++ m.service_id)) m.protocol ≡ hash_of m =
            sym (same_hash asset middle m.service_id m.protocol)
            ∙ ap (λ a. compute_hash a m.service_id m.protocol) (sym divided) in
          let there : StringMap.lookup (hash_of m) (StringMap.insert (hash_of m) m s.mappings)
              ≡ some m =
            StringMap.lookup-insert (hash_of m) (hash_of m) m s.mappings
            ∙ rw (eq_refl (hash_of m)) refl in
          let found : StringMap.lookup
                (compute_hash asset (middle ++ ("|S" ++ m.service_id)) m.protocol) t.mappings
              ≡ some m =
            ap (λ k. StringMap.lookup k t.mappings) key
            ∙ ap (λ u. StringMap.lookup (hash_of m) u.mappings) (sym stored)
            ∙ there in
          (λ same. longer asset middle (sym divided ∙ same), rw (found, get_mapping) refl)
    ]

-- No bar in an identifier.
abbrev pub IsPlain : String → Type 0
IsPlain String.[] = Unit
IsPlain (String.◌∷◌ c s) = (c ≢ "|") × IsPlain s

bar_cons : (s : String) → "|" ++ s ≡ String.◌∷◌ "|" s
bar_cons s = cons-append "|" "" s ∙ ap (λ t. String.◌∷◌ "|" t) (nil-append s)

bar_first :
    (c : Char) (y s t : String)
    → "" ++ ("|" ++ s) ≡ String.◌∷◌ c y ++ ("|" ++ t)
    → String.◌∷◌ "|" s ≡ String.◌∷◌ c (y ++ ("|" ++ t))
bar_first c y s t h = sym (nil-append ("|" ++ s) ∙ bar_cons s) ∙ h ∙ cons-append c y ("|" ++ t)

-- A text up to its first bar, and the rest.
split_at_bar :
    (x y : String) {s t : String}
    → IsPlain x
    → IsPlain y
    → x ++ ("|" ++ s) ≡ y ++ ("|" ++ t)
    → (x ≡ y) × (s ≡ t)
split_at_bar String.[] String.[] {s} {t} hx hy h =
    (refl, append_cancel_left "|" s t (append_cancel_left "" ("|" ++ s) ("|" ++ t) h))
split_at_bar String.[] (String.◌∷◌ c y) {s} {t} hx hy h =
    absurd (hy.0 (sym (head-eq_of_cons-eq (bar_first c y s t h))))
split_at_bar (String.◌∷◌ c x) String.[] {s} {t} hx hy h =
    absurd (hx.0 (sym (head-eq_of_cons-eq (bar_first c x t s (sym h)))))
split_at_bar (String.◌∷◌ c x) (String.◌∷◌ d y) {s} {t} hx hy h =
    let both = sym (cons-append c x ("|" ++ s)) ∙ h ∙ cons-append d y ("|" ++ t) in
    let (same, rest) = split_at_bar x y hx.1 hy.1 (tail-eq_of_cons-eq both) in
    (cc (head-eq_of_cons-eq both, same), rest)

-- The same for a separator that begins with a bar.
split_at :
    (separator x y s t : String)
    → IsPlain x
    → IsPlain y
    → x ++ (("|" ++ separator) ++ s) ≡ y ++ (("|" ++ separator) ++ t)
    → (x ≡ y) × (s ≡ t)
split_at separator x y s t hx hy h =
    let (same, rest) = split_at_bar x y hx hy (
      sym (ap (λ r. x ++ r) (append_assoc "|" separator s))
      ∙ h
      ∙ ap (λ r. y ++ r) (append_assoc "|" separator t)) in
    (same, append_cancel_left separator s t rest)

-- Keys whose asset and service hold no bar have one hash only if they are one key.
pub compute_hash_injective :
    (a b s t p q : String)
    → IsPlain a
    → IsPlain b
    → IsPlain s
    → IsPlain t
    → compute_hash a s p ≡ compute_hash b t q
    → (a ≡ b) × (s ≡ t) × (p ≡ q)
unfolding compute_hash
compute_hash_injective a b s t p q ha hb hs ht h =
    let (assets, rest) =
      split_at "S" a b (s ++ ("|P:" ++ p)) (t ++ ("|P:" ++ q)) ha hb
        (append_cancel_left "A" _ _ h) in
    let (services, protocols) = split_at "P:" s t p q hs ht rest in (assets, services, protocols)
