-- ===== src/Secw/Helpers.antt =====
-- The helpers that the server uses (lib/src/secw_helpers.cc).
use fty_security_wallet.Base.{
  String, ◌^^◌, Bool, true, false, [], ◌∷◌, ◌||◌, Result, ok, returns, Attempt-cases, ok-injective,
  ap, ◌∙◌, or_throw, ◌≡◌, ◌↔◌, arith, eq_iff, eq_refl, inl, inr, Bool-cases,
}
use fty_security_wallet.Base.StringSet
use fty_security_wallet.Base.StringSet.{StringSet}
use fty_security_wallet.External.{External}
use fty_security_wallet.Secw.Error.{Exn, secw, generic, protocol_error}

module _ ⦃e : External⦄ where
  open e use {Si, to_json, of_json}

  unfoldable pub deserialize : String → Result Exn Si
  deserialize json =
      or_throw (λ message. secw (protocol_error ("Error in the json from server: " ^^ message)))
        (of_json json)

  unfoldable pub serialize : Si → Result Exn String
  serialize si =
      or_throw (λ message. secw (generic ("Error while creating json " ^^ message))) (to_json si)

  pub serialize-eq-ok :
      (si : Si) (text : String) → serialize si ≡ ok text → to_json si ≡ returns text
  unfolding serialize
  serialize-eq-ok si text h = elim (Attempt-cases (to_json si)) [
    | inl (written, there) ↦ there ∙ ap (λ t. returns t) (ok-injective (rw there at h))
    | inr (message, broken) ↦ absurd (cc (rw broken at h))
  ]

-- `hasCommonUsageIds`
unfoldable pub has_common_usage_ids : StringSet → StringSet → Bool
has_common_usage_ids [] usages2 = false
has_common_usage_ids (usage1 ∷ usages1) usages2 =
    StringSet.contains usage1 usages2 || has_common_usage_ids usages1 usages2

-- Two sets have a common usage exactly when some usage is in both.
pub has_common_usage_ids_iff :
    (a b : StringSet)
    → (has_common_usage_ids a b ≡ true)
      ↔ ((u : String) × (StringSet.contains u a ≡ true) × (StringSet.contains u b ≡ true))
unfolding has_common_usage_ids StringSet.contains
has_common_usage_ids_iff a b = (found a, λ h. common a h.0 h.1 h.2)
  where
    found :
        (a : StringSet)
        → has_common_usage_ids a b ≡ true
        → (u : String) × (StringSet.contains u a ≡ true) × (StringSet.contains u b ≡ true)
    found [] h = cc
    found (x ∷ a) h = elim (Bool-cases (StringSet.contains x b)) [
      | inl both ↦ (x, rw (eq_refl x), both)
      | inr other ↦ let (u, in_a, in_b) = found a (rw other at h) in (u, ground arith, in_b)
    ]

    common :
        (a : StringSet) (u : String)
        → StringSet.contains u a ≡ true
        → StringSet.contains u b ≡ true
        → has_common_usage_ids a b ≡ true
    common [] u h k = cc
    common (x ∷ a) u h k = ground (arith, eq_iff x u, common a u)
