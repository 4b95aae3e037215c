-- ===== src/Secw/Body/Usable.antt =====
-- What `validate` asks of a document, stated without the code's order of tests.
use fty_security_wallet.Base.{
  true, false, String, returns, ok, is_empty, ◌==◌, ◌≡◌, ◌≢◌, ◌↔◌, arith, eq_iff, Attempt-cases,
  inl, inr, Bool-cases,
}
use fty_security_wallet.External.{External}
use fty_security_wallet.Secw.Body.{
  Body, snmpv3, snmpv1, user_and_password, external_certificate, internal_certificate,
  no_auth_no_priv, auth_priv,
}
use fty_security_wallet.Secw.Body.Validation.{validate_body}
use fty_security_wallet.Secw.Kinds.ExternalCertificate.{check_certificate}
use fty_security_wallet.Secw.Kinds.InternalCertificate.{check_key_pair}

module _ ⦃e : External⦄ where
  open e use {certificate_x509, keys}

  -- What a stored document of each kind must hold.
  abbrev pub IsUsable : Body → Type 0
  IsUsable (snmpv3 s) =
      (is_empty s.security_name ≡ false)
      × (s.security_level ≢ no_auth_no_priv → is_empty s.auth_password ≡ false)
      × (s.security_level ≡ auth_priv → is_empty s.priv_password ≡ false)
  IsUsable (snmpv1 community) = is_empty community ≡ false
  IsUsable (user_and_password user password) = (is_empty user ≡ false) × (is_empty password ≡ false)
  IsUsable (external_certificate pem) =
      (is_empty pem ≡ false) × ((key : String) × (certificate_x509 pem ≡ returns key))
  IsUsable (internal_certificate pem private_key) =
      (is_empty pem ≡ false)
      × (is_empty private_key ≡ false)
      × ((key : String) × (certificate_x509 pem ≡ returns key) × (keys private_key ≡ returns key))

  check_certificate_iff :
      (pem : String)
      → (check_certificate pem ≡ ok tt) ↔ ((key : String) × (certificate_x509 pem ≡ returns key))
  unfolding check_certificate
  check_certificate_iff pem = elim (Attempt-cases (certificate_x509 pem)) [
    | inl (key, good) ↦ (λ h. (key, good), λ h. rw (good, check_certificate))
    | inr (what, bad) ↦ (λ h. cc (rw (bad, check_certificate) at h), λ h. cc h.1)
  ]

  check_key_pair_iff :
      (pem private_key : String)
      → (check_key_pair pem private_key ≡ ok tt)
        ↔ ((key : String) × (certificate_x509 pem ≡ returns key) × (keys private_key ≡ returns key))
  unfolding check_key_pair
  check_key_pair_iff pem private_key = elim (Attempt-cases (certificate_x509 pem)) [
    | inr (what, bad) ↦ (λ h. cc (rw (bad, check_key_pair) at h), λ h. cc h.1)
    | inl (k, good) ↦ elim (Attempt-cases (keys private_key)) [
      | inr (what, bad) ↦
          (λ h. cc (rw (bad, check_key_pair) at (rw (good, check_key_pair) at h)), λ h. cc h.2)
      | inl (p, read) ↦ elim (Bool-cases (p == k)) [
        | inl same ↦
            let p≡k = (eq_iff p k).0 same in
            (
              λ h. (k, good, rw (← p≡k) read),
              λ h. rw (good, check_key_pair) (rw (read, check_key_pair) (rw same)),
            )
        | inr other ↦ (
          λ h. cc (rw other at (rw (read, check_key_pair) at (rw (good, check_key_pair) at h))),
          λ h. let p≡k : p ≡ k = cc (h.1, h.2) in cc ((eq_iff p k).1 p≡k),
        )
      ]
    ]
  ]

  -- A document with its private data passes `validate` exactly when it holds what its kind needs:
  -- the names, the secrets that its security level asks for, a readable certificate and a private
  -- key with the certificate's public key.
  pub validate_body_iff : (b : Body) → (validate_body true b ≡ ok tt) ↔ IsUsable b
  unfolding validate_body
  validate_body_iff (snmpv3 s) =
      (λ h. (ground arith, (λ level. ground arith), (λ level. ground arith)), λ h. ground arith)
  validate_body_iff (snmpv1 community) = ground arith
  validate_body_iff (user_and_password user password) = ground arith
  validate_body_iff (external_certificate pem) = (
    λ h. (ground arith, (check_certificate_iff pem).0 (ground arith)),
    λ h. ground (arith, (check_certificate_iff pem).1 h.1),
  )
  validate_body_iff (internal_certificate pem private_key) = (
    λ h. (ground arith, ground arith, (check_key_pair_iff pem private_key).0 (ground arith)),
    λ h. ground (arith, (check_key_pair_iff pem private_key).1 h.2),
  )
