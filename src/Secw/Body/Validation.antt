-- ===== src/Secw/Body/Validation.antt =====
-- `validate` of each kind of document (lib/src/secw_snmpv3.cc and its neighbours): whether its
-- data may be stored.
use fty_security_wallet.Base.{Bool, Result, ok, ◌>>◌, is_empty, ◌&&◌, not, throw_if}
use fty_security_wallet.External.{External}
use fty_security_wallet.Secw.Error.{Exn, throw_invalid_document_format}
use fty_security_wallet.Secw.Body.{
  Body, snmpv3, snmpv1, user_and_password, external_certificate, internal_certificate, Snmpv3,
  SecurityLevel, no_auth_no_priv, auth_no_priv, auth_priv,
}
use fty_security_wallet.Secw.Body.Keys
use fty_security_wallet.Secw.Kinds.Snmpv1
use fty_security_wallet.Secw.Kinds.UserAndPassword
use fty_security_wallet.Secw.Kinds.ExternalCertificate
use fty_security_wallet.Secw.Kinds.InternalCertificate
use fty_security_wallet.Secw.Kinds.ExternalCertificate.{check_certificate}
use fty_security_wallet.Secw.Kinds.InternalCertificate.{check_key_pair}

-- the last `if` of `Snmpv3::validate`
unfoldable pub validate_level : SecurityLevel → Snmpv3 → Result Exn (Unit {0})
validate_level auth_priv s = do
  throw_if (is_empty s.auth_password) (throw_invalid_document_format Keys.snmpv3_auth_password)
  throw_if (is_empty s.priv_password) (throw_invalid_document_format Keys.snmpv3_priv_password)
validate_level auth_no_priv s =
    throw_if (is_empty s.auth_password) (throw_invalid_document_format Keys.snmpv3_auth_password)
validate_level no_auth_no_priv s = ok tt

-- `Snmpv3::validate`, given `m_containPrivateData`
unfoldable pub validate_snmpv3 : Bool → Snmpv3 → Result Exn (Unit {0})
unfolding validate_level
validate_snmpv3 contains_private s = do
  throw_if (not contains_private && is_empty s.auth_password)
      (throw_invalid_document_format Keys.snmpv3_auth_password)
  throw_if (not contains_private && is_empty s.priv_password)
      (throw_invalid_document_format Keys.snmpv3_priv_password)
  throw_if (is_empty s.security_name) (throw_invalid_document_format Keys.snmpv3_security_name)
  validate_level s.security_level s

module _ ⦃e : External⦄ where
  unfoldable pub validate_body : Bool → Body → Result Exn (Unit {0})
  unfolding validate_snmpv3 check_certificate check_key_pair Snmpv1.validate
      UserAndPassword.validate ExternalCertificate.validate InternalCertificate.validate
  validate_body contains_private (snmpv3 s) = validate_snmpv3 contains_private s
  validate_body contains_private (snmpv1 community) = Snmpv1.validate community
  validate_body contains_private (user_and_password user password) =
      UserAndPassword.validate contains_private user password
  validate_body contains_private (external_certificate pem) = ExternalCertificate.validate pem
  validate_body contains_private (internal_certificate pem private_key) =
      InternalCertificate.validate contains_private pem private_key
