-- ===== src/Secw/Kinds/ExternalCertificate.antt =====
-- Class `ExternalCertificate` (lib/src/secw_external_certificate.cc, lib/include/secw_external_certificate.h): the certificate is public.
use fty_security_wallet.Base.{String, returns, throws, Result, ok, err, ◌>>◌, is_empty, throw_if}
use fty_security_wallet.External.{External}
use fty_security_wallet.Secw.Error.{Exn, throw_invalid_document_format}
use fty_security_wallet.Secw.Body.Keys
use fty_security_wallet.Secw.Kinds.Fields.{public_field}

module _ ⦃e : External⦄ where
  open e use {Si, empty_si, add_member, of_string, certificate_x509}

  -- `fillSerializationInfoPublicDoc`
  unfoldable pub public_info : String → Si
  public_info pem = add_member Keys.external_certificate_pem (of_string pem) empty_si

  -- `updatePublicDocFromSerializationInfo`: the new field
  unfoldable pub update_public : Si → Result Exn String
  unfolding public_field
  update_public si = public_field Keys.external_certificate_pem si

  -- The `try` of `ExternalCertificate::validate`.
  unfoldable pub check_certificate : String → Result Exn (Unit {0})
  check_certificate pem = elim (certificate_x509 pem) [
    | returns key ↦ ok tt
    | throws _ ↦ err (throw_invalid_document_format Keys.external_certificate_pem)
  ]

  unfoldable pub validate : String → Result Exn (Unit {0})
  unfolding check_certificate
  validate pem = do
    throw_if (is_empty pem) (throw_invalid_document_format Keys.external_certificate_pem)
    check_certificate pem
