-- ===== src/Secw/Kinds/InternalCertificate.antt =====
-- Class `InternalCertificate` (lib/src/secw_internal_certificate.cc, lib/include/secw_internal_certificate.h): the private key is private.
use fty_security_wallet.Base.{
  Bool, String, returns, throws, Result, err, ◌>>◌, is_empty, ◌==◌, not, throw_if,
}
use fty_security_wallet.External.{External}
use fty_security_wallet.Secw.Error.{Exn, throw_invalid_document_format}
use fty_security_wallet.Secw.Body.Keys
use fty_security_wallet.Secw.Kinds.Fields.{add_secret, public_field, private_field}

module _ ⦃e : External⦄ where
  open e use {Si, empty_si, add_member, of_string, certificate_x509, keys}

  -- `fillSerializationInfoPublicDoc`
  unfoldable pub public_info : String → Si
  public_info pem = add_member Keys.internal_certificate_pem (of_string pem) empty_si

  -- `updatePublicDocFromSerializationInfo`: the new field
  unfoldable pub update_public : Si → Result Exn String
  unfolding public_field
  update_public si = public_field Keys.internal_certificate_pem si

  -- `fillSerializationInfoPrivateDoc`
  unfoldable pub private_info : String → Si
  unfolding add_secret
  private_info key = add_secret Keys.internal_certificate_private_key_pem key empty_si

  -- `updatePrivateDocFromSerializationInfo`: the new field, from the old one
  unfoldable pub update_private : String → Si → Result Exn String
  unfolding private_field
  update_private key si = private_field Keys.internal_certificate_private_key_pem key si

  -- The `try` of `InternalCertificate::validate`.
  unfoldable pub check_key_pair : String → String → Result Exn (Unit {0})
  check_key_pair pem private_key = elim (certificate_x509 pem) [
    | throws _ ↦ err (throw_invalid_document_format Keys.internal_certificate_pem)
    | returns certificate_key ↦ elim (keys private_key) [
      | throws _ ↦ err (throw_invalid_document_format Keys.internal_certificate_pem)
      | returns public_key ↦
          throw_if (not (public_key == certificate_key))
            (throw_invalid_document_format Keys.internal_certificate_pem)
    ]
  ]

  unfoldable pub validate : Bool → String → String → Result Exn (Unit {0})
  unfolding check_key_pair
  validate contains_private pem private_key = do
    throw_if (not contains_private)
        (throw_invalid_document_format Keys.internal_certificate_private_key_pem)
    throw_if (is_empty pem) (throw_invalid_document_format Keys.internal_certificate_pem)
    throw_if (is_empty private_key)
        (throw_invalid_document_format Keys.internal_certificate_private_key_pem)
    check_key_pair pem private_key
