-- ===== src/Secw/Kinds/UserAndPassword.antt =====
-- Class `UserAndPassword` (lib/src/secw_user_and_password.cc, lib/include/secw_user_and_password.h): the password is private.
use fty_security_wallet.Base.{Bool, String, Result, ◌>>◌, is_empty, not, throw_if}
use fty_security_wallet.External.{External}
use fty_security_wallet.Secw.Error.{Exn, throw_invalid_document_format}
use fty_security_wallet.Secw.Body.Keys
use fty_security_wallet.Secw.Kinds.Fields.{add_secret, public_field, private_field}

module _ ⦃e : External⦄ where
  open e use {Si, empty_si, add_member, of_string}

  -- `fillSerializationInfoPublicDoc`
  unfoldable pub public_info : String → Si
  public_info user = add_member Keys.user_and_password_username (of_string user) empty_si

  -- `updatePublicDocFromSerializationInfo`: the new field
  unfoldable pub update_public : Si → Result Exn String
  unfolding public_field
  update_public si = public_field Keys.user_and_password_username si

  -- `fillSerializationInfoPrivateDoc`
  unfoldable pub private_info : String → Si
  unfolding add_secret
  private_info password = add_secret Keys.user_and_password_password password empty_si

  -- `updatePrivateDocFromSerializationInfo`: the new field, from the old one
  unfoldable pub update_private : String → Si → Result Exn String
  unfolding private_field
  update_private password si = private_field Keys.user_and_password_password password si

unfoldable pub validate : Bool → String → String → Result Exn (Unit {0})
validate contains_private user password = do
  throw_if (not contains_private) (throw_invalid_document_format Keys.user_and_password_password)
  throw_if (is_empty user) (throw_invalid_document_format Keys.user_and_password_username)
  throw_if (is_empty password) (throw_invalid_document_format Keys.user_and_password_password)
