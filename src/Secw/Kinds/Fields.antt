-- ===== src/Secw/Kinds/Fields.antt =====
-- How the classes of documents write and read one field (lib/src/secw_snmpv3.cc and its neighbours).
use fty_security_wallet.Base.{String, some, none, Result, ok, or_throw, is_empty, if◌then◌else◌}
use fty_security_wallet.External.{External, read_string}
use fty_security_wallet.Secw.Error.{Exn, throw_invalid_document_format}

module _ ⦃e : External⦄ where
  open e use {Si, add_member, find_member, to_string, of_string}

  -- A secret is written only if it is not empty.
  unfoldable pub add_secret : String → String → Si → Si
  add_secret key secret si = if is_empty secret then si else add_member key (of_string secret) si

  -- `getMember(key) >>= field` in a `try` whose handler names the field
  unfoldable pub public_field : String → Si → Result Exn String
  public_field key si = or_throw (λ _. throw_invalid_document_format key) (read_string key si)

  -- `findMember(key)`, read if it is there: otherwise the field keeps its value
  unfoldable pub private_field : String → String → Si → Result Exn String
  private_field key old si = elim (find_member key si) [
    | none ↦ ok old
    | some m ↦ or_throw (λ _. throw_invalid_document_format key) (to_string m)
  ]
