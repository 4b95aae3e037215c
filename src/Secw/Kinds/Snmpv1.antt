-- ===== src/Secw/Kinds/Snmpv1.antt =====
-- Class `Snmpv1` (lib/src/secw_snmpv1.cc, lib/include/secw_snmpv1.h): the community name is public.
use fty_security_wallet.Base.{String, Result, is_empty, throw_if}
use fty_security_wallet.External.{External}
use fty_security_wallet.Secw.Error.{Exn, throw_invalid_document_format}
use fty_security_wallet.Secw.Body.Keys
use fty_security_wallet.Secw.Kinds.Fields.{public_field}

module _ ⦃e : External⦄ where
  open e use {Si, empty_si, add_member, of_string}

  -- `fillSerializationInfoPublicDoc`
  unfoldable pub public_info : String → Si
  public_info community = add_member Keys.snmpv1_community_name (of_string community) empty_si

  -- `updatePublicDocFromSerializationInfo`: the new field
  unfoldable pub update_public : Si → Result Exn String
  unfolding public_field
  update_public si = public_field Keys.snmpv1_community_name si

unfoldable pub validate : String → Result Exn (Unit {0})
validate community =
    throw_if (is_empty community) (throw_invalid_document_format Keys.snmpv1_community_name)
