-- ===== src/Secw/Body/Keys.antt =====
-- The type names and the member names of the kinds of document (the `#define`s and constants of
-- lib/include/secw_snmpv3.h and its neighbours).
use fty_security_wallet.Base.{String}

abbrev pub snmpv3_type : String
snmpv3_type = "Snmpv3"

abbrev pub snmpv1_type : String
snmpv1_type = "Snmpv1"

abbrev pub user_and_password_type : String
user_and_password_type = "UserAndPassword"

abbrev pub external_certificate_type : String
external_certificate_type = "ExternalCertificate"

abbrev pub internal_certificate_type : String
internal_certificate_type = "InternalCertificate"

abbrev pub snmpv3_security_level : String
snmpv3_security_level = "secw_snmpv3_security_level"

abbrev pub snmpv3_security_name : String
snmpv3_security_name = "secw_snmpv3_security_name"

abbrev pub snmpv3_auth_protocol : String
snmpv3_auth_protocol = "secw_snmpv3_auth_protocol"

abbrev pub snmpv3_auth_password : String
snmpv3_auth_password = "secw_snmpv3_auth_password"

abbrev pub snmpv3_priv_protocol : String
snmpv3_priv_protocol = "secw_snmpv3_priv_protocol"

abbrev pub snmpv3_priv_password : String
snmpv3_priv_password = "secw_snmpv3_priv_password"

abbrev pub snmpv1_community_name : String
snmpv1_community_name = "secw_snmpv1_community_name"

abbrev pub user_and_password_username : String
user_and_password_username = "secw_user_and_password_username"

abbrev pub user_and_password_password : String
user_and_password_password = "secw_user_and_password_password"

abbrev pub external_certificate_pem : String
external_certificate_pem = "secw_external_certificate_pem"

abbrev pub internal_certificate_pem : String
internal_certificate_pem = "secw_internal_certificate_pem"

abbrev pub internal_certificate_private_key_pem : String
internal_certificate_private_key_pem = "secw_internal_certificate_private_key_pem"
