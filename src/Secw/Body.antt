-- ===== src/Secw/Body.antt =====
-- The five kinds of document, one constructor for each subclass of `Document` with its own fields
-- (lib/src/secw_snmpv3.cc, secw_snmpv1.cc, secw_user_and_password.cc, secw_external_certificate.cc
-- and secw_internal_certificate.cc, with their headers in lib/include): the virtual methods.
pub mod Keys
pub mod RoundTrip
pub mod Validation
pub mod Usable
use fty_security_wallet.Base.{
  ℕ, zero, suc, String, Option, some, none, Attempt, returns, throws, Result, ok, err, ◌>>=◌,
  or_throw, is_empty, ◌==◌, if◌then◌else◌,
}
use fty_security_wallet.External.{External, read_string, read_byte}
use fty_security_wallet.Secw.Error.{Exn, throw_invalid_document_format}
use Keys
use fty_security_wallet.Secw.Kinds.Snmpv1
use fty_security_wallet.Secw.Kinds.UserAndPassword
use fty_security_wallet.Secw.Kinds.ExternalCertificate
use fty_security_wallet.Secw.Kinds.InternalCertificate
unfoldable pub use fty_security_wallet.Secw.Kinds.Fields.{add_secret, public_field, private_field}

pub data SecurityLevel : Type 0 where
  no_auth_no_priv auth_no_priv auth_priv : SecurityLevel

pub data AuthProtocol : Type 0 where
  md5 sha : AuthProtocol

pub data PrivProtocol : Type 0 where
  des aes : PrivProtocol

pub record Snmpv3 : Type 0 where
  pub security_level : SecurityLevel
  pub auth_protocol : AuthProtocol
  pub priv_protocol : PrivProtocol
  pub security_name : String
  pub auth_password : String
  pub priv_password : String

pub data Body : Type 0 where
  snmpv3 : Snmpv3 → Body
  -- the community name
  snmpv1 : String → Body
  -- user name and password
  user_and_password : String → String → Body
  -- the certificate
  external_certificate : String → Body
  -- the certificate and its private key
  internal_certificate : String → String → Body

-- the conversions of the enumerations to and from `uint8_t`; `none` is `tmp >= MAX_…`
pub number_of_level : SecurityLevel → ℕ
number_of_level no_auth_no_priv = 0
number_of_level auth_no_priv = 1
number_of_level auth_priv = 2

pub level_of : ℕ → Option SecurityLevel
level_of zero = some no_auth_no_priv
level_of (suc zero) = some auth_no_priv
level_of (suc (suc zero)) = some auth_priv
level_of (suc (suc (suc n))) = none

pub number_of_auth : AuthProtocol → ℕ
number_of_auth md5 = 0
number_of_auth sha = 1

pub auth_of : ℕ → Option AuthProtocol
auth_of zero = some md5
auth_of (suc zero) = some sha
auth_of (suc (suc n)) = none

pub number_of_priv : PrivProtocol → ℕ
number_of_priv des = 0
number_of_priv aes = 1

pub priv_of : ℕ → Option PrivProtocol
priv_of zero = some des
priv_of (suc zero) = some aes
priv_of (suc (suc n)) = none

-- `m_type`, which each constructor sets and nothing changes
unfoldable pub type_of : Body → String
type_of (snmpv3 s) = Keys.snmpv3_type
type_of (snmpv1 community) = Keys.snmpv1_type
type_of (user_and_password user password) = Keys.user_and_password_type
type_of (external_certificate pem) = Keys.external_certificate_type
type_of (internal_certificate pem key) = Keys.internal_certificate_type

-- `Document::m_documentFactoryFuntions`: the default constructor of the class of a type name
unfoldable pub factory : String → Option Body
factory type =
    if type == Keys.snmpv3_type
    then some (
        snmpv3 (record {
          security_level = no_auth_no_priv;
          auth_protocol = md5;
          priv_protocol = des;
          security_name = "";
          auth_password = "";
          priv_password = "";
        }))
    else if type == Keys.snmpv1_type
    then some (snmpv1 "")
    else if type == Keys.user_and_password_type
    then some (user_and_password "" "")
    else if type == Keys.external_certificate_type
    then some (external_certificate "")
    else if type == Keys.internal_certificate_type
    then some (internal_certificate "" "")
    else none

module _ ⦃e : External⦄ where
  open e use {Si, empty_si, add_member, find_member, to_string, of_string, of_number}

  -- `fillSerializationInfoPublicDoc`, on an empty node
  unfoldable pub public_info : Body → Si
  unfolding number_of_level number_of_auth number_of_priv Snmpv1.public_info
      UserAndPassword.public_info ExternalCertificate.public_info InternalCertificate.public_info
  public_info (snmpv3 s) =
      add_member Keys.snmpv3_priv_protocol (of_number (number_of_priv s.priv_protocol)) (
        add_member Keys.snmpv3_auth_protocol (of_number (number_of_auth s.auth_protocol)) (
          add_member Keys.snmpv3_security_name (of_string s.security_name) (
            add_member Keys.snmpv3_security_level (of_number (number_of_level s.security_level))
              empty_si)))
  public_info (snmpv1 community) = Snmpv1.public_info community
  public_info (user_and_password user password) = UserAndPassword.public_info user
  public_info (external_certificate pem) = ExternalCertificate.public_info pem
  public_info (internal_certificate pem key) = InternalCertificate.public_info pem

  -- `fillSerializationInfoPrivateDoc`, on an empty node
  unfoldable pub private_info : Body → Si
  unfolding add_secret UserAndPassword.private_info InternalCertificate.private_info
  private_info (snmpv3 s) =
      add_secret Keys.snmpv3_priv_password s.priv_password
        (add_secret Keys.snmpv3_auth_password s.auth_password empty_si)
  private_info (snmpv1 community) = empty_si
  private_info (user_and_password user password) = UserAndPassword.private_info password
  private_info (external_certificate pem) = empty_si
  private_info (internal_certificate pem key) = InternalCertificate.private_info key

  -- `getMember(key) >>= tmp` for an enumeration, with its range test
  pub public_enum : {A : Type 0} → (ℕ → Option A) → String → Si → Result Exn A
  public_enum of key si = elim (read_byte key si) [
    | throws _ ↦ err (throw_invalid_document_format key)
    | returns tmp ↦ elim (of tmp) [ none ↦ err (throw_invalid_document_format key) | some a ↦ ok a ]
  ]

  -- `updatePublicDocFromSerializationInfo`
  unfoldable pub update_public : Body → Si → Result Exn Body
  unfolding public_field public_enum level_of auth_of priv_of Snmpv1.update_public
      UserAndPassword.update_public ExternalCertificate.update_public
      InternalCertificate.update_public
  update_public (snmpv3 s) si = do
    level ← public_enum level_of Keys.snmpv3_security_level si
    name ← public_field Keys.snmpv3_security_name si
    auth ← public_enum auth_of Keys.snmpv3_auth_protocol si
    priv ← public_enum priv_of Keys.snmpv3_priv_protocol si
    ok (
        snmpv3 (record s {
          security_level = level;
          security_name = name;
          auth_protocol = auth;
          priv_protocol = priv;
        }))
  update_public (snmpv1 community) si = do
    community' ← Snmpv1.update_public si
    ok (snmpv1 community')
  update_public (user_and_password user password) si = do
    user' ← UserAndPassword.update_public si
    ok (user_and_password user' password)
  update_public (external_certificate pem) si = do
    pem' ← ExternalCertificate.update_public si
    ok (external_certificate pem')
  update_public (internal_certificate pem key) si = do
    pem' ← InternalCertificate.update_public si
    ok (internal_certificate pem' key)

  -- `updatePrivateDocFromSerializationInfo`
  unfoldable pub update_private : Body → Si → Result Exn Body
  unfolding private_field UserAndPassword.update_private InternalCertificate.update_private
  update_private (snmpv3 s) si = do
    auth ← private_field Keys.snmpv3_auth_password s.auth_password si
    priv ← private_field Keys.snmpv3_priv_password s.priv_password si
    ok (snmpv3 (record s { auth_password = auth; priv_password = priv }))
  update_private (snmpv1 community) si = ok (snmpv1 community)
  update_private (user_and_password user password) si = do
    password' ← UserAndPassword.update_private password si
    ok (user_and_password user password')
  update_private (external_certificate pem) si = ok (external_certificate pem)
  update_private (internal_certificate pem key) si = do
    key' ← InternalCertificate.update_private key si
    ok (internal_certificate pem key')
