-- ===== src/Secw/Srr/Checks.antt =====
-- What a restore tests and reads before it changes anything: the first part of `restoreSRRData`, and
-- `getHardwareUuid`, of lib/src/secw_security_wallet.cc. The file /etc/release-details.json is its
-- text, empty if it does not exist.
use Prim.Native.String.{len}
use fty_security_wallet.Base.{
  String, ◌^^◌, Bool, not, List, and_then, Result, ok, or_throw, throw_if, ◌>>=◌, ◌>>◌, ltb, ◌==◌,
}
use fty_security_wallet.External.{External, read_string}
use fty_security_wallet.External.Openssl.{Openssl}
use fty_security_wallet.Secw.Error.{Exn, standard}
use fty_security_wallet.Secw.Portfolio.{Portfolio, new_portfolio}
use fty_security_wallet.Secw.OpensslWrapper.{decrypt}
use fty_security_wallet.Secw.Configuration.{read_all}
use fty_security_wallet.Secw.Wallet.{filled}
use fty_security_wallet.Secw.Srr.Portfolios.{load_portfolio_from_srr}

module _ ⦃e : External⦄ where
  open e use {get_member, of_json}

  -- `getHardwareUuid`
  unfoldable pub get_hardware_uuid : String → Result Exn String
  get_hardware_uuid release = or_throw standard (
      and_then (of_json release)
        λ si. and_then (get_member "release-details" si) λ details. read_string "uuid" details)

module _ ⦃e : External⦄ ⦃o : Openssl⦄ where
  open e use {Si, get_member, elements}

  -- a portfolio of a save, into a `Portfolio()`
  unfoldable pub restore_portfolio : String → Bool → Si → Result Exn Portfolio
  unfolding new_portfolio
  restore_portfolio passphrase is_same_platform si =
      let (r, p) =
        load_portfolio_from_srr si passphrase is_same_platform (new_portfolio "default") in
      filled r p

  -- the tests of `restoreSRRData`: whether the platform is the one of the save
  unfoldable pub check_save : String → Si → String → String → Result Exn Bool
  check_save release si passphrase version = do
    throw_if (not (version == "1.0")) (standard ("Version " ^^ (version ^^ " is not supported")))
    throw_if (ltb (len passphrase) 8) (standard "Bad passphrase")
    received ← or_throw standard (read_string "check_passphrase" si)
    opened ← decrypt received passphrase
    throw_if (not (passphrase == opened)) (standard "Bad passphrase")
    received_uuid ← or_throw standard (read_string "check_platform" si)
    uuid ← get_hardware_uuid release
    platform ← decrypt received_uuid passphrase
    ok (uuid == platform)

  -- the portfolios of a save
  unfoldable pub saved_portfolios : Si → String → Bool → Result Exn (List Portfolio)
  saved_portfolios si passphrase is_same_platform = do
    array ← or_throw standard (get_member "portfolios" si)
    read_all (restore_portfolio passphrase is_same_platform) (elements array)
