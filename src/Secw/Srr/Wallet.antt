-- ===== src/Secw/Srr/Wallet.antt =====
-- The wallet in a save: `getSrrSaveData`, `restoreSRRData` and `getHardwareUuid` of
-- lib/src/secw_security_wallet.cc. The file /etc/release-details.json is its text, empty if it does
-- not exist.
pub mod Checked
pub mod RoundTrip
use Prim.Native.String.{len}
use fty_security_wallet.Base.{
  ℕ, String, ◌^^◌, Bool, not, Option, some, none, List, [], ◌∷◌, Attempt, and_then, Result, ok, err,
  hang, or_throw, throw_if, ltb, ◌==◌, if◌then◌else◌,
}
use fty_security_wallet.Base.{◌>>=◌ as ◌>>=ᵣ◌, ◌>>◌ as ◌>>ᵣ◌}
use fty_security_wallet.Base.Exec.{Exec, pure, raise_if, lift, continue, ◌>>=◌, ◌>>◌}
use fty_security_wallet.External.{External, read_string}
use fty_security_wallet.External.Openssl.{Openssl}
use fty_security_wallet.Secw.Error.{Exn, standard}
use fty_security_wallet.Secw.Portfolio.{Portfolio, new_portfolio}
use fty_security_wallet.Secw.OpensslWrapper.{encrypt, decrypt}
use fty_security_wallet.Secw.Configuration.{read_all}
use fty_security_wallet.Secw.Wallet.{SecurityWallet, filled, reload}
use fty_security_wallet.Secw.Srr.Checks.{get_hardware_uuid, check_save, saved_portfolios}
use fty_security_wallet.Secw.Server.{World, Handler}
use fty_security_wallet.Secw.Server.Writes.{save}
use fty_security_wallet.Secw.Srr.Portfolios.{portfolio_srr_info, load_portfolio_from_srr}

module _ ⦃e : External⦄ where
  -- `reload`, of the files of the server. The last argument is the wallet that a reload that
  -- throws leaves, which depends on how far the reader of cxxtools has come.
  unfoldable pub reload_files : Option String → SecurityWallet → Handler (Unit {0})
  reload_files configuration left world = elim (reload configuration world.database) [
    | ok w ↦ (ok tt, record world { wallet = w })
    | err x ↦ (err x, record world { wallet = left })
    | hang ↦ (hang, record world { wallet = left })
  ]

  -- `m_portfolios = listPortfolio`
  abbrev pub set_portfolios : List Portfolio → Handler (Unit {0})
  set_portfolios portfolios world =
      (ok tt, record world { wallet = record world.wallet { portfolios = portfolios } })

module _ ⦃e : External⦄ ⦃o : Openssl⦄ where
  open e use {Si, empty_si, add_member, get_member, elements, of_elements, of_string}

  unfoldable pub portfolio_srr_infos : List Portfolio → String → Exec ℕ Exn (List Si)
  portfolio_srr_infos [] key = pure []
  portfolio_srr_infos (p ∷ ps) key =
      portfolio_srr_info p key >>= λ si. portfolio_srr_infos ps key >>= λ rest. pure (si ∷ rest)

  -- what a save holds
  abbrev pub save_node : String → String → List Si → Si
  save_node check platform portfolios = add_member "portfolios" (of_elements portfolios) (
      add_member "check_platform" (of_string platform)
        (add_member "check_passphrase" (of_string check) empty_si))

  -- `getSrrSaveData`; the state is the number of the next draw of random bytes
  unfoldable pub get_srr_save_data : String → String → SecurityWallet → Exec ℕ Exn Si
  get_srr_save_data release passphrase w =
      raise_if (ltb (len passphrase) 8) (standard "Passphrase must be at least 8 characters!")
      >>= λ _. encrypt passphrase passphrase >>= λ check.
          lift (get_hardware_uuid release) >>= λ uuid. encrypt uuid passphrase >>= λ platform.
          portfolio_srr_infos w.portfolios passphrase >>= λ portfolios.
          pure (save_node check platform portfolios)

  -- `restoreSRRData`
  unfoldable pub restore_srr_data :
      Option String → SecurityWallet → String → Si → String → String → Handler (Unit {0})
  restore_srr_data configuration left release si passphrase version =
      lift (check_save release si passphrase version) >>= λ is_same_platform.
      lift (saved_portfolios si passphrase is_same_platform) >>= λ portfolios.
      set_portfolios portfolios >>= λ _. save >>= λ _. reload_files configuration left
