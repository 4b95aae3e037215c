-- ===== src/Secw/Srr/Requests/RoundTrip.antt =====
-- What the restore request makes of the reply to a save request
-- (lib/src/secw_security_wallet_server.cc).
use fty_security_wallet.Base.{
  ℕ, String, Option, some, [], ◌∷◌, map, All, returns, Result, ok, err, hang, ◌≡◌, refl, ap, ◌∙◌,
}
use fty_security_wallet.Base.Exec.{continue-eq-ok, lift}
use fty_security_wallet.Base.StringMap
use fty_security_wallet.Base.StringMap.{StringMap}
use fty_security_wallet.External.{External}
use fty_security_wallet.External.Laws.{Laws, IsWritable}
use fty_security_wallet.External.Openssl.{Openssl, OpensslLaws}
use fty_security_wallet.Secw.Error.{Exn}
use fty_security_wallet.Secw.Portfolio.Marking.{mark_portfolio}
use fty_security_wallet.Secw.Portfolio.Soundness.{IsSound}
use fty_security_wallet.Secw.Server.Restart.{mark_portfolio-AreHeld, wallet_info-mark_portfolio}
use fty_security_wallet.Secw.Srr.Marking.{mark_wallet, get_srr_save_data-mark_wallet}
use fty_security_wallet.Secw.Helpers.{serialize, deserialize, serialize-eq-ok}
use fty_security_wallet.Secw.Configuration.{PortfolioConfiguration}
use fty_security_wallet.Secw.Wallet.{
  SecurityWallet, add_missing, wallet_info, load_configuration_file,
}
use fty_security_wallet.Secw.Server.{World}
use fty_security_wallet.Secw.Srr.Wallet.{get_srr_save_data}
use fty_security_wallet.Secw.Srr.Wallet.RoundTrip.{restore_srr_data-get_srr_save_data}
use fty_security_wallet.Secw.Srr.Requests.{
  Status, success, FeatureAndStatus, active_version, saved, save_text, save_feature, save_features,
  handle_save, restore_text, restore_feature, restore_features, handle_restore,
}

-- The reply of a save that succeeded.
abbrev pub reply : String → FeatureAndStatus
reply text = record {
  feature = record { version = active_version; content = text };
  status = success;
}

module _ ⦃e : External⦄ ⦃o : Openssl⦄ (laws : Laws) (openssl_laws : OpensslLaws) where
  open e use {to_json, to_json_beautified}
  open laws use {of_json-to_json}

  saved-eq-ok : (r : Result Exn String) (text : String) → saved r ≡ ok (reply text) → r ≡ ok text
  saved-eq-ok (ok t) text h = cc h
  saved-eq-ok (err x) text h = absurd (cc (ap status_of h))
    where
      status_of : Result Exn FeatureAndStatus → Status
      status_of (ok f) = f.status
      status_of _ = success
  saved-eq-ok hang text h = absurd (cc h)

  -- A save request for a wallet of sound portfolios that succeeds, and then a restore request with
  -- what it replied, with the same passphrase and on the same platform, where the configuration
  -- loads, the text of the wallet can be made and the file can be written: the restore succeeds,
  -- from any state of the server. In memory the portfolios are those of the save, with each document
  -- marked as having its private data, and an empty one behind them for each configuration that has
  -- none; the file holds the text of the portfolios of the save.
  pub handle_restore-handle_save :
      (writable : IsWritable) (release key data_text text : String) (w : SecurityWallet) (n m : ℕ)
      (configuration : Option String) (configs : StringMap PortfolioConfiguration)
      (left : SecurityWallet) (s : World)
      → All IsSound w.portfolios
      → handle_save release key w ("security-wallet" ∷ []) n
        ≡ (ok (("security-wallet", reply data_text) ∷ []), m)
      → load_configuration_file configuration ≡ ok configs
      → to_json_beautified (wallet_info w.portfolios) ≡ returns text
      → handle_restore configuration left release key
          (("security-wallet", (reply data_text).feature) ∷ [])
          s
        ≡ (
          ok (("security-wallet", success) ∷ []),
          record s {
            wallet = record {
              configurations = configs;
              portfolios = add_missing (StringMap.keys configs) (map mark_portfolio w.portfolios);
            };
            database = some text;
          },
        )
  unfolding handle_save save_features save_feature handle_restore restore_features restore_feature
      restore_text save_text deserialize StringMap.insert
  handle_restore-handle_save writable release key data_text text w n m configuration configs left s
        sound h configured written =
      let (response, made, h1) =
        continue-eq-ok (saved (save_text release key w n).0) _ (save_text release key w n).1 h in
      let replied : response ≡ reply data_text = cc (ap (λ r. r.0) h1) in
      let texted =
        saved-eq-ok (save_text release key w n).0 data_text (made ∙ ap (λ f. ok f) replied) in
      let n1 = (get_srr_save_data release key w n).1 in
      let (si, got, h2) =
        continue-eq-ok (get_srr_save_data release key w n).0 (λ si. lift (serialize si)) n1
          (λ i. (texted i, (save_text release key w n).1)) in
      let json = serialize-eq-ok si data_text (ap (λ r. r.0) h2) in
      rw (of_json-to_json si json) (
        rw
          (restore_srr_data-get_srr_save_data laws openssl_laws writable release key text
            (mark_wallet w) n n1 si configuration configs left s
            (mark_portfolio-AreHeld w.portfolios sound)
            (ap (λ save. save n) (get_srr_save_data-mark_wallet key release w) ∙ (λ i. (got i, n1)))
            configured
            (ap (λ si. to_json_beautified si) (wallet_info-mark_portfolio w.portfolios) ∙ written))
          refl)
