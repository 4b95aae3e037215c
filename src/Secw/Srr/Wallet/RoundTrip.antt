-- ===== src/Secw/Srr/Wallet/RoundTrip.antt =====
-- A restore brings back what was saved (lib/src/secw_security_wallet.cc).
use Prim.Native.String.{len}
use fty_security_wallet.Base.{
  ℕ, String, Bool, true, false, Option, some, List, [], ◌∷◌, map, All, returns, ok, ◌≡◌, refl, sym,
  ap, ◌∙◌, is_empty, ltb, ◌==◌, eq_iff, eq_refl, Bool-cases, inl, inr, ok-injective,
}
use fty_security_wallet.Base.Exec.{continue-eq-ok, pure}
use fty_security_wallet.Base.StringMap
use fty_security_wallet.Base.StringMap.{StringMap}
use fty_security_wallet.External.{External}
use fty_security_wallet.External.Laws.{Laws, IsWritable}
use fty_security_wallet.External.Openssl.{Openssl, OpensslLaws}
use fty_security_wallet.Secw.Portfolio.{Portfolio, new_portfolio, get_list_documents}
use fty_security_wallet.Secw.Portfolio.Rebuilding.{store_all}
use fty_security_wallet.Secw.Portfolio.RoundTrip.{IsHeld}
use fty_security_wallet.Secw.OpensslWrapper.{encrypt, decrypt}
use fty_security_wallet.Secw.OpensslWrapper.RoundTrip.{decrypt-encrypt_ok}
use fty_security_wallet.Secw.Configuration.{PortfolioConfiguration, read_all}
use fty_security_wallet.Secw.Wallet.{
  SecurityWallet, add_missing, filled, wallet_info, load_configuration_file,
}
use fty_security_wallet.Secw.Wallet.RoundTrip.{reload-wallet_info}
use fty_security_wallet.Secw.Server.{World}
use fty_security_wallet.Secw.Server.Writes.{save, serialized, write_database}
use fty_security_wallet.Secw.Srr.Portfolios.{portfolio_srr_info}
use fty_security_wallet.Secw.Srr.Portfolios.RoundTrip.{
  restored, load_portfolio_from_srr-whole, restored_portfolio,
}
use fty_security_wallet.Secw.Srr.Checks.{
  get_hardware_uuid, restore_portfolio, check_save, saved_portfolios,
}
use fty_security_wallet.Secw.Srr.Wallet.{
  reload_files, portfolio_srr_infos, save_node, get_srr_save_data, restore_srr_data,
}

-- What a portfolio comes back as, on the platform of the save or on another.
abbrev pub on_platform : Bool → Portfolio → Portfolio
on_platform is_same_platform p =
    store_all (restored is_same_platform (get_list_documents p)) (new_portfolio p.name)

module _ ⦃e : External⦄ ⦃o : Openssl⦄ (laws : Laws) (openssl_laws : OpensslLaws) where
  open e use {Si, to_json_beautified}
  open laws use {
    find_member-empty, find_member-add, get_member_lem, to_string-of_string, elements-of_elements,
  }

  -- The tests pass on what was saved with the passphrase.
  check_save-save_node :
      (release check platform passphrase uuid saved_uuid : String) (sis : List Si)
      → ltb (len passphrase) 8 ≡ false
      → decrypt check passphrase ≡ ok passphrase
      → decrypt platform passphrase ≡ ok saved_uuid
      → get_hardware_uuid release ≡ ok uuid
      → check_save release (save_node check platform sis) passphrase "1.0" ≡ ok (uuid == saved_uuid)
  unfolding check_save
  check_save-save_node release check platform passphrase uuid saved_uuid sis long opened closed
        here =
      simp (
        get_member_lem,
        find_member-add,
        find_member-empty,
        to_string-of_string,
        long,
        opened,
        closed,
        here,
        eq_refl passphrase,
      )

  module _ (key : String) (key_there : is_empty key ≡ false) where
    restore_portfolio_lem :
        (is_same_platform : Bool) (p : Portfolio) (n m : ℕ) (si : Si)
        → IsHeld p
        → portfolio_srr_info p key n ≡ (ok si, m)
        → restore_portfolio key is_same_platform si ≡ ok (on_platform is_same_platform p)
    unfolding restore_portfolio
    restore_portfolio_lem is_same_platform p n m si held h =
        ap (λ r. filled r.0 r.1)
          (load_portfolio_from_srr-whole laws openssl_laws key key_there is_same_platform p
            (new_portfolio "default") n m si held h)

    read_all-portfolio_srr_infos :
        (is_same_platform : Bool) (ps : List Portfolio) (n m : ℕ) (sis : List Si)
        → All IsHeld ps
        → portfolio_srr_infos ps key n ≡ (ok sis, m)
        → read_all (restore_portfolio key is_same_platform) sis
          ≡ ok (map (on_platform is_same_platform) ps)
    unfolding read_all portfolio_srr_infos
    read_all-portfolio_srr_infos is_same_platform [] n m sis held h =
        ap (λ l. read_all (restore_portfolio key is_same_platform) l)
          (sym (ok-injective (ap (λ r. r.0) h)))
    read_all-portfolio_srr_infos is_same_platform (p ∷ ps) n m sis held h =
        let (si, written, h1) = continue-eq-ok (portfolio_srr_info p key n).0 _ _ h in
        let n' = (portfolio_srr_info p key n).1 in
        let (rest, others, h2) =
          continue-eq-ok (portfolio_srr_infos ps key n').0 (λ rest. pure (si ∷ rest))
            (portfolio_srr_infos ps key n').1 h1 in
        ap (λ l. read_all (restore_portfolio key is_same_platform) l)
          (sym (ok-injective (ap (λ r. r.0) h2)))
        ∙ rw (restore_portfolio_lem is_same_platform p n n' si held.0 (λ i. (written i, n'))) (
            rw
              (read_all-portfolio_srr_infos is_same_platform ps n' (portfolio_srr_infos ps key n').1
                rest held.1 (λ i. (others i, (portfolio_srr_infos ps key n').1)))
              refl)

    saved_portfolios-save_node :
        (is_same_platform : Bool) (check platform : String) (ps : List Portfolio) (n m : ℕ)
        (sis : List Si)
        → All IsHeld ps
        → portfolio_srr_infos ps key n ≡ (ok sis, m)
        → saved_portfolios (save_node check platform sis) key is_same_platform
          ≡ ok (map (on_platform is_same_platform) ps)
    unfolding saved_portfolios
    saved_portfolios-save_node is_same_platform check platform ps n m sis held h = simp (
      get_member_lem,
      find_member-add,
      find_member-empty,
      elements-of_elements,
      read_all-portfolio_srr_infos is_same_platform ps n m sis held h,
    )

    map-on_platform : (ps : List Portfolio) → All IsHeld ps → map (on_platform true) ps ≡ ps
    map-on_platform [] held = refl
    map-on_platform (p ∷ ps) held =
        cc (restored_portfolio laws openssl_laws key key_there p held.0, map-on_platform ps held.1)

  long_key : (key : String) → ltb (len key) 8 ≡ false → is_empty key ≡ false
  long_key key long = elim (Bool-cases (is_empty key)) [
    | inr some_key ↦ some_key
    | inl empty ↦ absurd (cc (long, ap (λ t. ltb (len t) 8) ((eq_iff key "").0 empty)))
  ]

  -- the tests and the portfolios, together
  opened :
      (release key : String) (w : SecurityWallet) (n m : ℕ) (si : Si)
      → All IsHeld w.portfolios
      → get_srr_save_data release key w n ≡ (ok si, m)
      → (check_save release si key "1.0" ≡ ok true)
        × (saved_portfolios si key true ≡ ok w.portfolios)
  unfolding get_srr_save_data
  opened release key w n m si held h = elim (Bool-cases (ltb (len key) 8)) [
    | inl short ↦ absurd (cc (ap (λ r. r.0) (rw short at h)))
    | inr long ↦
        let there = long_key key long in
        let (check, checks, h1) = continue-eq-ok (encrypt key key n).0 _ _ (rw long at h) in
        let n1 = (encrypt key key n).1 in
        let (uuid, known, h2) = continue-eq-ok (get_hardware_uuid release) _ n1 h1 in
        let (platform, closes, h3) = continue-eq-ok (encrypt uuid key n1).0 _ _ h2 in
        let n2 = (encrypt uuid key n1).1 in
        let (sis, written, h4) =
          continue-eq-ok (portfolio_srr_infos w.portfolios key n2).0
            (λ sis. pure (save_node check platform sis)) (portfolio_srr_infos w.portfolios key n2).1
            h3 in
        let made : save_node check platform sis ≡ si = ok-injective (ap (λ r. r.0) h4) in
        (
          ap (λ s. check_save release s key "1.0") (sym made)
              ∙ check_save-save_node release check platform key uuid uuid sis long
                  (decrypt-encrypt_ok openssl_laws key key check n checks)
                  (decrypt-encrypt_ok openssl_laws uuid key platform n1 closes) known
              ∙ ap (λ b. ok b) (eq_refl uuid),
          ap (λ s. saved_portfolios s key true) (sym made)
              ∙ saved_portfolios-save_node key there true check platform w.portfolios n2
                  (portfolio_srr_infos w.portfolios key n2).1 sis held
                  (λ i. (written i, (portfolio_srr_infos w.portfolios key n2).1))
              ∙ ap (λ l. ok l) (map-on_platform key there w.portfolios held),
        )
  ]

  -- What a save holds of a wallet whose documents are marked, a restore with the same passphrase on the same platform brings
  -- back, into whatever state of the server: it returns, the portfolios in memory are those of the
  -- save, with an empty one behind them for each configuration that has none, and the file holds
  -- those of the save.
  pub restore_srr_data-get_srr_save_data :
      (writable : IsWritable) (release key text : String) (w : SecurityWallet) (n m : ℕ) (si : Si)
      (configuration : Option String) (configs : StringMap PortfolioConfiguration)
      (left : SecurityWallet) (s : World)
      → All IsHeld w.portfolios
      → get_srr_save_data release key w n ≡ (ok si, m)
      → load_configuration_file configuration ≡ ok configs
      → to_json_beautified (wallet_info w.portfolios) ≡ returns text
      → restore_srr_data configuration left release si key "1.0" s ≡ (
        ok tt,
        record s {
          wallet = record {
            configurations = configs;
            portfolios = add_missing (StringMap.keys configs) w.portfolios;
          };
          database = some text;
        },
      )
  unfolding restore_srr_data reload_files save write_database
  restore_srr_data-get_srr_save_data writable release key text w n m si configuration configs left s
        held h configured written =
      let (passed, found) = opened release key w n m si held h in
      rw passed (
        rw found (
          rw (written, serialized)
            (rw (writable s.database (wallet_info w.portfolios) text written) (
              rw
                (
                  reload-wallet_info laws configuration configs w.portfolios text configured held
                      written,
                  reload_files,
                )
                refl))))
