-- ===== src/Secw/Server/Restart.antt =====
-- What a restart brings back of a server (lib/src/secw_security_wallet_server.cc,
-- lib/src/secw_security_wallet.cc).
use fty_security_wallet.Base.{
  String, Option, List, [], ◌∷◌, map, All, Attempt-cases, returns, throws, ok, err, ◌⊎◌, ◌≡◌, refl,
  sym, ap, ◌∙◌, inl, inr,
}
use fty_security_wallet.Base.StringMap
use fty_security_wallet.Base.StringMap.{StringMap}
use fty_security_wallet.External.{External}
use fty_security_wallet.External.Laws.{Laws, IsWritable}
use fty_security_wallet.Secw.Error.{standard}
use fty_security_wallet.Secw.Portfolio.{Portfolio}
use fty_security_wallet.Secw.Portfolio.Marking.{
  mark_portfolio, mark_portfolio-IsHeld, map_info-mark_portfolio,
}
use fty_security_wallet.Secw.Portfolio.RoundTrip.{IsHeld}
use fty_security_wallet.Secw.Portfolio.Soundness.{IsSound}
use fty_security_wallet.Secw.Configuration.{PortfolioConfiguration}
use fty_security_wallet.Secw.Wallet.{add_missing, wallet_info, load_configuration_file, reload}
use fty_security_wallet.Secw.Wallet.RoundTrip.{reload-wallet_info}
use fty_security_wallet.Secw.Server.{World}
use fty_security_wallet.Secw.Server.Invariant.{AreSound, serve, serve-AreSound}
use fty_security_wallet.Secw.Server.Writes.{save, serialized, write_database}

module _ ⦃e : External⦄ where
  open e use {to_json_beautified, write_file}

  pub mark_portfolio-AreHeld :
      (ps : List Portfolio) → All IsSound ps → All IsHeld (map mark_portfolio ps)
  mark_portfolio-AreHeld [] sound = tt
  mark_portfolio-AreHeld (p ∷ ps) (sound, rest) =
      (mark_portfolio-IsHeld p sound, mark_portfolio-AreHeld ps rest)

  pub wallet_info-mark_portfolio :
      (ps : List Portfolio) → wallet_info (map mark_portfolio ps) ≡ wallet_info ps
  unfolding wallet_info
  wallet_info-mark_portfolio ps = rw (map_info-mark_portfolio ps, wallet_info) refl

  -- What a reload makes of the file that the text of sound portfolios was written to.
  reload_written :
      (laws : Laws) (writable : IsWritable) (before configuration : Option String)
      (configs : StringMap PortfolioConfiguration) (ps : List Portfolio) (text : String)
      → All IsSound ps
      → to_json_beautified (wallet_info ps) ≡ returns text
      → load_configuration_file configuration ≡ ok configs
      → reload configuration (write_file before (wallet_info ps))
        ≡ ok (record {
          configurations = configs;
          portfolios = add_missing (StringMap.keys configs) (map mark_portfolio ps);
        })
  reload_written laws writable before configuration configs ps text sound written configured =
      ap (λ d. reload configuration d) (writable before (wallet_info ps) text written)
      ∙ reload-wallet_info laws configuration configs (map mark_portfolio ps) text configured
          (mark_portfolio-AreHeld ps sound)
          (ap (λ si. to_json_beautified si) (wallet_info-mark_portfolio ps) ∙ written)

  -- A save of sound portfolios leaves the wallet as it is. Either it returns, and a reload of the
  -- file, if that can be written, brings every portfolio back with all its documents, each marked as
  -- having its private data, and an empty portfolio behind them for each configuration that has
  -- none; or the serializer throws, and that is what the save throws.
  pub reload-save :
      (laws : Laws) (writable : IsWritable) (s : World) (configuration : Option String)
      (configs : StringMap PortfolioConfiguration)
      → AreSound s
      → load_configuration_file configuration ≡ ok configs
      → ((save s).1.wallet ≡ s.wallet)
        × ((((save s).0 ≡ ok tt)
              × (reload configuration (save s).1.database
                  ≡ ok (record {
                    configurations = configs;
                    portfolios =
                        add_missing
                          (StringMap.keys configs)
                          (map mark_portfolio s.wallet.portfolios);
                  })))
            ⊎ ((message : String) × (to_json_beautified (wallet_info s.wallet.portfolios)
                  ≡ throws message)
                × ((save s).0 ≡ err (standard message))))
  unfolding save write_database
  reload-save laws writable s configuration configs sound configured = (
    refl,
    elim (Attempt-cases (to_json_beautified (wallet_info s.wallet.portfolios))) [
      | inl (text, written) ↦ inl (
        rw (written, serialized) refl,
        reload_written laws writable s.database configuration configs s.wallet.portfolios text sound
            written configured,
      )
      | inr (message, broken) ↦ inr (message, broken, rw (broken, serialized) refl)
    ],
  )

  -- A server whose portfolios are sound answers any requests, from any senders, and saves its
  -- wallet, into a file that can be written. A reload of the file that the save left brings every
  -- portfolio back with all its documents, each marked as having its private data, and an empty
  -- portfolio behind them for each configuration that has none.
  pub reload-serve :
      (laws : Laws) (writable : IsWritable) (requests : List (String × List String)) (s t : World)
      (configuration : Option String) (configs : StringMap PortfolioConfiguration)
      → AreSound s
      → save (serve requests s) ≡ (ok tt, t)
      → load_configuration_file configuration ≡ ok configs
      → reload configuration t.database
        ≡ ok (record {
          configurations = configs;
          portfolios =
              add_missing
                (StringMap.keys configs)
                (map mark_portfolio (serve requests s).wallet.portfolios);
        })
  reload-serve laws writable requests s t configuration configs sound saved configured =
      let (_, outcome) =
        reload-save laws writable (serve requests s) configuration configs
          (serve-AreSound requests s sound) configured in
      elim outcome [
        | inl (_, reloaded) ↦ ap (λ r. reload configuration r.1.database) (sym saved) ∙ reloaded
        | inr (message, _, thrown) ↦ absurd (cc (ap (λ r. r.0) saved, thrown))
      ]
