-- ===== src/Secw/Wallet/RoundTrip.antt =====
-- A wallet that is read from its own text (lib/src/secw_security_wallet.cc).
use fty_security_wallet.Base.{
  String, some, Option, List, [], ◌∷◌, map, All, returns, ok, ◌≡◌, refl, ap, arith,
}
use fty_security_wallet.Base.StringMap
use fty_security_wallet.Base.StringMap.{StringMap}
use fty_security_wallet.External.{External}
use fty_security_wallet.External.Laws.{Laws}
use fty_security_wallet.Secw.Portfolio.{Portfolio, new_portfolio, portfolio_info}
use fty_security_wallet.Secw.Portfolio.RoundTrip.{IsHeld, load_portfolio-portfolio_info}
use fty_security_wallet.Secw.Configuration.{PortfolioConfiguration, read_all}
use fty_security_wallet.Secw.Wallet.{
  wallet_info, add_missing, filled, read_portfolio, load_version, load_database_file,
  load_configuration_file, reload,
}

module _ ⦃e : External⦄ (laws : Laws) where
  open e use {to_json_beautified}
  open laws use {
    find_member-empty, find_member-add, get_member_lem, to_byte-of_number, elements-of_elements,
    of_json-to_json_beautified,
  }

  read_portfolio_lem : (p : Portfolio) → IsHeld p → read_portfolio (portfolio_info p) ≡ ok p
  unfolding read_portfolio
  read_portfolio_lem p held =
      ap (λ r. filled r.0 r.1) (load_portfolio-portfolio_info laws p (new_portfolio "default") held)

  read_all-map :
      (ps : List Portfolio)
      → All IsHeld ps
      → read_all read_portfolio (map portfolio_info ps) ≡ ok ps
  unfolding read_all
  read_all-map [] held = refl
  read_all-map (p ∷ ps) held = rw (read_portfolio_lem p held.0) (rw (read_all-map ps held.1) refl)

  load_database_file-wallet_info :
      (ps : List Portfolio) (text : String)
      → All IsHeld ps
      → to_json_beautified (wallet_info ps) ≡ returns text
      → load_database_file (some text) ≡ ok ps
  unfolding load_database_file load_version wallet_info
  load_database_file-wallet_info ps text held written =
      rw (of_json-to_json_beautified (wallet_info ps) written) (
        simp (
          get_member_lem,
          find_member-add,
          find_member-empty,
          to_byte-of_number 1 (omega arith),
          elements-of_elements,
          read_all-map ps held,
          load_version,
        ))

  -- The text of portfolios whose documents are marked as having their private data, `reload` reads
  -- back: the portfolios are the same, with an empty one behind them for each configuration that has
  -- none.
  pub reload-wallet_info :
      (configuration : Option String) (configs : StringMap PortfolioConfiguration)
      (ps : List Portfolio) (text : String)
      → load_configuration_file configuration ≡ ok configs
      → All IsHeld ps
      → to_json_beautified (wallet_info ps) ≡ returns text
      → reload configuration (some text)
        ≡ ok (record {
          configurations = configs;
          portfolios = add_missing (StringMap.keys configs) ps;
        })
  unfolding reload
  reload-wallet_info configuration configs ps text configured held written =
      rw configured (rw (load_database_file-wallet_info ps text held written) refl)
