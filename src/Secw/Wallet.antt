-- ===== src/Secw/Wallet.antt =====
-- Class `SecurityWallet` (lib/src/secw_security_wallet.h, lib/src/secw_security_wallet.cc): the
-- configurations and the portfolios. A file is the text that it holds, `none` if it does not exist.
pub mod Loading
pub mod Lookup
pub mod RoundTrip
use fty_security_wallet.Base.{
  ℕ, String, ◌^^◌, Option, some, none, List, [], ◌∷◌, ◌++◌, map, Bool, true, false, Attempt, Result,
  ok, err, hang, ◌>>=◌, ◌>>◌, or_throw, throw_if, eqb, ◌==◌, if◌then◌else◌,
}
use fty_security_wallet.Base.StringMap
use fty_security_wallet.Base.StringMap.{StringMap}
use fty_security_wallet.External.{External, read_byte}
use fty_security_wallet.Secw.Error.{Exn, standard, throw_unknown_portfolio}
use fty_security_wallet.Secw.Portfolio.{Portfolio, new_portfolio, load_portfolio, portfolio_info}
use fty_security_wallet.Secw.Configuration.{PortfolioConfiguration, read_configuration, read_all}

pub record SecurityWallet : Type 0 where
  pub configurations : StringMap PortfolioConfiguration
  pub portfolios : List Portfolio

unfoldable pub get_portfolio_names : SecurityWallet → List String
get_portfolio_names w = StringMap.keys w.configurations

unfoldable pub get_configuration : String → SecurityWallet → Result Exn PortfolioConfiguration
get_configuration name w = elim (StringMap.lookup name w.configurations) [
  | none ↦ err (throw_unknown_portfolio name)
  | some config ↦ ok config
]

-- The loop of `getPortfolio`.
unfoldable pub find_portfolio : String → List Portfolio → Option Portfolio
find_portfolio name [] = none
find_portfolio name (p ∷ ps) = if p.name == name then some p else find_portfolio name ps

unfoldable pub get_portfolio : String → SecurityWallet → Result Exn Portfolio
unfolding find_portfolio
get_portfolio name w = elim (find_portfolio name w.portfolios) [
  | none ↦ err (throw_unknown_portfolio name)
  | some p ↦ ok p
]

-- A write through the reference that `getPortfolio(name)` returned.
unfoldable pub put_portfolio : String → Portfolio → List Portfolio → List Portfolio
put_portfolio name q [] = []
put_portfolio name q (p ∷ ps) = if p.name == name then q ∷ ps else p ∷ put_portfolio name q ps

unfoldable pub is_empty_map : StringMap PortfolioConfiguration → Bool
is_empty_map [] = true
is_empty_map (entry ∷ rest) = false

-- a portfolio for every configuration that has none
unfoldable pub add_missing : List String → List Portfolio → List Portfolio
unfolding find_portfolio
add_missing [] portfolios = portfolios
add_missing (name ∷ names) portfolios = elim (find_portfolio name portfolios) [
  | none ↦ add_missing names (portfolios ++ new_portfolio name ∷ [])
  | some _ ↦ add_missing names portfolios
]

module _ ⦃e : External⦄ where
  open e use {Si, empty_si, add_member, get_member, elements, of_elements, of_number, of_json}

  -- What `save` writes.
  unfoldable pub wallet_info : List Portfolio → Si
  wallet_info portfolios =
      add_member "portfolios" (of_elements (map portfolio_info portfolios))
        (add_member "version" (of_number 1) empty_si)

  -- the loop of `reload` over the configurations
  unfoldable pub load_configurations :
      StringMap PortfolioConfiguration → List Si → Result Exn (StringMap PortfolioConfiguration)
  load_configurations configs [] = ok configs
  load_configurations configs (si ∷ rest) = do
    config ← read_configuration si
    throw_if (StringMap.member config.portfolio_name configs) (
        standard
          ("Portfolio " ^^ (config.portfolio_name ^^ " already exist in the configuration.")))
    load_configurations (StringMap.insert config.portfolio_name config configs) rest

  unfoldable pub load_configuration_file :
      Option String → Result Exn (StringMap PortfolioConfiguration)
  unfolding load_configurations is_empty_map
  load_configuration_file none = err (standard "File does not exist!")
  load_configuration_file (some text) = do
    root ← or_throw standard (of_json text)
    configs ← load_configurations [] (elements root)
    throw_if (is_empty_map configs) (standard "No Portfolio in the configuration.")
    ok configs

  -- the element that a method has filled, unless it threw
  abbrev pub filled : Result Exn (Unit {0}) → Portfolio → Result Exn Portfolio
  filled (ok _) p = ok p
  filled (err x) p = err x
  filled hang p = hang

  -- A portfolio of the database, into a `Portfolio()` of a new vector.
  read_portfolio : Si → Result Exn Portfolio
  unfolding new_portfolio
  read_portfolio si = let (r, p) = load_portfolio si (new_portfolio "default") in filled r p

  -- another version is ignored
  load_version : ℕ → Si → Result Exn (List Portfolio)
  unfolding read_portfolio
  load_version version root =
      if eqb version 1
      then (do
        array ← or_throw standard (get_member "portfolios" root)
        read_all read_portfolio (elements array))
      else ok []

  unfoldable pub load_database_file : Option String → Result Exn (List Portfolio)
  unfolding load_version
  load_database_file none = ok []
  load_database_file (some text) = do
    root ← or_throw standard (of_json text)
    version ← or_throw standard (read_byte "version" root)
    load_version version root

  -- `reload`, on the contents of the configuration file and of the database file
  unfoldable pub reload : Option String → Option String → Result Exn SecurityWallet
  unfolding load_configuration_file load_database_file add_missing
  reload configuration database = do
    configs ← load_configuration_file configuration
    portfolios ← load_database_file database
    ok (record {
      configurations = configs;
      portfolios = add_missing (StringMap.keys configs) portfolios;
    })
