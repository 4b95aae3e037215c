-- ===== src/Tests/Loading.antt =====
-- A wallet that is loaded from a configuration file, with no database file yet.
use fty_security_wallet.Base.{true, some, none, [], ◌∷◌, ok, ◌≡◌, refl}
use fty_security_wallet.Base.StringSet
use fty_security_wallet.Base.StringMap
use fty_security_wallet.External.{External}
use fty_security_wallet.Secw.Portfolio.{Portfolio, new_portfolio}
use fty_security_wallet.Secw.Configuration.{
  union, read_usage, read_client, read_all, read_member, usages_by_id, all_types,
  read_configuration,
}
use fty_security_wallet.Secw.Wallet.{
  SecurityWallet, get_portfolio, find_portfolio, add_missing, is_empty_map, load_configurations,
  load_configuration_file, load_database_file, reload,
}
use fty_security_wallet.Secw.Wallet.Loading.{get_portfolio-reload}
use fty_security_wallet.Tests.Tree.{Tree, nothing, member, element, label, texts, host}
use fty_security_wallet.Tests.World.{default_configuration}

abbrev client_tree : Tree
client_tree =
    member "usages" (texts ("monitoring" ∷ [])) (member "client_regex" (label "alice") nothing)

abbrev usage_tree : Tree
usage_tree =
    member "supported_types" (texts ("Snmpv1" ∷ []))
      (member "usage_id" (label "monitoring") nothing)

abbrev pub configuration_tree : Tree
configuration_tree =
    element
      (member "producers" (element client_tree nothing) (
        member "consumers" (element client_tree nothing) (
          member "usages" (element usage_tree nothing)
            (member "portfolio_name" (label "default") nothing))))
      nothing

instance abbrev configured_host : External
configured_host = host ((configuration_tree, "configuration") ∷ [])

abbrev loaded : SecurityWallet
loaded = record {
  configurations = ("default", default_configuration) ∷ [];
  portfolios = new_portfolio "default" ∷ [];
}

loads : reload (some "configuration") none ≡ ok loaded
unfolding reload load_configuration_file load_configurations load_database_file is_empty_map
    add_missing find_portfolio read_configuration read_member read_all read_usage read_client
    usages_by_id all_types union StringSet.of_list StringSet.insert StringMap.member
    StringMap.insert StringMap.lookup StringMap.keys
loads = refl

configured : StringMap.member "default" loaded.configurations ≡ true
unfolding StringMap.member
configured = refl

get_portfolio-reload_example : (p : Portfolio) × (get_portfolio "default" loaded ≡ ok p)
get_portfolio-reload_example =
    get_portfolio-reload (some "configuration") none loaded "default" loads configured
