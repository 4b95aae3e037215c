-- ===== src/Tests/Restart.antt =====
-- A server that deletes a document, saves and restarts.
use fty_security_wallet.Base.{
  String, some, List, [], ◌∷◌, map, ok, err, throws, ◌⊎◌, ◌≡◌, ◌∙◌, ap, returns, refl,
}
use fty_security_wallet.Base.StringSet
use fty_security_wallet.Base.StringMap
use fty_security_wallet.External.{External}
use fty_security_wallet.External.Laws.{Laws}
use fty_security_wallet.Secw.Error.{standard}
use fty_security_wallet.Secw.Document.{info_with_secret}
use fty_security_wallet.Secw.Body.{type_of, public_info, private_info}
use fty_security_wallet.Secw.Portfolio
use fty_security_wallet.Secw.Portfolio.{
  Portfolio, new_portfolio, store, get_document, get_list_documents, portfolio_info, load_portfolio,
}
use fty_security_wallet.Secw.Portfolio.Marking.{mark_portfolio}
use fty_security_wallet.Secw.Configuration.{
  union, is_matching_client, usage_ids_for, get_usage_ids_for_producer, read_usage, read_client,
  read_all, read_member, usages_by_id, all_types, read_configuration,
}
use fty_security_wallet.Secw.Wallet.{
  add_missing, wallet_info, get_configuration, find_portfolio, get_portfolio, put_portfolio,
  load_configurations, load_configuration_file, reload,
}
use fty_security_wallet.Secw.Server.{World}
use fty_security_wallet.Secw.Server.Rights.{check_usages, producer_usages}
use fty_security_wallet.Secw.Helpers.{serialize}
use fty_security_wallet.Secw.Server.Notifications.{send_notification_on_delete}
use fty_security_wallet.Secw.Server.Writes.{
  set_portfolio, change_portfolio, serialized, write_database, save, handle_delete,
}
use fty_security_wallet.Secw.Server.Requests.{
  command_of, run_command, run_named, replying, handle_request,
}
use fty_security_wallet.Secw.Server.Invariant.{serve}
use fty_security_wallet.Secw.Server.Restart.{reload-save, reload-serve}
use fty_security_wallet.Tests.Tree.{Tree, host, host-Laws, host-IsWritable}
use fty_security_wallet.Tests.World.{
  default_configuration, default_portfolio, world, default-IsSound,
}
use fty_security_wallet.Tests.Loading.{configuration_tree}

abbrev known : List (Tree × String)
known =
    (configuration_tree, "configuration")
    ∷ (wallet_info ⦃e = host []⦄ (new_portfolio "default" ∷ []), "no documents")
    ∷ (wallet_info ⦃e = host []⦄ (default_portfolio ∷ []), "the portfolios")
    ∷ []

instance abbrev restart_host : External
restart_host = host known

laws : Laws ⦃e = restart_host⦄
laws = host-Laws known (refl, (refl, (refl, tt))) ("no tree", refl)

abbrev requests : List (String × List String)
requests = ("alice", "DELETE" ∷ "default" ∷ "1" ∷ []) ∷ []

abbrev saved : World
saved = record (serve requests world) { database = some "no documents" }

deletes : (serve requests world).wallet.portfolios ≡ new_portfolio "default" ∷ []
unfolding serve handle_request command_of run_named run_command replying handle_delete
    change_portfolio set_portfolio put_portfolio save write_database new_portfolio Portfolio.remove
    StringMap.lookup StringMap.erase producer_usages get_configuration get_usage_ids_for_producer
    usage_ids_for is_matching_client union StringSet.insert StringSet.contains get_portfolio
    find_portfolio get_document check_usages wallet_info portfolio_info get_list_documents
    StringMap.values send_notification_on_delete serialize
deletes = refl

prints :
    restart_host.to_json_beautified (wallet_info (new_portfolio "default" ∷ []))
    ≡ returns "no documents"
unfolding wallet_info portfolio_info get_list_documents StringMap.values new_portfolio
prints = refl

saves : save (serve requests world) ≡ (ok tt, saved)
unfolding save write_database
saves =
    let printed = ap (λ ps. restart_host.to_json_beautified (wallet_info ps)) deletes ∙ prints in
    rw (printed, serialized) refl

configured :
    load_configuration_file (some "configuration") ≡ ok (("default", default_configuration) ∷ [])
unfolding load_configuration_file load_configurations read_configuration read_member read_all
    read_usage read_client usages_by_id all_types union StringSet.of_list StringSet.insert
    StringMap.member StringMap.insert
configured = refl

reload-serve_example :
    reload (some "configuration") saved.database
    ≡ ok (record {
      configurations = ("default", default_configuration) ∷ [];
      portfolios =
          add_missing
            (StringMap.keys (("default", default_configuration) ∷ []))
            (map mark_portfolio (serve requests world).wallet.portfolios);
    })
reload-serve_example =
    reload-serve laws (host-IsWritable known) requests world saved (some "configuration")
      (("default", default_configuration) ∷ []) (default-IsSound restart_host, tt) saves configured

reload-save_example :
    ((save world).1.wallet ≡ world.wallet)
    × ((((save world).0 ≡ ok tt)
          × (reload (some "configuration") (save world).1.database
              ≡ ok (record {
                configurations = ("default", default_configuration) ∷ [];
                portfolios =
                    add_missing
                      (StringMap.keys (("default", default_configuration) ∷ []))
                      (map mark_portfolio world.wallet.portfolios);
              })))
        ⊎ ((message : String) × (restart_host.to_json_beautified
                (wallet_info world.wallet.portfolios)
              ≡ throws message)
            × ((save world).0 ≡ err (standard message))))
reload-save_example =
    reload-save laws (host-IsWritable known) world (some "configuration")
      (("default", default_configuration) ∷ []) (default-IsSound restart_host, tt) configured

-- the save of that example returns
saves_world : (save world).0 ≡ ok tt
unfolding save write_database wallet_info portfolio_info get_list_documents StringMap.values
    info_with_secret private_info public_info type_of new_portfolio
saves_world = refl
