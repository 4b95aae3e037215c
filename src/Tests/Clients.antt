-- ===== src/Tests/Clients.antt =====
-- The wallet's clients, with the server at the other end, on one document.
use fty_security_wallet.Base.{
  String, true, false, Bool, not, List, [], ◌∷◌, returns, ok, err, some, ◌≡◌, refl,
}
use fty_security_wallet.Base.StringMap
use fty_security_wallet.Base.StringSet
use fty_security_wallet.External.{External}
use fty_security_wallet.External.Laws.{Laws}
use fty_security_wallet.Secw.Error.{
  SecwException, secw, document_do_not_exist, error_info, error_code, what_arg, extra_data,
  to_json_payload,
}
use fty_security_wallet.Secw.Document.{
  Document, info_with_secret, info_without_secret, header_info, is_non_secret_equals,
  is_secret_equals, compare_secrets,
}
use fty_security_wallet.Secw.Document.Views.{public_view}
use fty_security_wallet.Secw.Body.{public_info, private_info, type_of}
use fty_security_wallet.Secw.Document.RoundTrip.{IsOrdered}
use fty_security_wallet.Secw.Portfolio.{Portfolio, get_document}
use fty_security_wallet.Secw.Server.{World}
use fty_security_wallet.Secw.Configuration.{
  union, is_matching_client, usage_ids_for, get_usage_ids_for_consumer,
}
use fty_security_wallet.Secw.Helpers.{serialize, has_common_usage_ids}
use fty_security_wallet.Secw.Wallet.{get_configuration, get_portfolio}
use fty_security_wallet.Secw.Server.Reads.{handle_get_document_with_secret}
use fty_security_wallet.Secw.Server.Requests.{handle_request}
use fty_security_wallet.Secw.Server.Notifications.{update_message}
use fty_security_wallet.Secw.Client.{
  get_document_with_private_data, get_document_without_private_data,
}
use fty_security_wallet.Secw.Client.Service.{
  get_document_with_private_data-refused, get_document_with_private_data-stored,
  get_document_without_private_data-stored,
}
use fty_security_wallet.Secw.Client.Callbacks.{
  Listener, updated, callback_handler, callback_handler-update_message,
}
use fty_security_wallet.Tests.Tree.{Tree, nothing, member, label, flag, host, host-Laws}
use fty_security_wallet.Tests.World.{router, default_configuration, default_portfolio, world}

abbrev renamed : Document
renamed = record router { name = "gateway" }

abbrev missing : SecwException
missing = document_do_not_exist "9" "Document '9'does not exist"

abbrev update_tree : Tree
update_tree = member "secret_changed" (flag false) (
    member "non_secret_changed" (flag false) (
      member "new_data" (info_without_secret ⦃e = host []⦄ renamed) (
        member "old_data" (info_without_secret ⦃e = host []⦄ router)
          (member "portfolio" (label "default") (member "action" (label "UPDATED") nothing)))))

abbrev texts : List (Tree × String)
texts =
    (info_with_secret ⦃e = host []⦄ router, "router")
    ∷ (info_without_secret ⦃e = host []⦄ router, "public router")
    ∷ (error_info ⦃e = host []⦄ missing, "missing")
    ∷ (update_tree, "update")
    ∷ (member "secw_doc_public" (public_info ⦃e = host []⦄ router.body) nothing, "public part")
    ∷ (member "secw_doc_private" (private_info ⦃e = host []⦄ router.body) nothing, "private part")
    ∷ []

instance abbrev client_host : External
client_host = host texts

laws : Laws ⦃e = client_host⦄
laws = host-Laws texts (refl, (refl, (refl, (refl, (refl, (refl, tt)))))) ("no tree", refl)

router-IsOrdered : IsOrdered router
router-IsOrdered = record { tags_sorted = tt; usages_sorted = tt }

renamed-IsOrdered : IsOrdered renamed
renamed-IsOrdered = record { tags_sorted = tt; usages_sorted = tt }

configured : get_configuration "default" world.wallet ≡ ok default_configuration
unfolding get_configuration StringMap.lookup
configured = refl

rights : get_usage_ids_for_consumer "alice" default_configuration ≡ ok ("monitoring" ∷ [])
unfolding get_usage_ids_for_consumer usage_ids_for is_matching_client union StringSet.insert
rights = refl

opened : get_portfolio "default" world.wallet ≡ ok default_portfolio
unfolding get_portfolio
opened = refl

found : get_document "1" default_portfolio ≡ ok router
unfolding get_document StringMap.lookup
found = refl

common : has_common_usage_ids ("monitoring" ∷ []) router.usages ≡ true
unfolding has_common_usage_ids StringSet.contains
common = refl

written : client_host.to_json (info_with_secret router) ≡ returns "router"
unfolding info_with_secret header_info public_info private_info type_of
written = refl

written_public : client_host.to_json (info_without_secret router) ≡ returns "public router"
unfolding info_with_secret info_without_secret header_info public_info private_info type_of
written_public = refl

-- the document as a create without private data leaves it
abbrev unmarked : Document
unmarked = record router { contain_private_data = false }

abbrev portfolio_unmarked : Portfolio
portfolio_unmarked = record default_portfolio {
  documents = ("1", unmarked) ∷ [];
  map_name_documents = ("router", unmarked) ∷ [];
}

abbrev world_unmarked : World
world_unmarked = record world {
  wallet = record world.wallet { portfolios = portfolio_unmarked ∷ [] };
}

configured_unmarked : get_configuration "default" world_unmarked.wallet ≡ ok default_configuration
unfolding get_configuration StringMap.lookup
configured_unmarked = refl

written_unmarked : client_host.to_json (info_with_secret unmarked) ≡ returns "router"
unfolding info_with_secret header_info public_info private_info type_of
written_unmarked = refl

unmarked-IsOrdered : IsOrdered unmarked
unmarked-IsOrdered = record { tags_sorted = tt; usages_sorted = tt }

opened_unmarked : get_portfolio "default" world_unmarked.wallet ≡ ok portfolio_unmarked
unfolding get_portfolio
opened_unmarked = refl

found_unmarked : get_document "1" portfolio_unmarked ≡ ok unmarked
unfolding get_document StringMap.lookup
found_unmarked = refl

get_document_with_private_data-stored_example :
    get_document_with_private_data (ok []) (handle_request "alice") "default" "1" world_unmarked
    ≡ (ok (record unmarked { contain_private_data = true }), world_unmarked)
get_document_with_private_data-stored_example =
    get_document_with_private_data-stored laws (ok []) "alice" "default" "1" "router"
      default_configuration ("monitoring" ∷ []) portfolio_unmarked unmarked world_unmarked
      configured_unmarked rights opened_unmarked found_unmarked common unmarked-IsOrdered
      written_unmarked

get_document_without_private_data-stored_example :
    get_document_without_private_data (ok []) (handle_request "bob") "default" "1" world
    ≡ (ok (public_view router), world)
get_document_without_private_data-stored_example =
    get_document_without_private_data-stored laws (ok []) "bob" "default" "1" "public router"
      default_portfolio router world opened found router-IsOrdered written_public

refused :
    handle_get_document_with_secret world.wallet "alice" ("default" ∷ "9" ∷ []) ≡ err (secw missing)
unfolding handle_get_document_with_secret get_configuration StringMap.lookup
    get_usage_ids_for_consumer usage_ids_for is_matching_client union StringSet.insert get_portfolio
    get_document
refused = refl

payload : to_json_payload missing ≡ returns "missing"
unfolding to_json_payload error_info error_code what_arg extra_data info_with_secret header_info
    public_info private_info type_of info_without_secret
payload = refl

get_document_with_private_data-refused_example :
    get_document_with_private_data (ok []) (handle_request "alice") "default" "9" world
    ≡ (err (secw missing), world)
get_document_with_private_data-refused_example =
    get_document_with_private_data-refused laws (ok []) "alice" "default" "9" "missing" missing
      world tt refused payload

abbrev listener : Listener
listener = record {
  has_stream = true;
  created_callback = false;
  updated_callback = true;
  deleted_callback = false;
  started_callback = false;
  is_registered = true;
}

announced : update_message "default" router renamed ≡ ok "update"
unfolding update_message is_non_secret_equals is_secret_equals compare_secrets info_with_secret
    info_without_secret header_info error_info public_info private_info type_of serialize
announced = refl

callback_handler-update_message_example :
    (same_public : Bool) × (same_secret : Bool) × (is_non_secret_equals renamed router
      ≡ ok same_public)
    × (is_secret_equals renamed router ≡ ok same_secret)
    × (callback_handler listener ("update" ∷ [])
        ≡ some (
            updated "default"
              (public_view router)
              (public_view renamed)
              (not same_public)
              (not same_secret)))
callback_handler-update_message_example =
    callback_handler-update_message laws listener "default" "update" router renamed refl
      router-IsOrdered renamed-IsOrdered announced
