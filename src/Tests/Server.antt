-- ===== src/Tests/Server.antt =====
-- Requests to the server of `Tests.World`.
use fty_security_wallet.Base.{some, none, [], ◌∷◌, ok, ◌≡◌, refl, All, map}
use fty_security_wallet.Base.{◌>>=◌ as ◌>>=ᵣ◌}
use fty_security_wallet.Base.StringSet
use fty_security_wallet.Base.StringSet.{StringSet}
use fty_security_wallet.Base.StringMap
use fty_security_wallet.Secw.Body.{
  type_of, factory, public_field, private_field, update_public, update_private,
}
use fty_security_wallet.Secw.Body.Validation.{validate_body}
use fty_security_wallet.Secw.Document.{
  Document, select_document, update_header, fill_private, read_document, validate, info_with_secret,
  is_non_secret_equals, is_secret_equals,
}
use fty_security_wallet.Secw.Portfolio
use fty_security_wallet.Secw.Portfolio.{
  Portfolio, new_portfolio, store, replace, get_document, get_document_by_name, get_list_documents,
  fresh_id, add_with,
}
use fty_security_wallet.Secw.Portfolio.Effects.{IsAdded}
use fty_security_wallet.Secw.Portfolio.Changes.{IsRemoved, IsUpdated}
use fty_security_wallet.Secw.Helpers.{deserialize, serialize, has_common_usage_ids}
use fty_security_wallet.Secw.Configuration.{
  union, is_matching_client, usage_ids_for, get_usage_ids_for_consumer, get_usage_ids_for_producer,
  difference_between_2_usages_id_set, missing_from,
}
use fty_security_wallet.Secw.Wallet.{
  get_configuration, find_portfolio, get_portfolio, put_portfolio,
}
use fty_security_wallet.Secw.Server.{World}
use fty_security_wallet.Secw.Server.Rights.{MayProduce, MayChange, check_usages, producer_usages}
use fty_security_wallet.Secw.Server.Notifications.{
  publish, send_notification_on_create, send_notification_on_delete, send_notification_on_update,
}
use fty_security_wallet.Secw.Server.Reads.{
  handle_get_document_with_secret, handle_get_document_with_secret_by_name,
  handle_get_list_documents_with_secret, shown_with_secret,
}
use fty_security_wallet.Secw.Server.Writes.{
  set_portfolio, change_portfolio, add_to_portfolio, write_database, save, handle_create,
  handle_delete, handle_update,
}
use fty_security_wallet.Secw.Server.Saving.{IsSaved, IsPut}
use fty_security_wallet.Secw.Server.Access.{
  MayConsume, handle_get_document_with_secret_access,
  handle_get_document_with_secret_by_name_access, handle_get_list_documents_with_secret_access,
}
use fty_security_wallet.Secw.Server.Effects.{
  handle_create_effect, handle_delete_effect, handle_update_effect,
}
use fty_security_wallet.Tests.World.{test_host, world}

-- the answer of a deletion
abbrev after_delete : World
after_delete = (handle_delete "alice" ("default" ∷ "1" ∷ []) world).1

deletes : handle_delete "alice" ("default" ∷ "1" ∷ []) world ≡ (ok "OK", after_delete)
unfolding handle_delete change_portfolio set_portfolio save write_database store new_portfolio
    Portfolio.remove StringMap.lookup StringMap.insert StringMap.erase producer_usages
    get_configuration get_usage_ids_for_producer usage_ids_for is_matching_client union
    StringSet.insert StringSet.contains get_portfolio find_portfolio get_document check_usages
    publish send_notification_on_delete serialize
deletes = refl

handle_delete_effect_example :
    (p q : Portfolio) × (doc : Document) × (get_portfolio "default" world.wallet ≡ ok p)
    × (get_document "1" p ≡ ok doc)
    × MayProduce world.wallet "default" "alice" doc.usages
    × IsRemoved "1" doc p q
    × IsSaved "default" q world after_delete
    × IsPut "default" q world after_delete
handle_delete_effect_example =
    handle_delete_effect "alice" "default" "1" [] world after_delete "OK" deletes

abbrev after_create : World
after_create = (handle_create "alice" ("default" ∷ "new" ∷ []) world).1

creates : handle_create "alice" ("default" ∷ "new" ∷ []) world ≡ (ok "u", after_create)
unfolding handle_create producer_usages get_configuration StringMap.lookup
    get_usage_ids_for_producer usage_ids_for is_matching_client union StringSet.insert
    StringSet.contains StringSet.of_list get_portfolio find_portfolio deserialize read_document
    factory type_of select_document update_header fill_private update_public update_private
    public_field private_field validate validate_body check_usages serialize publish save
    write_database set_portfolio put_portfolio get_document store StringMap.member StringMap.insert
    Portfolio.add add_with fresh_id add_to_portfolio send_notification_on_create
creates = refl

handle_create_effect_example :
    (p : Portfolio) × (doc : Document) × (q : Portfolio) × (get_portfolio "default" world.wallet
      ≡ ok p)
    × ((deserialize "new" >>=ᵣ read_document none) ≡ ok doc)
    × (validate doc ≡ ok tt)
    × MayProduce world.wallet "default" "alice" doc.usages
    × IsAdded doc p world.draws "u" q
    × IsSaved "default" q world after_create
    × IsPut "default" q world after_create
handle_create_effect_example =
    handle_create_effect "alice" "default" "new" [] world after_create "u" creates

abbrev after_update : World
after_update = (handle_update "alice" ("default" ∷ "rename" ∷ []) world).1

updates : handle_update "alice" ("default" ∷ "rename" ∷ []) world ≡ (ok "OK", after_update)
unfolding handle_update producer_usages get_configuration StringMap.lookup
    get_usage_ids_for_producer usage_ids_for is_matching_client union StringSet.insert
    StringSet.contains StringSet.of_list get_portfolio find_portfolio deserialize read_document
    factory type_of select_document update_header fill_private update_public update_private
    public_field private_field validate validate_body check_usages serialize publish save
    write_database set_portfolio put_portfolio get_document store StringMap.member StringMap.insert
    Portfolio.update replace StringMap.erase change_portfolio missing_from
    difference_between_2_usages_id_set send_notification_on_update is_non_secret_equals
    is_secret_equals
updates = refl

handle_update_effect_example :
    (p q : Portfolio) × (doc existing updated : Document) × (get_portfolio "default" world.wallet
      ≡ ok p)
    × ((deserialize "rename" >>=ᵣ read_document none) ≡ ok doc)
    × (get_document doc.id p ≡ ok existing)
    × MayChange world.wallet "default" "alice" existing.usages updated.usages
    × ((deserialize "rename" >>=ᵣ read_document (some existing)) ≡ ok updated)
    × (validate updated ≡ ok tt)
    × (updated.id ≡ doc.id)
    × (updated.usages ≡ doc.usages)
    × IsUpdated existing updated p q
    × IsSaved "default" q world after_update
    × IsPut "default" q world after_update
handle_update_effect_example =
    handle_update_effect "alice" "default" "rename" [] world after_update "OK" updates

shows : handle_get_document_with_secret world.wallet "alice" ("default" ∷ "1" ∷ []) ≡ ok "{}"
unfolding handle_get_document_with_secret get_configuration StringMap.lookup
    get_usage_ids_for_consumer StringSet.insert StringSet.contains get_portfolio serialize
    get_document has_common_usage_ids
shows = refl

handle_get_document_with_secret_access_example :
    (portfolio : Portfolio) × (doc : Document) × (get_portfolio "default" world.wallet
      ≡ ok portfolio)
    × (get_document "1" portfolio ≡ ok doc)
    × (serialize (info_with_secret doc) ≡ ok "{}")
    × MayConsume world.wallet "default" "alice" doc
handle_get_document_with_secret_access_example =
    handle_get_document_with_secret_access world.wallet "alice" "default" "1" "{}" shows

shows_by_name :
    handle_get_document_with_secret_by_name world.wallet "alice" ("default" ∷ "router" ∷ [])
    ≡ ok "{}"
unfolding handle_get_document_with_secret_by_name get_configuration StringMap.lookup
    get_usage_ids_for_consumer StringSet.insert StringSet.contains get_portfolio serialize
    get_document_by_name has_common_usage_ids
shows_by_name = refl

handle_get_document_with_secret_by_name_access_example :
    (portfolio : Portfolio) × (doc : Document) × (get_portfolio "default" world.wallet
      ≡ ok portfolio)
    × (get_document_by_name "router" portfolio ≡ ok doc)
    × (serialize (info_with_secret doc) ≡ ok "{}")
    × MayConsume world.wallet "default" "alice" doc
handle_get_document_with_secret_by_name_access_example =
    handle_get_document_with_secret_by_name_access world.wallet "alice" "default" "router" "{}"
      shows_by_name

lists :
    handle_get_list_documents_with_secret world.wallet "alice" ("default" ∷ "monitoring" ∷ [])
    ≡ ok "{}"
unfolding handle_get_list_documents_with_secret get_configuration StringMap.lookup
    get_usage_ids_for_consumer StringSet.insert StringSet.contains get_portfolio serialize
lists = refl

handle_get_list_documents_with_secret_access_example :
    (portfolio : Portfolio) × (usages : StringSet) × (get_portfolio "default" world.wallet
      ≡ ok portfolio)
    × (serialize (
          test_host.of_elements
            (map info_with_secret (shown_with_secret usages (get_list_documents portfolio))))
        ≡ ok "{}")
    × All
        (MayConsume world.wallet "default" "alice")
        (shown_with_secret usages (get_list_documents portfolio))
handle_get_list_documents_with_secret_access_example =
    handle_get_list_documents_with_secret_access world.wallet "alice" "default" "{}"
      ("monitoring" ∷ []) lists
