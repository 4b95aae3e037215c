-- ===== src/Tests/Components.antt =====
-- The bodies, documents, portfolios, configurations, the wallet and the exceptions on concrete
-- values.
use fty_security_wallet.Base.{
  String, true, false, none, [], ◌∷◌, returns, ok, err, ◌≡◌, ◌↔◌, ◌⊎◌, refl, if◌then◌else◌, not,
}
use fty_security_wallet.Base.StringSet
use fty_security_wallet.Base.StringMap
use fty_security_wallet.External.{External}
use fty_security_wallet.External.Laws.{Laws}
use fty_security_wallet.Secw.Error.{
  SecwException, secw, unknown_portfolio, to_json_payload, throw_secw_exception, error_info,
  error_code, what_arg, extra_data, throw_name_already_exists,
}
use fty_security_wallet.Secw.Error.RoundTrip.{throw_secw_exception-to_json_payload}
use fty_security_wallet.Secw.Body.{user_and_password}
use fty_security_wallet.Secw.Body.Validation.{validate_body}
use fty_security_wallet.Secw.Body.Usable.{IsUsable, validate_body_iff}
use fty_security_wallet.Secw.Document.{Document, read_document, info_without_secret}
use fty_security_wallet.Secw.Document.Views.{public_view}
use fty_security_wallet.Secw.Document.RoundTrip.{IsOrdered, read_document-info_without_secret}
use fty_security_wallet.Secw.Portfolio
use fty_security_wallet.Secw.Portfolio.{
  Portfolio, new_portfolio, store, replace, fresh_id, add_with,
}
use fty_security_wallet.Secw.Portfolio.Effects.{IsAdded, add-IsAdded, add_total}
use fty_security_wallet.Secw.Helpers.{has_common_usage_ids, has_common_usage_ids_iff}
use fty_security_wallet.Secw.Configuration.{
  union, is_matching_client, usage_ids_for, get_usage_ids_for_consumer,
  difference_between_2_usages_id_set,
}
use fty_security_wallet.Secw.Configuration.Rights.{
  grants, contains-difference_between_2_usages_id_set, contains-get_usage_ids_for_consumer,
}
use fty_security_wallet.Tests.Tree.{
  Tree, nothing, member, label, number, host, host-Laws, letters_injective,
}
use fty_security_wallet.Tests.World.{router, default_configuration, default_portfolio}

-- what the tests of exceptions send
abbrev unknown : SecwException
unknown = unknown_portfolio "printers" "?"

abbrev unknown_tree : Tree
unknown_tree =
    member "extraData" (member "portfolioName" (label "printers") nothing)
      (member "whatArg" (label "?") (member "errorCode" (number 5) nothing))

instance abbrev error_host : External
error_host = host ((unknown_tree, "unknown portfolio") ∷ [])

laws : Laws ⦃e = error_host⦄
laws = host-Laws ((unknown_tree, "unknown portfolio") ∷ []) (refl, tt) ("no tree", refl)

payload : to_json_payload unknown ≡ returns "unknown portfolio"
unfolding to_json_payload error_info error_code what_arg extra_data
payload = refl

throw_secw_exception-to_json_payload_example :
    throw_secw_exception "unknown portfolio" ≡ secw unknown
throw_secw_exception-to_json_payload_example =
    throw_secw_exception-to_json_payload laws unknown "unknown portfolio" tt payload

validate_body_iff_example :
    (validate_body true (user_and_password "root" "toor") ≡ ok tt)
    ↔ IsUsable (user_and_password "root" "toor")
validate_body_iff_example = validate_body_iff (user_and_password "root" "toor")

router-IsOrdered : IsOrdered router
router-IsOrdered = record { tags_sorted = tt; usages_sorted = tt }

read_document-info_without_secret_example :
    read_document none (info_without_secret router) ≡ ok (public_view router)
read_document-info_without_secret_example =
    read_document-info_without_secret laws router router-IsOrdered

abbrev gateway : Document
gateway = record router { name = "gateway" }

adds : (Portfolio.add gateway (default_portfolio, 1)).0 ≡ ok "u"
unfolding Portfolio.add add_with fresh_id StringMap.member
adds = refl

add-IsAdded_example :
    IsAdded gateway default_portfolio 1 "u" (Portfolio.add gateway (default_portfolio, 1)).1.0
add-IsAdded_example = add-IsAdded gateway default_portfolio 1 "u" adds

add_total_example :
    ((StringMap.member "gateway" default_portfolio.map_name_documents ≡ true)
      × ((Portfolio.add gateway (default_portfolio, 1)).0
          ≡ err (throw_name_already_exists "gateway")))
    ⊎ ((StringMap.member "gateway" default_portfolio.map_name_documents ≡ false)
        × ((id : String) × ((Portfolio.add gateway (default_portfolio, 1)).0 ≡ ok id)))
add_total_example = add_total gateway default_portfolio 1 letters_injective

has_common_usage_ids_iff_example : (has_common_usage_ids ("a" ∷ "b" ∷ []) ("b" ∷ []) ≡ true) ↔ (
    (u : String) × (StringSet.contains u ("a" ∷ "b" ∷ []) ≡ true)
    × (StringSet.contains u ("b" ∷ []) ≡ true))
has_common_usage_ids_iff_example = has_common_usage_ids_iff ("a" ∷ "b" ∷ []) ("b" ∷ [])

contains-difference_between_2_usages_id_set_example :
    StringSet.contains "a" (difference_between_2_usages_id_set ("a" ∷ "b" ∷ []) ("b" ∷ [])) ≡ (
      if StringSet.contains "a" ("a" ∷ "b" ∷ [])
      then not (StringSet.contains "a" ("b" ∷ []))
      else StringSet.contains "a" ("b" ∷ []))
contains-difference_between_2_usages_id_set_example =
    contains-difference_between_2_usages_id_set "a" ("a" ∷ "b" ∷ []) ("b" ∷ [])

consumes : get_usage_ids_for_consumer "alice" default_configuration ≡ ok ("monitoring" ∷ [])
unfolding get_usage_ids_for_consumer usage_ids_for is_matching_client union StringSet.insert
consumes = refl

contains-get_usage_ids_for_consumer_example :
    StringSet.contains "monitoring" ("monitoring" ∷ [])
    ≡ grants "alice" "monitoring" default_configuration.consumers
contains-get_usage_ids_for_consumer_example =
    contains-get_usage_ids_for_consumer "alice" "monitoring" default_configuration
      ("monitoring" ∷ []) consumes
