-- ===== src/Tests/Wallet.antt =====
-- A document, written to a text and read back.
use fty_security_wallet.Base.{true, none, List, String, [], ◌∷◌, ok, ◌≡◌, refl}
use fty_security_wallet.External.{External}
use fty_security_wallet.External.Laws.{Laws}
use fty_security_wallet.Secw.Document.{info_with_secret, validate}
use fty_security_wallet.Secw.Body.{type_of, public_info, private_info}
use fty_security_wallet.Secw.Document.Text.{
  print_document, parse_document, parse_document-print_document,
}
use fty_security_wallet.Secw.Body.Validation.{validate_body}
use fty_security_wallet.Secw.Portfolio.RoundTrip.{IsWhole}
use fty_security_wallet.Secw.Wallet.{wallet_info}
use fty_security_wallet.Tests.Tree.{Tree, host, host-Laws}
use fty_security_wallet.Tests.World.{router, default_portfolio}
use fty_security_wallet.Tests.Loading.{configuration_tree}

abbrev wallet_tree : Tree
wallet_tree = wallet_info ⦃e = host []⦄ (default_portfolio ∷ [])

abbrev router_tree : Tree
router_tree = info_with_secret ⦃e = host []⦄ router

abbrev known : List (Tree × String)
known =
    (configuration_tree, "configuration")
    ∷ (wallet_tree, "the portfolios")
    ∷ (router_tree, "the router")
    ∷ []

instance abbrev written_host : External
written_host = host known

laws : Laws ⦃e = written_host⦄
laws = host-Laws known (refl, (refl, (refl, tt))) ("no tree", refl)

pub router-IsWhole : IsWhole router
unfolding validate validate_body
router-IsWhole = record {
  ordered = record { tags_sorted = tt; usages_sorted = tt };
  has_private = refl;
  valid = refl;
}

prints : print_document router ≡ ok "the router"
unfolding print_document info_with_secret public_info private_info type_of wallet_info
prints = refl

parse_document-print_document_example :
    parse_document none "the router" ≡ ok (record router { contain_private_data = true })
parse_document-print_document_example =
    parse_document-print_document laws router "the router" router-IsWhole.ordered prints
