-- ===== src/Tests/World.antt =====
-- A server with one portfolio that holds one document.
use fty_security_wallet.Base.{
  String, true, some, none, [], ◌∷◌, Attempt, returns, refl, if◌then◌else◌, ◌==◌,
}
use fty_security_wallet.External.{External}
use fty_security_wallet.Secw.Body.{snmpv1}
use fty_security_wallet.Base.StringMap
use fty_security_wallet.Secw.Document.{Document, validate}
use fty_security_wallet.Secw.Body.Validation.{validate_body}
use fty_security_wallet.Secw.Portfolio.{Portfolio, new_portfolio, store, get_list_documents}
use fty_security_wallet.Secw.Portfolio.Consistency.{new_portfolio-IsConsistent, store-IsConsistent}
use fty_security_wallet.Secw.Portfolio.Soundness.{IsSound}
use fty_security_wallet.Secw.Configuration.{Client, PortfolioConfiguration}
use fty_security_wallet.Secw.Server.{World}
use fty_security_wallet.Tests.Tree.{Tree, nothing, member, label, texts, host}

-- what a client sends: a document of SNMPv1 with an identifier and a name
abbrev pub sent : String → String → Tree
sent id name =
    member "secw_doc_public" (member "secw_snmpv1_community_name" (label "public") nothing) (
      member "secw_doc_usages" (texts ("monitoring" ∷ [])) (
        member "secw_doc_tags" (texts []) (
          member "secw_doc_type" (label "Snmpv1")
            (member "secw_doc_name" (label name) (member "secw_doc_id" (label id) nothing)))))

-- every tree has the same text here, and two texts are documents
abbrev pub parse_sent : String → Attempt Tree
parse_sent text = if text == "new" then returns (sent "" "switch") else returns (sent "1" "gateway")

instance abbrev pub test_host : External
test_host = record (host []) {
  to_json = λ si. returns "{}";
  to_json_beautified = λ si. returns "{}";
  of_json = parse_sent;
  write_file = λ before si. some "{}";
}

abbrev pub router : Document
router = record {
  name = "router";
  id = "1";
  tags = [];
  usages = "monitoring" ∷ [];
  contain_private_data = true;
  body = snmpv1 "public";
}

abbrev pub operator : Client
operator = record { client_regex = "alice"; usages = "monitoring" ∷ [] }

abbrev pub default_configuration : PortfolioConfiguration
default_configuration = record {
  portfolio_name = "default";
  usages = ("monitoring", record { usage_id = "monitoring"; types = "Snmpv1" ∷ [] }) ∷ [];
  supported_types = "Snmpv1" ∷ [];
  consumers = operator ∷ [];
  producers = operator ∷ [];
}

abbrev pub default_portfolio : Portfolio
default_portfolio = record {
  name = "default";
  documents = ("1", router) ∷ [];
  map_name_documents = ("router", router) ∷ [];
}

abbrev pub world : World
world = record {
  wallet = record {
    configurations = ("default", default_configuration) ∷ [];
    portfolios = default_portfolio ∷ [];
  };
  database = none;
  published = [];
  draws = 1;
}

pub default-IsSound : (e : External) → IsSound ⦃e = e⦄ default_portfolio
unfolding StringMap.lookup StringMap.insert StringMap.values store new_portfolio get_list_documents
    validate validate_body
default-IsSound e = record {
  in_order = record { documents = (tt, tt); names = (tt, tt) };
  consistent =
      store-IsConsistent router (new_portfolio "default") (new_portfolio-IsConsistent "default")
        refl refl;
  fit = (record { ordered = record { tags_sorted = tt; usages_sorted = tt }; valid = refl }, tt);
}
