-- ===== src/Tests/Invariants.antt =====
-- What the server keeps and what it keeps to itself, on concrete values.
use fty_security_wallet.Base.{String, some, List, [], ◌∷◌, ◌≡◌, refl}
use fty_security_wallet.Base.StringMap
use fty_security_wallet.Secw.Body.{user_and_password}
use fty_security_wallet.Secw.Body.Validation.{validate_body}
use fty_security_wallet.Secw.Document.{Document, validate}
use fty_security_wallet.Secw.Portfolio.{Portfolio, new_portfolio, store, get_list_documents}
use fty_security_wallet.Secw.Portfolio.Consistency.{new_portfolio-IsConsistent, store-IsConsistent}
use fty_security_wallet.Secw.Portfolio.Soundness.{IsSound}
use fty_security_wallet.Secw.Server.{World}
use fty_security_wallet.Secw.Server.Requests.{Command, command_of, handle_request}
use fty_security_wallet.Secw.Server.Invariant.{AreSound, serve, serve-AreSound}
use fty_security_wallet.Secw.Server.Secrecy.{handle_request-hide}
use fty_security_wallet.Tests.World.{test_host, router, default_portfolio, world}

default-IsSound : IsSound default_portfolio
unfolding StringMap.lookup StringMap.insert StringMap.values store new_portfolio get_list_documents
    validate validate_body
default-IsSound = record {
  in_order = record { documents = (tt, tt); names = (tt, tt) };
  consistent =
      store-IsConsistent router (new_portfolio "default") (new_portfolio-IsConsistent "default")
        refl refl;
  fit = (record { ordered = record { tags_sorted = tt; usages_sorted = tt }; valid = refl }, tt);
}

abbrev requests : List (String × List String)
requests =
    ("alice", "CREATE" ∷ "default" ∷ "new" ∷ [])
    ∷ ("bob", "DELETE" ∷ "default" ∷ "1" ∷ [])
    ∷ ("alice", "DELETE" ∷ "default" ∷ "1" ∷ [])
    ∷ []

serve-AreSound_example : AreSound (serve requests world)
serve-AreSound_example = serve-AreSound requests world (default-IsSound, tt)

-- an account, and a portfolio and a server that hold it
abbrev account : String → Document
account password = record router { name = "root"; body = user_and_password "root" password }

abbrev accounts : String → Portfolio
accounts password = record {
  name = "default";
  documents = ("1", account password) ∷ [];
  map_name_documents = ("root", account password) ∷ [];
}

abbrev server_of : String → World
server_of password = record world {
  wallet = record world.wallet { portfolios = accounts password ∷ [] };
}

knows_command : command_of "GET_WITHOUT_SECRET" ≡ some Command.get_without_secret
unfolding command_of
knows_command = refl

handle_request-hide_example :
    (handle_request "bob" ("GET_WITHOUT_SECRET" ∷ "default" ∷ "1" ∷ []) (server_of "toor")).0
    ≡ (handle_request "bob" ("GET_WITHOUT_SECRET" ∷ "default" ∷ "1" ∷ []) (server_of "swordfish")).0
handle_request-hide_example =
    handle_request-hide "bob" ("default" ∷ "1" ∷ []) (server_of "toor") (server_of "swordfish") refl
      "GET_WITHOUT_SECRET" Command.get_without_secret knows_command refl
