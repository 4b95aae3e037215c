-- ===== src/Secw/Server/Secrecy.antt =====
-- What the server answers to the commands that leave secrets out does not depend on the secrets
-- (lib/src/secw_security_wallet_server.cc).
use mathlib.Core.Option
use fty_security_wallet.Base.{
  String, Bool, true, false, some, List, [], ◌∷◌, map, select, Result, ok, err, hang, ◌>>=◌,
  throw_if, ◌≡◌, refl, sym, ap, ◌∙◌, ◌==◌, ◌||◌, ◌&&◌, not, is_empty, Bool-cases, Option-cases, inl,
  inr,
}
use fty_security_wallet.Base.StringSet
use fty_security_wallet.Base.StringSet.{StringSet}
use fty_security_wallet.External.{External}
use fty_security_wallet.Secw.Error.{Exn}
use fty_security_wallet.Secw.Document.{Document, info_without_secret}
use fty_security_wallet.Secw.Document.Views.{public_view}
use fty_security_wallet.Secw.Helpers.{serialize, has_common_usage_ids}
use fty_security_wallet.Secw.Configuration.{get_all_usage_id}
use fty_security_wallet.Secw.Portfolio.{
  Portfolio, get_document, get_document_by_name, get_list_documents,
}
use fty_security_wallet.Secw.Portfolio.Secrecy.{
  hide_portfolio, get_document-hide_portfolio, get_document_by_name-hide_portfolio,
  get_list_documents-hide_portfolio, select-map, info_without_secret-public_view,
  map_info-public_view,
}
use fty_security_wallet.Secw.Wallet.{
  SecurityWallet, get_configuration, get_portfolio, find_portfolio, get_portfolio_names,
}
use fty_security_wallet.Secw.Server.{World, has_none}
use fty_security_wallet.Secw.Server.Reads.{
  handle_get_list_portfolio, handle_get_consumer_usages, handle_get_producer_usages,
  handle_get_document_without_secret, handle_get_document_without_secret_by_name,
  shown_without_secret, serialize_list_documents_public, handle_get_list_documents_without_secret,
  usage_parameter,
}
use fty_security_wallet.Secw.Server.Requests.{
  Command, command_of, run_command, run_named, replying, reply_of, handle_request,
}

-- the wallet without the secrets of its documents
abbrev pub hide : SecurityWallet → SecurityWallet
hide w = record w { portfolios = map hide_portfolio w.portfolios }

-- The commands that neither answer with secrets nor change the wallet.
abbrev pub is_public : Command → Bool
is_public Command.get_portfolio_list = true
is_public Command.get_consumer_usages = true
is_public Command.get_producer_usages = true
is_public Command.get_list_without_secret = true
is_public Command.get_without_secret = true
is_public Command.get_without_secret_by_name = true
is_public _ = false

find_portfolio-map :
    (name : String) (ps : List Portfolio)
    → find_portfolio name (map hide_portfolio ps)
      ≡ Option.map hide_portfolio (find_portfolio name ps)
unfolding find_portfolio
find_portfolio-map name [] = refl
find_portfolio-map name (p ∷ ps) = elim (Bool-cases (p.name == name)) [
  | inl here ↦ rw here refl
  | inr later ↦ rw later (find_portfolio-map name ps)
]

get_portfolio-hide :
    (name : String) (w : SecurityWallet)
    → get_portfolio name (hide w) ≡ (get_portfolio name w >>= λ p. ok (hide_portfolio p))
unfolding get_portfolio
get_portfolio-hide name w = elim (Option-cases (find_portfolio name w.portfolios)) [
  | inl absent ↦
      rw (find_portfolio-map name w.portfolios, get_portfolio) (rw (absent, get_portfolio) refl)
  | inr (p, there) ↦
      rw (find_portfolio-map name w.portfolios, get_portfolio) (rw (there, get_portfolio) refl)
]

-- Steps behind a value that is looked up with and without secrets.
behind :
    {A B : Type 0} (f : A → A) (r s : Result Exn A) (k l : A → Result Exn B)
    → r ≡ (s >>= λ a. ok (f a))
    → ((a : A) → k (f a) ≡ l a)
    → (r >>= k) ≡ (s >>= l)
behind f r (ok a) k l h same = ap (λ t. t >>= k) h ∙ same a
behind f r (err x) k l h same = ap (λ t. t >>= k) h
behind f r hang k l h same = ap (λ t. t >>= k) h

after :
    {A B : Type 0} (r : Result Exn A) (k l : A → Result Exn B)
    → ((a : A) → k a ≡ l a)
    → (r >>= k) ≡ (r >>= l)
after (ok a) k l same = same a
after (err x) k l same = refl
after hang k l same = refl

module _ ⦃e : External⦄ where
  open e use {of_elements}

  handle_get_document_without_secret-hide :
      (w : SecurityWallet) (sender : String) (params : List String)
      → handle_get_document_without_secret (hide w) sender params
        ≡ handle_get_document_without_secret w sender params
  unfolding handle_get_document_without_secret
  handle_get_document_without_secret-hide w sender (name ∷ id ∷ []) =
      behind hide_portfolio (get_portfolio name (hide w)) (get_portfolio name w) _ _
        (get_portfolio-hide name w)
        λ p.
          behind public_view (get_document id (hide_portfolio p)) (get_document id p) _ _
            (get_document-hide_portfolio id p)
            λ doc. ap (λ si. serialize si) (info_without_secret-public_view doc)
  handle_get_document_without_secret-hide w sender [] = refl
  handle_get_document_without_secret-hide w sender (x ∷ []) = refl
  handle_get_document_without_secret-hide w sender (x ∷ y ∷ z ∷ rest) = refl

  handle_get_document_without_secret_by_name-hide :
      (w : SecurityWallet) (sender : String) (params : List String)
      → handle_get_document_without_secret_by_name (hide w) sender params
        ≡ handle_get_document_without_secret_by_name w sender params
  unfolding handle_get_document_without_secret_by_name
  handle_get_document_without_secret_by_name-hide w sender (name ∷ doc_name ∷ []) =
      behind hide_portfolio (get_portfolio name (hide w)) (get_portfolio name w) _ _
        (get_portfolio-hide name w)
        λ p.
          behind public_view (get_document_by_name doc_name (hide_portfolio p))
            (get_document_by_name doc_name p) _ _ (get_document_by_name-hide_portfolio doc_name p)
            λ doc. ap (λ si. serialize si) (info_without_secret-public_view doc)
  handle_get_document_without_secret_by_name-hide w sender [] = refl
  handle_get_document_without_secret_by_name-hide w sender (x ∷ []) = refl
  handle_get_document_without_secret_by_name-hide w sender (x ∷ y ∷ z ∷ rest) = refl

  shown_lem :
      (usages : StringSet) (p : Portfolio)
      → map info_without_secret
          (shown_without_secret usages (get_list_documents (hide_portfolio p)))
        ≡ map info_without_secret (shown_without_secret usages (get_list_documents p))
  unfolding shown_without_secret
  shown_lem usages p =
      let shown : Document → Bool =
        λ doc. has_none usages || has_common_usage_ids doc.usages usages in
      ap (λ docs. map info_without_secret (select shown docs)) (get_list_documents-hide_portfolio p)
      ∙ ap (λ docs. map info_without_secret docs)
          (select-map public_view shown shown (get_list_documents p) (λ doc. refl))
      ∙ map_info-public_view (select shown (get_list_documents p))

  serialize_list_documents_public-hide :
      (w : SecurityWallet) (name : String) (usages : StringSet)
      → serialize_list_documents_public (hide w) name usages
        ≡ serialize_list_documents_public w name usages
  unfolding serialize_list_documents_public
  serialize_list_documents_public-hide w name usages =
      behind hide_portfolio (get_portfolio name (hide w)) (get_portfolio name w) _ _
        (get_portfolio-hide name w) λ p. ap (λ l. serialize (of_elements l)) (shown_lem usages p)

  handle_get_list_documents_without_secret-hide :
      (w : SecurityWallet) (sender : String) (params : List String)
      → handle_get_list_documents_without_secret (hide w) sender params
        ≡ handle_get_list_documents_without_secret w sender params
  unfolding handle_get_list_documents_without_secret get_configuration
  handle_get_list_documents_without_secret-hide w sender [] = refl
  handle_get_list_documents_without_secret-hide w sender (name ∷ rest) =
      after (get_configuration name w) _ _ λ config.
        after
          (throw_if
            (not (is_empty (usage_parameter rest))
              && not (StringSet.contains (usage_parameter rest) (get_all_usage_id config)))
            _)
          _ _ λ _. serialize_list_documents_public-hide w name _

  handle_get_list_portfolio-hide :
      (w : SecurityWallet) (sender : String) (params : List String)
      → handle_get_list_portfolio (hide w) sender params ≡ handle_get_list_portfolio w sender params
  unfolding handle_get_list_portfolio get_portfolio_names
  handle_get_list_portfolio-hide w sender params = refl

  handle_get_consumer_usages-hide :
      (w : SecurityWallet) (sender : String) (params : List String)
      → handle_get_consumer_usages (hide w) sender params
        ≡ handle_get_consumer_usages w sender params
  unfolding handle_get_consumer_usages get_configuration
  handle_get_consumer_usages-hide w sender (name ∷ []) = refl
  handle_get_consumer_usages-hide w sender [] = refl
  handle_get_consumer_usages-hide w sender (x ∷ y ∷ rest) = refl

  handle_get_producer_usages-hide :
      (w : SecurityWallet) (sender : String) (params : List String)
      → handle_get_producer_usages (hide w) sender params
        ≡ handle_get_producer_usages w sender params
  unfolding handle_get_producer_usages get_configuration
  handle_get_producer_usages-hide w sender (name ∷ []) = refl
  handle_get_producer_usages-hide w sender [] = refl
  handle_get_producer_usages-hide w sender (x ∷ y ∷ rest) = refl

  module _ (sender : String) (params : List String) (s t : World)
      (hidden : hide s.wallet ≡ hide t.wallet) where
    -- A handler that answers alike with and without secrets, on two wallets that agree without.
    one_answer :
        (handler : SecurityWallet → String → List String → Result Exn String)
        → ((w : SecurityWallet) → handler (hide w) sender params ≡ handler w sender params)
        → handler s.wallet sender params ≡ handler t.wallet sender params
    one_answer handler same =
        sym (same s.wallet) ∙ ap (λ w. handler w sender params) hidden ∙ same t.wallet

    run_command-hide :
        (command : Command)
        → is_public command ≡ true
        → (run_command command sender params s).0 ≡ (run_command command sender params t).0
    unfolding run_command
    run_command-hide Command.get_portfolio_list h =
        one_answer handle_get_list_portfolio λ w. handle_get_list_portfolio-hide w sender params
    run_command-hide Command.get_consumer_usages h =
        one_answer handle_get_consumer_usages λ w. handle_get_consumer_usages-hide w sender params
    run_command-hide Command.get_producer_usages h =
        one_answer handle_get_producer_usages λ w. handle_get_producer_usages-hide w sender params
    run_command-hide Command.get_list_without_secret h =
        one_answer handle_get_list_documents_without_secret
          λ w. handle_get_list_documents_without_secret-hide w sender params
    run_command-hide Command.get_without_secret h =
        one_answer handle_get_document_without_secret
          λ w. handle_get_document_without_secret-hide w sender params
    run_command-hide Command.get_without_secret_by_name h =
        one_answer handle_get_document_without_secret_by_name
          λ w. handle_get_document_without_secret_by_name-hide w sender params
    run_command-hide _ h = absurd (cc h)

    -- Two servers whose wallets agree but for the secrets of the documents, and for whether these
    -- have private data, give one reply to a command that leaves secrets out, whoever sends it and
    -- whatever it throws.
    pub handle_request-hide :
        (cmd : String) (command : Command)
        → command_of cmd ≡ some command
        → is_public command ≡ true
        → (handle_request sender (cmd ∷ params) s).0 ≡ (handle_request sender (cmd ∷ params) t).0
    unfolding handle_request run_named replying
    handle_request-hide cmd command known h = elim (Bool-cases (cmd == "ERROR" || cmd == "OK")) [
      | inl acknowledged ↦ rw acknowledged refl
      | inr request ↦ rw request (rw known (ap (λ r. reply_of r) (run_command-hide command h)))
    ]
