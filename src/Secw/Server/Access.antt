-- ===== src/Secw/Server/Access.antt =====
-- Who may read secrets: the handlers that disclose private data
-- (lib/src/secw_security_wallet_server.cc).
use fty_security_wallet.Base.{
  String, Bool, true, false, List, [], ◌∷◌, map, select, All, ok, ◌≡◌, refl, ◌&&◌, not, is_empty,
  >>=-eq-ok, guarded-eq-ok, arith, eq_iff, Bool-cases, inl, inr, if◌then◌else◌, ◌∙◌, sym,
}
use fty_security_wallet.Base.StringSet
use fty_security_wallet.Base.StringSet.{StringSet}
use fty_security_wallet.External.{External}
use fty_security_wallet.Secw.Document.{Document, info_with_secret}
use fty_security_wallet.Secw.Portfolio.{
  Portfolio, get_document, get_document_by_name, get_list_documents,
}
use fty_security_wallet.Secw.Helpers.{serialize, has_common_usage_ids, has_common_usage_ids_iff}
use fty_security_wallet.Secw.Configuration.{PortfolioConfiguration, get_usage_ids_for_consumer}
use fty_security_wallet.Secw.Configuration.Rights.{grants, contains-get_usage_ids_for_consumer}
use fty_security_wallet.Secw.Wallet.{SecurityWallet, get_configuration, get_portfolio}
use fty_security_wallet.Secw.Server.Reads.{
  shown_with_secret, usage_parameter, handle_get_document_with_secret,
  handle_get_document_with_secret_by_name, handle_get_list_documents_with_secret,
}
use fty_security_wallet.Secw.Server.{has_none}

not-false : (b : Bool) → not b ≡ false → b ≡ true
not-false true h = refl
not-false false h = cc

All-select {ℓ} : {A : Type ℓ} (p : A → Bool) (l : List A) → All (λ a. p a ≡ true) (select p l)
unfolding select
All-select p [] = tt
All-select p (x ∷ l) = elim (Bool-cases (p x)) [
  | inl yes_p ↦ rw yes_p (yes_p, All-select p l)
  | inr no_p ↦ rw no_p (All-select p l)
]

All-map {ℓ} :
    {A : Type ℓ} {P Q : A → Type 0} (f : (a : A) → P a → Q a) (l : List A) → All P l → All Q l
All-map f [] h = tt
All-map f (x ∷ l) h = (f x h.0, All-map f l h.1)

module _ ⦃e : External⦄ where
  open e use {of_elements}

  -- The configuration of the portfolio lets the consumer have a usage of the document.
  pub record MayConsume (w : SecurityWallet) (portfolio_name sender : String) (doc : Document)
      : Type 0 where
    pub config : PortfolioConfiguration
    pub configured : get_configuration portfolio_name w ≡ ok config
    pub usage : String
    pub granted : grants sender usage config.consumers ≡ true
    pub of_document : StringSet.contains usage doc.usages ≡ true

  may_consume :
      (w : SecurityWallet) (portfolio_name sender : String) (doc : Document)
      (config : PortfolioConfiguration) (allowed : StringSet)
      → get_configuration portfolio_name w ≡ ok config
      → get_usage_ids_for_consumer sender config ≡ ok allowed
      → has_common_usage_ids allowed doc.usages ≡ true
      → MayConsume w portfolio_name sender doc
  may_consume w portfolio_name sender doc config allowed known rights common =
      let (u, mine, its) = (has_common_usage_ids_iff allowed doc.usages).0 common in
      record {
        config = config;
        configured = known;
        usage = u;
        granted = sym (contains-get_usage_ids_for_consumer sender u config allowed rights) ∙ mine;
        of_document = its;
      }

  -- A document with its secrets is answered only to a consumer that the configuration of the
  -- portfolio grants one of the usages of the document, and the answer is the document of that id
  -- in that portfolio.
  pub handle_get_document_with_secret_access :
      (w : SecurityWallet) (sender portfolio_name id text : String)
      → handle_get_document_with_secret w sender (portfolio_name ∷ id ∷ []) ≡ ok text
      → (portfolio : Portfolio) × (doc : Document) × (get_portfolio portfolio_name w ≡ ok portfolio)
        × (get_document id portfolio ≡ ok doc)
        × (serialize (info_with_secret doc) ≡ ok text)
        × MayConsume w portfolio_name sender doc
  unfolding handle_get_document_with_secret
  handle_get_document_with_secret_access w sender portfolio_name id text h =
      let (config, known, h1) = >>=-eq-ok (get_configuration portfolio_name w) _ h in
      let (allowed, rights, h2) = >>=-eq-ok (get_usage_ids_for_consumer sender config) _ h1 in
      let (_, h3) = guarded-eq-ok (has_none allowed) _ _ h2 in
      let (portfolio, found, h4) = >>=-eq-ok (get_portfolio portfolio_name w) _ h3 in
      let (doc, there, h5) = >>=-eq-ok (get_document id portfolio) _ h4 in
      let (common, h6) = guarded-eq-ok (not (has_common_usage_ids allowed doc.usages)) _ _ h5 in
      (
        portfolio,
        doc,
        found,
        there,
        h6,
        may_consume w portfolio_name sender doc config allowed known rights (not-false _ common),
      )

  -- A document with its secrets, asked for by its name, is answered only to a consumer that the
  -- configuration of the portfolio grants one of the usages of the document, and the answer is the
  -- document of that name in that portfolio.
  pub handle_get_document_with_secret_by_name_access :
      (w : SecurityWallet) (sender portfolio_name name text : String)
      → handle_get_document_with_secret_by_name w sender (portfolio_name ∷ name ∷ []) ≡ ok text
      → (portfolio : Portfolio) × (doc : Document) × (get_portfolio portfolio_name w ≡ ok portfolio)
        × (get_document_by_name name portfolio ≡ ok doc)
        × (serialize (info_with_secret doc) ≡ ok text)
        × MayConsume w portfolio_name sender doc
  unfolding handle_get_document_with_secret_by_name
  handle_get_document_with_secret_by_name_access w sender portfolio_name name text h =
      let (config, known, h1) = >>=-eq-ok (get_configuration portfolio_name w) _ h in
      let (allowed, rights, h2) = >>=-eq-ok (get_usage_ids_for_consumer sender config) _ h1 in
      let (_, h3) = guarded-eq-ok (has_none allowed) _ _ h2 in
      let (portfolio, found, h4) = >>=-eq-ok (get_portfolio portfolio_name w) _ h3 in
      let (doc, there, h5) = >>=-eq-ok (get_document_by_name name portfolio) _ h4 in
      let (common, h6) = guarded-eq-ok (not (has_common_usage_ids allowed doc.usages)) _ _ h5 in
      (
        portfolio,
        doc,
        found,
        there,
        h6,
        may_consume w portfolio_name sender doc config allowed known rights (not-false _ common),
      )

  -- The usages by which a list is filtered are rights of the sender.
  chosen_usages :
      (usage u : String) (allowed : StringSet)
      → (not (is_empty usage) && not (StringSet.contains usage allowed)) ≡ false
      → StringSet.contains u (if is_empty usage then allowed else usage ∷ []) ≡ true
      → StringSet.contains u allowed ≡ true
  unfolding StringSet.contains
  chosen_usages usage u allowed may h = ground (arith, eq_iff usage u)

  disclosed :
      (w : SecurityWallet) (portfolio_name sender usage : String) (config : PortfolioConfiguration)
      (allowed : StringSet)
      → get_configuration portfolio_name w ≡ ok config
      → get_usage_ids_for_consumer sender config ≡ ok allowed
      → (not (is_empty usage) && not (StringSet.contains usage allowed)) ≡ false
      → (doc : Document)
      → has_common_usage_ids doc.usages (if is_empty usage then allowed else usage ∷ []) ≡ true
      → MayConsume w portfolio_name sender doc
  disclosed w portfolio_name sender usage config allowed known rights may doc h =
      let (u, its, chosen) = (has_common_usage_ids_iff doc.usages _).0 h in
      may_consume w portfolio_name sender doc config allowed known rights (
        (has_common_usage_ids_iff allowed doc.usages).1
          (u, chosen_usages usage u allowed may chosen, its))

  -- A list of documents with their secrets holds documents of the portfolio only, and of these only
  -- such as the configuration grants the consumer one of the usages of.
  pub handle_get_list_documents_with_secret_access :
      (w : SecurityWallet) (sender portfolio_name text : String) (rest : List String)
      → handle_get_list_documents_with_secret w sender (portfolio_name ∷ rest) ≡ ok text
      → (portfolio : Portfolio) × (usages : StringSet) × (get_portfolio portfolio_name w
          ≡ ok portfolio)
        × (serialize (
              of_elements
                (map info_with_secret (shown_with_secret usages (get_list_documents portfolio))))
            ≡ ok text)
        × All
            (MayConsume w portfolio_name sender)
            (shown_with_secret usages (get_list_documents portfolio))
  unfolding handle_get_list_documents_with_secret shown_with_secret
  handle_get_list_documents_with_secret_access w sender portfolio_name text rest h =
      let (config, known, h1) = >>=-eq-ok (get_configuration portfolio_name w) _ h in
      let (allowed, rights, h2) = >>=-eq-ok (get_usage_ids_for_consumer sender config) _ h1 in
      let (_, h3) = guarded-eq-ok (has_none allowed) _ _ h2 in
      let usage = usage_parameter rest in
      let (may, h4) =
        guarded-eq-ok (not (is_empty usage) && not (StringSet.contains usage allowed)) _ _ h3 in
      let (portfolio, found, h5) = >>=-eq-ok (get_portfolio portfolio_name w) _ h4 in
      (
        portfolio,
        _,
        found,
        h5,
        All-map (disclosed w portfolio_name sender usage config allowed known rights may) _
            (All-select _ (get_list_documents portfolio)),
      )
