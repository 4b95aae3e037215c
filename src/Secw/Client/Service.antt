-- ===== src/Secw/Client/Service.antt =====
-- The client with the wallet's server at the other end (lib/src/secw_consumer_accessor.cc,
-- lib/src/secw_producer_accessor.cc, lib/src/secw_security_wallet_server.cc).
use fty_security_wallet.Base.{
  String, true, false, none, List, [], ◌∷◌, returns, Result, ok, err, ◌≡◌, refl, ap, ◌∙◌, ◌==◌,
  eq_iff, Bool-cases, inl, inr,
}
use fty_security_wallet.Base.Exec.{Exec}
use fty_security_wallet.External.{External}
use fty_security_wallet.External.Laws.{Laws}
use fty_security_wallet.Secw.Error.{Exn, secw, SecwException, to_json_payload}
use fty_security_wallet.Secw.Error.RoundTrip.{IsSent, throw_secw_exception-to_json_payload}
use fty_security_wallet.Secw.Document.{
  Document, read_document, info_with_secret, info_without_secret,
}
use fty_security_wallet.Secw.Document.Views.{public_view}
use fty_security_wallet.Secw.Document.RoundTrip.{
  IsOrdered, read_document-info_with_secret_marked, read_document-info_without_secret,
}
use fty_security_wallet.Secw.Helpers.{serialize, deserialize}
use fty_security_wallet.Base.StringSet.{StringSet}
use fty_security_wallet.Secw.Portfolio.{Portfolio, get_document}
use fty_security_wallet.Secw.Helpers.{has_common_usage_ids}
use fty_security_wallet.Secw.Configuration.{PortfolioConfiguration, get_usage_ids_for_consumer}
use fty_security_wallet.Secw.Wallet.{get_configuration, get_portfolio}
use fty_security_wallet.Secw.Server.{World, has_none}
use fty_security_wallet.Secw.Server.Reads.{
  handle_get_document_with_secret, handle_get_document_without_secret,
}
use fty_security_wallet.Secw.Server.Requests.{
  reply_of, replying, run_named, run_command, command_of, handle_request,
}
use fty_security_wallet.Secw.Client.{
  error_reply, check_reply, send_command, ask, get_document_with_private_data,
  get_document_without_private_data,
}

module _ ⦃e : External⦄ (laws : Laws) where
  open e use {Si, to_json, of_json}
  open laws use {of_json-to_json, of_json-error}

  text-ne-error : (si : Si) (text : String) → to_json si ≡ returns text → (text == "ERROR") ≡ false
  text-ne-error si text h = elim (Bool-cases (text == "ERROR")) [
    | inr other ↦ other
    | inl same ↦
        let word : text ≡ "ERROR" = (eq_iff text "ERROR").0 same in
        absurd (cc (of_json-to_json si h, ap (λ t. of_json t) word, of_json-error.1))
  ]

  -- A question that the other end answers with the text of a node.
  pub ask_lem :
      {S A : Type 0} (undefined : Result Exn (List String))
      (sync_request : List String → Exec S Exn (List String)) (command text : String)
      (params : List String) (read : Si → Result Exn A) (si : Si) (s t : S)
      → to_json si ≡ returns text
      → sync_request (command ∷ params) s ≡ (ok (text ∷ []), t)
      → ask undefined sync_request command params read s ≡ (read si, t)
  unfolding ask send_command check_reply deserialize
  ask_lem undefined sync_request command text params read si s t written answered =
      rw answered (rw (text-ne-error si text written) (rw (of_json-to_json si written)))

  -- A question that the other end answers with an exception.
  pub ask_err :
      {S A : Type 0} (undefined : Result Exn (List String))
      (sync_request : List String → Exec S Exn (List String)) (command text : String)
      (params : List String) (read : Si → Result Exn A) (x : SecwException) (s t : S)
      → IsSent x
      → to_json_payload x ≡ returns text
      → sync_request (command ∷ params) s ≡ (ok ("ERROR" ∷ text ∷ []), t)
      → ask undefined sync_request command params read s ≡ (err (secw x), t)
  unfolding ask send_command check_reply error_reply
  ask_err undefined sync_request command text params read x s t sent written answered =
      rw answered (rw (throw_secw_exception-to_json_payload laws x text sent written) refl)

  module _ (undefined : Result Exn (List String)) (sender : String) where
    answered_with_secret :
        (portfolio id text : String) (world : World)
        → handle_get_document_with_secret world.wallet sender (portfolio ∷ id ∷ []) ≡ ok text
        → handle_request sender ("GET_WITH_SECRET" ∷ portfolio ∷ id ∷ []) world
          ≡ (ok (text ∷ []), world)
    unfolding handle_request replying run_named command_of run_command reply_of
    answered_with_secret portfolio id text world h = ap (λ r. (reply_of r, world)) h

    refused_with_secret :
        (portfolio id text : String) (x : SecwException) (world : World)
        → handle_get_document_with_secret world.wallet sender (portfolio ∷ id ∷ []) ≡ err (secw x)
        → to_json_payload x ≡ returns text
        → handle_request sender ("GET_WITH_SECRET" ∷ portfolio ∷ id ∷ []) world
          ≡ (ok ("ERROR" ∷ text ∷ []), world)
    unfolding handle_request replying run_named command_of run_command reply_of
    refused_with_secret portfolio id text x world h written =
        ap (λ r. (reply_of r, world)) h ∙ rw (written, reply_of) refl

    served_without_secret :
        (portfolio id text : String) (p : Portfolio) (doc : Document) (world : World)
        → get_portfolio portfolio world.wallet ≡ ok p
        → get_document id p ≡ ok doc
        → to_json (info_without_secret doc) ≡ returns text
        → handle_request sender ("GET_WITHOUT_SECRET" ∷ portfolio ∷ id ∷ []) world
          ≡ (ok (text ∷ []), world)
    unfolding handle_request replying run_named command_of run_command reply_of
        handle_get_document_without_secret serialize
    served_without_secret portfolio id text p doc world there found written =
        rw there (rw found (rw written))

    common_has_some :
        (allowed usages : StringSet)
        → has_common_usage_ids allowed usages ≡ true
        → has_none allowed ≡ false
    unfolding has_common_usage_ids
    common_has_some [] usages h = absurd (cc h)
    common_has_some (u ∷ allowed) usages h = refl

    served_with_secret :
        (portfolio id text : String) (config : PortfolioConfiguration) (allowed : StringSet)
        (p : Portfolio) (doc : Document) (world : World)
        → get_configuration portfolio world.wallet ≡ ok config
        → get_usage_ids_for_consumer sender config ≡ ok allowed
        → get_portfolio portfolio world.wallet ≡ ok p
        → get_document id p ≡ ok doc
        → has_common_usage_ids allowed doc.usages ≡ true
        → to_json (info_with_secret doc) ≡ returns text
        → handle_get_document_with_secret world.wallet sender (portfolio ∷ id ∷ []) ≡ ok text
    unfolding handle_get_document_with_secret serialize
    served_with_secret portfolio id text config allowed p doc world known rights there found common
          written =
        rw known (
          rw rights (
            rw (common_has_some allowed doc.usages common)
              (rw there (rw found (rw common (rw written))))))

    -- An exception with which the server refuses a consumer a document is the exception that the
    -- consumer's call throws, class, field and message, and the server stays as it is.
    pub get_document_with_private_data-refused :
        (portfolio id text : String) (x : SecwException) (world : World)
        → IsSent x
        → handle_get_document_with_secret world.wallet sender (portfolio ∷ id ∷ []) ≡ err (secw x)
        → to_json_payload x ≡ returns text
        → get_document_with_private_data undefined (handle_request sender) portfolio id world
          ≡ (err (secw x), world)
    unfolding get_document_with_private_data
    get_document_with_private_data-refused portfolio id text x world sent h written =
        ask_err undefined (handle_request sender) "GET_WITH_SECRET" text (portfolio ∷ id ∷ [])
          (read_document none) x world world sent written
          (refused_with_secret portfolio id text x world h written)

    -- A producer that asks for a document that is stored gets it without its secrets, marked so,
    -- whichever rights it has; the server stays as it is.
    pub get_document_without_private_data-stored :
        (portfolio id text : String) (p : Portfolio) (doc : Document) (world : World)
        → get_portfolio portfolio world.wallet ≡ ok p
        → get_document id p ≡ ok doc
        → IsOrdered doc
        → to_json (info_without_secret doc) ≡ returns text
        → get_document_without_private_data undefined (handle_request sender) portfolio id world
          ≡ (ok (public_view doc), world)
    unfolding get_document_without_private_data
    get_document_without_private_data-stored portfolio id text p doc world there found ordered
          written =
        ask_lem undefined (handle_request sender) "GET_WITHOUT_SECRET" text (portfolio ∷ id ∷ [])
          (read_document none) (info_without_secret doc) world world written
          (served_without_secret portfolio id text p doc world there found written)
        ∙ ap (λ r. (r, world)) (read_document-info_without_secret laws doc ordered)

    -- A consumer that has a usage of a stored document with its sets in order gets it with its
    -- secrets: the same document, marked as having its private data, whether it was or not; the
    -- server stays as it is.
    pub get_document_with_private_data-stored :
        (portfolio id text : String) (config : PortfolioConfiguration) (allowed : StringSet)
        (p : Portfolio) (doc : Document) (world : World)
        → get_configuration portfolio world.wallet ≡ ok config
        → get_usage_ids_for_consumer sender config ≡ ok allowed
        → get_portfolio portfolio world.wallet ≡ ok p
        → get_document id p ≡ ok doc
        → has_common_usage_ids allowed doc.usages ≡ true
        → IsOrdered doc
        → to_json (info_with_secret doc) ≡ returns text
        → get_document_with_private_data undefined (handle_request sender) portfolio id world
          ≡ (ok (record doc { contain_private_data = true }), world)
    unfolding get_document_with_private_data
    get_document_with_private_data-stored portfolio id text config allowed p doc world known rights
          there found common ordered written =
        ask_lem undefined (handle_request sender) "GET_WITH_SECRET" text (portfolio ∷ id ∷ [])
          (read_document none) (info_with_secret doc) world world written
          (answered_with_secret portfolio id text world (
            served_with_secret portfolio id text config allowed p doc world known rights there found
              common written))
        ∙ ap (λ r. (r, world)) (read_document-info_with_secret_marked laws doc ordered)
