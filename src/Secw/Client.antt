-- ===== src/Secw/Client.antt =====
-- The clients of the wallet: class `ClientAccessor` (lib/src/secw_client_accessor.h,
-- lib/src/secw_client_accessor.cc), and `ConsumerAccessor` and `ProducerAccessor`
-- (lib/src/secw_consumer_accessor.cc, lib/src/secw_producer_accessor.cc), which both hold one. The
-- transport, `fty::SyncClient::syncRequestWithReply`, is a parameter: a step on the state of
-- whatever is at the other end.
pub mod Service
pub mod Callbacks
use fty_security_wallet.Base.{
  String, Bool, false, ◌||◌, Option, some, none, List, [], ◌∷◌, Result, ok, err, hang,
  ◌>>=◌ as ◌>>=ᵣ◌, or_throw, eqb, ◌==◌, if◌then◌else◌,
}
use fty_security_wallet.Base.Exec.{Exec, continue, pure, lift, ◌>>=◌, ◌>>◌}
use fty_security_wallet.Base.StringSet
use fty_security_wallet.Base.StringSet.{StringSet}
use fty_security_wallet.External.{External}
use fty_security_wallet.Secw.Error.{
  Exn, secw, standard, protocol_error, error_code, throw_secw_exception,
}
use fty_security_wallet.Secw.Document.{Document, read_document, info_with_secret}
use fty_security_wallet.Secw.Helpers.{deserialize, serialize}

-- the two error codes that the methods on lists of identifiers filter
unfoldable pub is_filtered : Exn → Bool
unfolding error_code
is_filtered (secw x) = eqb (error_code x) 9 || eqb (error_code x) 10
is_filtered (standard message) = false

abbrev pub prepend : Document → Result Exn (List Document) → Result Exn (List Document)
prepend doc (ok docs) = ok (doc ∷ docs)
prepend doc rest = rest

-- One round of these methods, with what the other rounds come to.
unfoldable pub one_round :
    {S : Type 0}
    → Result Exn Document × S
    → Result Exn (List Document) × S
    → Result Exn (List Document) × S
unfolding is_filtered
one_round (ok doc, t) (found, end) = (prepend doc found, end)
one_round (err x, t) rest = if is_filtered x then rest else (err x, t)
one_round (hang, t) rest = (hang, t)

module _ ⦃e : External⦄ where
  open e use {Si, elements, to_strings, out_of_range}

  -- a reply whose first frame is "ERROR"
  unfoldable pub error_reply : List String → Exn
  error_reply (text ∷ []) = throw_secw_exception text
  error_reply _ = secw (protocol_error "Missing data for error")

  -- The end of `sendCommand`; `undefined` is what reading the first of no frames does.
  unfoldable pub check_reply : Result Exn (List String) → List String → Result Exn (List String)
  unfolding error_reply
  check_reply undefined [] = undefined
  check_reply undefined (frame ∷ rest) =
      if frame == "ERROR" then err (error_reply rest) else ok (frame ∷ rest)

  -- The test for an empty answer, and `frames.at(0)`.
  abbrev pub first_frame : List String → Result Exn String
  first_frame (frame ∷ rest) = ok frame
  first_frame [] = err (secw (protocol_error "Empty answer from server"))

  -- `frames.at(0)` without a test
  abbrev pub frame_at : List String → Result Exn String
  frame_at (frame ∷ rest) = ok frame
  frame_at [] = err (standard out_of_range)

  abbrev pub read_names : Si → Result Exn (List String)
  read_names si = or_throw standard (to_strings si)

  abbrev pub read_usages : Si → Result Exn StringSet
  read_usages si = or_throw standard (to_strings si) >>=ᵣ λ names. ok (StringSet.of_list names)

  -- a `std::vector` of documents
  unfoldable pub read_each : List Si → Result Exn (List Document)
  read_each [] = ok []
  read_each (si ∷ rest) =
      read_document none si >>=ᵣ λ doc. read_each rest >>=ᵣ λ docs. ok (doc ∷ docs)

  abbrev pub read_documents : Si → Result Exn (List Document)
  read_documents si = read_each (elements si)

  module _ {S : Type 0} (undefined : Result Exn (List String))
      (sync_request : List String → Exec S Exn (List String)) where
    -- `sendCommand`
    unfoldable pub send_command : String → List String → Exec S Exn (List String)
    unfolding check_reply
    send_command command frames = do
      received ← sync_request (command ∷ frames)
      lift (check_reply undefined received)

    -- a command whose reply is read
    unfoldable pub ask : {A : Type 0} → String → List String → (Si → Result Exn A) → Exec S Exn A
    unfolding send_command
    ask command params read = do
      frames ← send_command command params
      text ← lift (first_frame frames)
      si ← lift (deserialize text)
      lift (read si)

    -- The methods of both accessors.
    pub get_portfolio_list : Exec S Exn (List String)
    unfolding ask
    get_portfolio_list = ask "GET_PORTFOLIO_LIST" [] read_names

    -- The loop over identifiers, with the method that gets one document.
    unfoldable pub get_each :
        (String → Exec S Exn Document) → List String → Exec S Exn (List Document)
    unfolding one_round
    get_each get [] s = (ok [], s)
    get_each get (id ∷ ids) s = one_round (get id s) (get_each get ids (get id s).1)

    -- The methods of `ConsumerAccessor`.
    pub get_consumer_usages : String → Exec S Exn StringSet
    unfolding ask
    get_consumer_usages portfolio = ask "GET_CONSUMER_USAGES" (portfolio ∷ []) read_usages

    unfoldable pub get_list_documents_with_private_data :
        String → String → Exec S Exn (List Document)
    unfolding ask read_each
    get_list_documents_with_private_data portfolio usage =
        ask "GET_LIST_WITH_SECRET" (portfolio ∷ usage ∷ []) read_documents

    unfoldable pub get_document_with_private_data : String → String → Exec S Exn Document
    unfolding ask
    get_document_with_private_data portfolio id =
        ask "GET_WITH_SECRET" (portfolio ∷ id ∷ []) (read_document none)

    pub get_documents_with_private_data : String → List String → Exec S Exn (List Document)
    unfolding get_document_with_private_data get_each
    get_documents_with_private_data portfolio = get_each (get_document_with_private_data portfolio)

    unfoldable pub get_document_with_private_data_by_name : String → String → Exec S Exn Document
    unfolding ask
    get_document_with_private_data_by_name portfolio name =
        ask "GET_WITH_SECRET_BY_NAME" (portfolio ∷ name ∷ []) (read_document none)

    -- The methods of `ProducerAccessor`.
    pub get_producer_usages : String → Exec S Exn StringSet
    unfolding ask
    get_producer_usages portfolio = ask "GET_PRODUCER_USAGES" (portfolio ∷ []) read_usages

    pub get_list_documents_without_private_data : String → String → Exec S Exn (List Document)
    unfolding ask read_each
    get_list_documents_without_private_data portfolio usage =
        ask "GET_LIST_WITHOUT_SECRET" (portfolio ∷ usage ∷ []) read_documents

    unfoldable pub get_document_without_private_data : String → String → Exec S Exn Document
    unfolding ask
    get_document_without_private_data portfolio id =
        ask "GET_WITHOUT_SECRET" (portfolio ∷ id ∷ []) (read_document none)

    pub get_documents_without_private_data : String → List String → Exec S Exn (List Document)
    unfolding get_document_without_private_data get_each
    get_documents_without_private_data portfolio =
        get_each (get_document_without_private_data portfolio)

    unfoldable pub get_document_without_private_data_by_name : String → String → Exec S Exn Document
    unfolding ask
    get_document_without_private_data_by_name portfolio name =
        ask "GET_WITHOUT_SECRET_BY_NAME" (portfolio ∷ name ∷ []) (read_document none)

    unfoldable pub insert_new_document : String → Document → Exec S Exn String
    unfolding send_command
    insert_new_document portfolio doc = do
      json ← lift (serialize (info_with_secret doc))
      frames ← send_command "CREATE" (portfolio ∷ json ∷ [])
      lift (frame_at frames)

    pub update_document : String → Document → Exec S Exn (Unit {0})
    unfolding send_command
    update_document portfolio doc = do
      json ← lift (serialize (info_with_secret doc))
      frames ← send_command "UPDATE" (portfolio ∷ json ∷ [])
      pure tt

    pub delete_document : String → String → Exec S Exn (Unit {0})
    unfolding send_command
    delete_document portfolio id = do frames ← send_command "DELETE" (portfolio ∷ id ∷ []); pure tt
