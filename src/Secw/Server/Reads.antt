-- ===== src/Secw/Server/Reads.antt =====
-- The handlers that only read: functions of the wallet, the sender and the parameters. A handler
-- whose parameters are too few or too many throws before it does anything else.
use fty_security_wallet.Base.{
  String, List, [], ◌∷◌, map, select, Result, err, ◌>>=◌, ◌>>◌, throw_if, is_empty, ◌&&◌, ◌||◌, not,
  if◌then◌else◌,
}
use fty_security_wallet.Base.StringSet
use fty_security_wallet.Base.StringSet.{StringSet}
use fty_security_wallet.External.{External}
use fty_security_wallet.Secw.Error.{
  Exn, secw, bad_command_argument, illegal_access, throw_unknown_usage_id,
}
use fty_security_wallet.Secw.Document.{Document, info_with_secret, info_without_secret}
use fty_security_wallet.Secw.Portfolio.{get_document, get_document_by_name, get_list_documents}
use fty_security_wallet.Secw.Helpers.{serialize, has_common_usage_ids}
use fty_security_wallet.Secw.Configuration.{
  get_all_usage_id, get_usage_ids_for_consumer, get_usage_ids_for_producer,
}
use fty_security_wallet.Secw.Wallet.{
  SecurityWallet, get_portfolio_names, get_configuration, get_portfolio,
}
use fty_security_wallet.Secw.Server.{has_none}

abbrev pub no_access_to_document : Exn
no_access_to_document = secw (illegal_access "You do not have access to this document")

abbrev pub no_access_to_command : Exn
no_access_to_command = secw (illegal_access "You do not have access to this command")

-- the optional second parameter
unfoldable pub usage_parameter : List String → String
usage_parameter [] = ""
usage_parameter (usage ∷ rest) = usage

module _ ⦃e : External⦄ where
  open e use {Si, of_elements, of_strings}

  unfoldable pub handle_get_list_portfolio :
      SecurityWallet → String → List String → Result Exn String
  handle_get_list_portfolio w sender params = serialize (of_strings (get_portfolio_names w))

  unfoldable pub handle_get_consumer_usages :
      SecurityWallet → String → List String → Result Exn String
  handle_get_consumer_usages w sender (portfolio_name ∷ []) = do
    config ← get_configuration portfolio_name w
    usages ← get_usage_ids_for_consumer sender config
    serialize (of_strings usages)
  handle_get_consumer_usages w sender _ =
      err (secw (bad_command_argument "Command needs at least 1 argument"))

  unfoldable pub handle_get_producer_usages :
      SecurityWallet → String → List String → Result Exn String
  handle_get_producer_usages w sender (portfolio_name ∷ []) = do
    config ← get_configuration portfolio_name w
    usages ← get_usage_ids_for_producer sender config
    serialize (of_strings usages)
  handle_get_producer_usages w sender _ =
      err (secw (bad_command_argument "Command needs at least 1 argument"))

  unfoldable pub handle_get_document_with_secret :
      SecurityWallet → String → List String → Result Exn String
  handle_get_document_with_secret w sender (portfolio_name ∷ id ∷ []) = do
    config ← get_configuration portfolio_name w
    allowed ← get_usage_ids_for_consumer sender config
    throw_if (has_none allowed) no_access_to_document
    portfolio ← get_portfolio portfolio_name w
    doc ← get_document id portfolio
    throw_if (not (has_common_usage_ids allowed doc.usages)) no_access_to_document
    serialize (info_with_secret doc)
  handle_get_document_with_secret w sender _ =
      err (secw (bad_command_argument "Command needs at least 2 arguments"))

  unfoldable pub handle_get_document_without_secret :
      SecurityWallet → String → List String → Result Exn String
  handle_get_document_without_secret w sender (portfolio_name ∷ id ∷ []) = do
    portfolio ← get_portfolio portfolio_name w
    doc ← get_document id portfolio
    serialize (info_without_secret doc)
  handle_get_document_without_secret w sender _ =
      err (secw (bad_command_argument "Command needs at least 2 arguments"))

  unfoldable pub handle_get_document_with_secret_by_name :
      SecurityWallet → String → List String → Result Exn String
  handle_get_document_with_secret_by_name w sender (portfolio_name ∷ name ∷ []) = do
    config ← get_configuration portfolio_name w
    allowed ← get_usage_ids_for_consumer sender config
    throw_if (has_none allowed) no_access_to_document
    portfolio ← get_portfolio portfolio_name w
    doc ← get_document_by_name name portfolio
    throw_if (not (has_common_usage_ids allowed doc.usages)) no_access_to_document
    serialize (info_with_secret doc)
  handle_get_document_with_secret_by_name w sender _ =
      err (secw (bad_command_argument "Command needs at least 2 arguments"))

  unfoldable pub handle_get_document_without_secret_by_name :
      SecurityWallet → String → List String → Result Exn String
  handle_get_document_without_secret_by_name w sender (portfolio_name ∷ name ∷ []) = do
    portfolio ← get_portfolio portfolio_name w
    doc ← get_document_by_name name portfolio
    serialize (info_without_secret doc)
  handle_get_document_without_secret_by_name w sender _ =
      err (secw (bad_command_argument "Command needs at least 2 arguments"))

  -- The documents of `serializeListDocumentsPrivate`.
  unfoldable pub shown_with_secret : StringSet → List Document → List Document
  shown_with_secret usages docs = select (λ doc. has_common_usage_ids doc.usages usages) docs

  unfoldable pub serialize_list_documents_private :
      SecurityWallet → String → StringSet → Result Exn String
  unfolding shown_with_secret
  serialize_list_documents_private w portfolio_name usages = do
    portfolio ← get_portfolio portfolio_name w
    serialize (
        of_elements
          (map info_with_secret (shown_with_secret usages (get_list_documents portfolio))))

  -- The documents of `serializeListDocumentsPublic`.
  unfoldable pub shown_without_secret : StringSet → List Document → List Document
  shown_without_secret usages docs =
      select (λ doc. has_none usages || has_common_usage_ids doc.usages usages) docs

  unfoldable pub serialize_list_documents_public :
      SecurityWallet → String → StringSet → Result Exn String
  unfolding shown_without_secret
  serialize_list_documents_public w portfolio_name usages = do
    portfolio ← get_portfolio portfolio_name w
    serialize (
        of_elements
          (map info_without_secret (shown_without_secret usages (get_list_documents portfolio))))

  unfoldable pub handle_get_list_documents_with_secret :
      SecurityWallet → String → List String → Result Exn String
  unfolding serialize_list_documents_private usage_parameter
  handle_get_list_documents_with_secret w sender (portfolio_name ∷ rest) = do
    config ← get_configuration portfolio_name w
    allowed ← get_usage_ids_for_consumer sender config
    throw_if (has_none allowed) no_access_to_command
    let usage = usage_parameter rest
    throw_if (not (is_empty usage) && not (StringSet.contains usage allowed)) no_access_to_command
    serialize_list_documents_private w portfolio_name
        (if is_empty usage then allowed else usage ∷ [])
  handle_get_list_documents_with_secret w sender [] =
      err (secw (bad_command_argument "Command needs at least argument"))

  unfoldable pub handle_get_list_documents_without_secret :
      SecurityWallet → String → List String → Result Exn String
  unfolding serialize_list_documents_public usage_parameter
  handle_get_list_documents_without_secret w sender (portfolio_name ∷ rest) = do
    let usage = usage_parameter rest
    config ← get_configuration portfolio_name w
    throw_if (not (is_empty usage) && not (StringSet.contains usage (get_all_usage_id config)))
        (throw_unknown_usage_id usage)
    serialize_list_documents_public w portfolio_name (if is_empty usage then [] else usage ∷ [])
  handle_get_list_documents_without_secret w sender [] =
      err (secw (bad_command_argument "Command needs at least argument"))
