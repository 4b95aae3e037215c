-- ===== src/Secw/Server/Requests.antt =====
-- `handleRequest`: the command table, and the handlers of every exception.
use fty_security_wallet.Base.{
  String, ◌^^◌, Option, some, none, List, [], ◌∷◌, ◌||◌, returns, throws, Result, ok, err, hang,
  ◌==◌, if◌then◌else◌,
}
use fty_security_wallet.External.{External}
use fty_security_wallet.Secw.Error.{
  Exn, secw, standard, protocol_error, unsupported_command, to_json_payload,
}
use fty_security_wallet.Secw.Wallet.{SecurityWallet}
use fty_security_wallet.Secw.Server.{World, Handler}
use fty_security_wallet.Secw.Server.Reads.{
  handle_get_list_portfolio, handle_get_consumer_usages, handle_get_producer_usages,
  handle_get_document_with_secret, handle_get_document_without_secret,
  handle_get_document_with_secret_by_name, handle_get_document_without_secret_by_name,
  handle_get_list_documents_with_secret, handle_get_list_documents_without_secret,
}
use fty_security_wallet.Secw.Server.Writes.{handle_create, handle_delete, handle_update}

-- The commands of the table of the constructor.
pub data Command : Type 0 where
  get_portfolio_list get_consumer_usages get_producer_usages : Command
  get_list_with_secret get_list_without_secret : Command
  get_without_secret get_with_secret : Command
  get_without_secret_by_name get_with_secret_by_name : Command
  create delete update : Command

-- `m_supportedCommands`, by the name of the command
unfoldable pub command_of : String → Option Command
command_of cmd =
    if cmd == "GET_PORTFOLIO_LIST"
    then some get_portfolio_list
    else if cmd == "GET_CONSUMER_USAGES"
    then some get_consumer_usages
    else if cmd == "GET_PRODUCER_USAGES"
    then some get_producer_usages
    else if cmd == "GET_LIST_WITH_SECRET"
    then some get_list_with_secret
    else if cmd == "GET_LIST_WITHOUT_SECRET"
    then some get_list_without_secret
    else if cmd == "GET_WITHOUT_SECRET"
    then some get_without_secret
    else if cmd == "GET_WITH_SECRET"
    then some get_with_secret
    else if cmd == "GET_WITHOUT_SECRET_BY_NAME"
    then some get_without_secret_by_name
    else if cmd == "GET_WITH_SECRET_BY_NAME"
    then some get_with_secret_by_name
    else if cmd == "CREATE"
    then some create
    else if cmd == "DELETE"
    then some delete
    else if cmd == "UPDATE"
    then some update
    else none

module _ ⦃e : External⦄ where
  -- A handler that only reads, as one of the table.
  abbrev reading :
      (SecurityWallet → String → List String → Result Exn String)
      → String
      → List String
      → Handler String
  reading handler sender params world = (handler world.wallet sender params, world)

  unfoldable pub run_command : Command → String → List String → Handler String
  run_command get_portfolio_list = reading handle_get_list_portfolio
  run_command get_consumer_usages = reading handle_get_consumer_usages
  run_command get_producer_usages = reading handle_get_producer_usages
  run_command get_list_with_secret = reading handle_get_list_documents_with_secret
  run_command get_list_without_secret = reading handle_get_list_documents_without_secret
  run_command get_without_secret = reading handle_get_document_without_secret
  run_command get_with_secret = reading handle_get_document_with_secret
  run_command get_without_secret_by_name = reading handle_get_document_without_secret_by_name
  run_command get_with_secret_by_name = reading handle_get_document_with_secret_by_name
  run_command create = handle_create
  run_command delete = handle_delete
  run_command update = handle_update

  -- The `catch` clauses; `toJson` may throw there, which leaves `handleRequest`.
  unfoldable pub reply_of : Result Exn String → Result Exn (List String)
  reply_of (ok result) = ok (result ∷ [])
  reply_of (err (secw x)) = elim (to_json_payload x) [
    | returns text ↦ ok ("ERROR" ∷ text ∷ [])
    | throws message ↦ err (standard message)
  ]
  reply_of (err (standard message)) = ok ("ERROR" ∷ "" ∷ [])
  reply_of hang = hang

  unfoldable pub run_named : String → Option Command → String → List String → Handler String
  unfolding run_command
  run_named cmd (some command) sender params world = run_command command sender params world
  run_named cmd none sender params world =
      (err (secw (unsupported_command (cmd ^^ " not supported"))), world)

  unfoldable pub replying : Result Exn String × World → Result Exn (List String) × World
  unfolding reply_of
  replying (r, world) = (reply_of r, world)

  unfoldable pub handle_request : String → List String → World → Result Exn (List String) × World
  unfolding run_named replying command_of reply_of
  handle_request sender [] world =
      (reply_of (err (secw (protocol_error "Command frame is empty"))), world)
  handle_request sender (cmd ∷ params) world =
      if cmd == "ERROR" || cmd == "OK"
      then (ok [], world)
      else replying (run_named cmd (command_of cmd) sender params world)
