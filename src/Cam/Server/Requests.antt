-- ===== src/Cam/Server/Requests.antt =====
-- `handleRequest` of the mapping server: the command table, and the handlers of every exception.
use fty_security_wallet.Base.{
  String, ◌^^◌, Option, some, none, List, [], ◌∷◌, ◌||◌, returns, throws, Result, ok, err, hang,
  ◌==◌, if◌then◌else◌,
}
use fty_security_wallet.External.{External}
use fty_security_wallet.Cam.Error.{
  Exn, cam, standard, protocol_error, throw_unsupported_command, to_json_payload,
}
use fty_security_wallet.Cam.Storage.{Storage, Handler}
use fty_security_wallet.Cam.Server.{
  handle_get_mapping, handle_create_mapping, handle_remove_mapping, handle_update_mapping,
  handle_update_port_mapping, handle_update_credential_mapping, handle_update_status_mapping,
  handle_update_info_mapping, handle_get_asset_mappings, handle_get_mappings,
  handle_get_all_mappings, handle_get_credential_mappings, handle_count_credential_mappings,
}

-- The commands of the table of the constructor.
pub data Command : Type 0 where
  create_mapping get_mapping remove_mapping update_mapping : Command
  update_port_mapping update_credential_mapping : Command
  update_status_mapping update_info_mapping : Command
  get_asset_mappings get_cred_mappings get_mappings get_all_mappings : Command
  count_cred_mappings : Command

-- `m_supportedCommands`, by the name of the command
unfoldable pub command_of : String → Option Command
command_of cmd =
    if cmd == "CREATE_MAPPING"
    then some create_mapping
    else if cmd == "GET_MAPPING"
    then some get_mapping
    else if cmd == "UPDATE_PORT_MAPPING"
    then some update_port_mapping
    else if cmd == "UPDATE_CREDENTIAL_MAPPING"
    then some update_credential_mapping
    else if cmd == "UPDATE_STATUS_MAPPING"
    then some update_status_mapping
    else if cmd == "UPDATE_INFO_MAPPING"
    then some update_info_mapping
    else if cmd == "UPDATE_MAPPING"
    then some update_mapping
    else if cmd == "REMOVE_MAPPING"
    then some remove_mapping
    else if cmd == "GET_ASSET_MAPPINGS"
    then some get_asset_mappings
    else if cmd == "GET_CRED_MAPPINGS"
    then some get_cred_mappings
    else if cmd == "GET_MAPPINGS"
    then some get_mappings
    else if cmd == "GET_ALL_MAPPINGS"
    then some get_all_mappings
    else if cmd == "COUNT_CRED_MAPPINGS"
    then some count_cred_mappings
    else none

module _ ⦃e : External⦄ where
  unfoldable pub run_command : Command → String → List String → Handler String
  run_command create_mapping = handle_create_mapping
  run_command get_mapping = handle_get_mapping
  run_command remove_mapping = handle_remove_mapping
  run_command update_mapping = handle_update_mapping
  run_command update_port_mapping = handle_update_port_mapping
  run_command update_credential_mapping = handle_update_credential_mapping
  run_command update_status_mapping = handle_update_status_mapping
  run_command update_info_mapping = handle_update_info_mapping
  run_command get_asset_mappings = handle_get_asset_mappings
  run_command get_cred_mappings = handle_get_credential_mappings
  run_command get_mappings = handle_get_mappings
  run_command get_all_mappings = handle_get_all_mappings
  run_command count_cred_mappings = handle_count_credential_mappings

  -- The `catch` clauses; `toJson` may throw there, which leaves `handleRequest`.
  unfoldable pub reply_of : Result Exn String → Result Exn (List String)
  reply_of (ok result) = ok (result ∷ [])
  reply_of (err (cam x)) = elim (to_json_payload x) [
    | returns text ↦ ok ("ERROR" ∷ text ∷ [])
    | throws message ↦ err (standard message)
  ]
  reply_of (err (standard message)) = ok ("ERROR" ∷ "" ∷ [])
  reply_of hang = hang

  unfoldable pub run_named : String → Option Command → String → List String → Handler String
  unfolding run_command
  run_named cmd (some command) sender params s = run_command command sender params s
  run_named cmd none sender params s =
      (err (throw_unsupported_command (cmd ^^ " not supported")), s)

  unfoldable pub replying : Result Exn String × Storage → Result Exn (List String) × Storage
  unfolding reply_of
  replying (r, s) = (reply_of r, s)

  unfoldable pub handle_request : String → List String → Handler (List String)
  unfolding run_named replying command_of reply_of
  handle_request sender [] s = (reply_of (err (cam (protocol_error "Command frame is empty"))), s)
  handle_request sender (cmd ∷ params) s =
      if cmd == "ERROR" || cmd == "OK"
      then (ok [], s)
      else replying (run_named cmd (command_of cmd) sender params s)
