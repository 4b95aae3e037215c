-- ===== src/Cam/Server/Operations.antt =====
-- What each request to the mapping server asks of the abstract state.
use fty_security_wallet.Base.{
  String, ◌||◌, Option, some, none, List, [], ◌∷◌, Result, ok, err, hang, ◌>>=◌, ◌==◌,
  if◌then◌else◌,
}
use fty_security_wallet.External.{External}
use fty_security_wallet.Cam.Error.{Exn}
use fty_security_wallet.Cam.Mapping.{Mapping, unknown, deserialize, read_mapping}
use fty_security_wallet.Cam.Storage.{compute_hash}
use fty_security_wallet.Cam.Storage.View.{Operation, create, replace, change, remove, nothing}
use fty_security_wallet.Cam.Server.Requests.{Command, command_of}

abbrev pub on_mapping : Result Exn Mapping → (Mapping → Operation) → Operation
on_mapping (ok m) make = make m
on_mapping (err x) make = nothing
on_mapping hang make = nothing

abbrev pub set_port : Mapping → Mapping → Mapping
set_port received existing = record existing { port = received.port; status = unknown }

abbrev pub set_credential : Mapping → Mapping → Mapping
set_credential received existing = record existing {
  credential_id = received.credential_id;
  status = unknown;
}

abbrev pub set_status : Mapping → Mapping → Mapping
set_status received existing = record existing { status = received.status }

abbrev pub set_info : Mapping → Mapping → Mapping
set_info received existing = record existing { extended_info = received.extended_info }

module _ ⦃e : External⦄ where
  abbrev pub parsed : String → Result Exn Mapping
  parsed json = deserialize json >>= read_mapping

  -- the mapping in the first parameter, if it is one
  abbrev pub with_mapping : List String → (Mapping → Operation) → Operation
  with_mapping [] make = nothing
  with_mapping (json ∷ rest) make = on_mapping (parsed json) make

  -- What a request asks for. A request that is refused, or only reads, asks for nothing.
  unfoldable pub operation_of_command : Command → List String → Operation
  operation_of_command Command.create_mapping params = with_mapping params create
  operation_of_command Command.update_mapping params = with_mapping params replace
  operation_of_command Command.update_port_mapping params = with_mapping params (change set_port)
  operation_of_command Command.update_credential_mapping params =
      with_mapping params (change set_credential)
  operation_of_command Command.update_status_mapping params =
      with_mapping params (change set_status)
  operation_of_command Command.update_info_mapping params = with_mapping params (change set_info)
  operation_of_command Command.remove_mapping (asset ∷ service ∷ protocol ∷ rest) =
      remove (compute_hash asset service protocol)
  operation_of_command _ params = nothing

  unfoldable pub operation_of_named : Option Command → List String → Operation
  unfolding operation_of_command
  operation_of_named (some command) params = operation_of_command command params
  operation_of_named none params = nothing

  unfoldable pub operation_of : List String → Operation
  unfolding operation_of_named command_of
  operation_of [] = nothing
  operation_of (cmd ∷ params) =
      if cmd == "ERROR" || cmd == "OK" then nothing else operation_of_named (command_of cmd) params
