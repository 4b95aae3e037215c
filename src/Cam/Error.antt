-- ===== src/Cam/Error.antt =====
-- The exceptions of the credential asset mapping (lib/include/cam_exception.h,
-- lib/src/cam_exception.cc): a constructor for each class, with the fields that its objects hold.
pub mod RoundTrip
use fty_security_wallet.Base.{ℕ, String, ◌^^◌, Attempt, returns, throws, eqb, if◌then◌else◌}
use fty_security_wallet.External.{External, read_string}
use fty_security_wallet.External.Payload.{error_payload, read_payload}

-- What `what()` returns comes last in each constructor.
pub data CamException : Type 0 where
  generic : String → CamException
  -- the command
  unsupported_command : String → String → CamException
  protocol_error : String → CamException
  -- the argument
  bad_command_argument : String → String → CamException
  -- the asset, the service and the protocol
  mapping_does_not_exist : String → String → String → String → CamException
  mapping_already_exists : String → String → String → String → CamException
  mapping_invalid : String → CamException
  mlm_client_is_null : CamException
  mlm_interrupted : CamException
  mlm_failed : CamException

-- What a `throw` may throw: `standard` is any other `std::exception`.
pub data Exn : Type 0 where
  cam : CamException → Exn
  standard : String → Exn

unfoldable pub error_code : CamException → ℕ
error_code (generic what) = 0
error_code (unsupported_command command what) = 1
error_code (protocol_error what) = 2
error_code (bad_command_argument argument what) = 3
error_code (mapping_does_not_exist asset service protocol what) = 4
error_code (mapping_already_exists asset service protocol what) = 5
error_code (mapping_invalid what) = 6
error_code mlm_client_is_null = 7
error_code mlm_interrupted = 8
error_code mlm_failed = 9

-- `CamException::what`
unfoldable pub what_arg : CamException → String
what_arg (generic what) = what
what_arg (unsupported_command command what) = what
what_arg (protocol_error what) = what
what_arg (bad_command_argument argument what) = what
what_arg (mapping_does_not_exist asset service protocol what) = what
what_arg (mapping_already_exists asset service protocol what) = what
what_arg (mapping_invalid what) = what
what_arg mlm_client_is_null = "Malamute client is null"
what_arg mlm_interrupted = "Malamute interrupted"
what_arg mlm_failed = "Malamute Connection Failed"

-- The constructors that make `what()` from the fields.
abbrev pub throw_unsupported_command : String → Exn
throw_unsupported_command command =
    cam (unsupported_command command ("Unsupported command: '" ^^ (command ^^ "'")))

abbrev pub throw_bad_command_argument : String → String → Exn
throw_bad_command_argument argument reason =
    cam (
      bad_command_argument argument ("Command argument error: '" ^^ (argument ^^ ("' " ^^ reason))))

abbrev pub mapping_message : String → String → String → String → String
mapping_message asset service protocol end =
    "Mapping for asset '"
    ^^ (asset ^^ ("', service '" ^^ (service ^^ ("' and protocol '" ^^ (protocol ^^ end)))))

abbrev pub throw_mapping_does_not_exist : String → String → String → Exn
throw_mapping_does_not_exist asset service protocol = cam (
    mapping_does_not_exist asset service protocol
      (mapping_message asset service protocol "' do not exist"))

abbrev pub throw_mapping_already_exists : String → String → String → Exn
throw_mapping_already_exists asset service protocol = cam (
    mapping_already_exists asset service protocol
      (mapping_message asset service protocol "' already exist"))

module _ ⦃e : External⦄ where
  open e use {Si, empty_si, add_member, of_string, to_json_beautified, of_json}

  -- the extra data of the two classes that name a mapping
  abbrev pub mapping_data : String → String → String → Si
  mapping_data asset service protocol =
      add_member "protocol" (of_string protocol)
        (add_member "service" (of_string service) (add_member "asset" (of_string asset) empty_si))

  -- The virtual `fillSerializationInfo`, on an empty node.
  unfoldable pub extra_data : CamException → Si
  extra_data (unsupported_command command what) = add_member "command" (of_string command) empty_si
  extra_data (bad_command_argument argument what) =
      add_member "argument" (of_string argument) empty_si
  extra_data (mapping_does_not_exist asset service protocol what) =
      mapping_data asset service protocol
  extra_data (mapping_already_exists asset service protocol what) =
      mapping_data asset service protocol
  extra_data _ = empty_si

  -- `operator<<=` on an empty node
  unfoldable pub error_info : CamException → Si
  unfolding error_code what_arg extra_data
  error_info x = error_payload (error_code x) (what_arg x) (extra_data x)

  -- `CamException::toJson`
  unfoldable pub to_json_payload : CamException → Attempt String
  unfolding error_info
  to_json_payload x = to_json_beautified (error_info x)

  -- The constructors that read their fields from the extra data: a read may throw instead.
  pub argument_of_extra : Si → String → Exn
  argument_of_extra extra message = elim (read_string "argument" extra) [
    | throws other ↦ standard other
    | returns argument ↦ cam (bad_command_argument argument message)
  ]

  pub mapping_of_extra : (String → String → String → String → CamException) → Si → String → Exn
  mapping_of_extra make extra message = elim (read_string "asset" extra) [
    | throws other ↦ standard other
    | returns asset ↦ elim (read_string "service" extra) [
      | throws other ↦ standard other
      | returns service ↦ elim (read_string "protocol" extra) [
        | throws other ↦ standard other
        | returns protocol ↦ cam (make asset service protocol message)
      ]
    ]
  ]

  -- the `switch` of `throwCamException`
  pub exception_of : ℕ → String → Si → Exn
  unfolding argument_of_extra mapping_of_extra
  exception_of code message extra =
      if eqb code 1
      then throw_unsupported_command message
      else if eqb code 2
      then cam (protocol_error message)
      else if eqb code 3
      then argument_of_extra extra message
      else if eqb code 4
      then mapping_of_extra mapping_does_not_exist extra message
      else if eqb code 5
      then mapping_of_extra mapping_already_exists extra message
      else if eqb code 6
      then cam (mapping_invalid message)
      else cam (generic message)

  -- `CamException::throwCamException`: what it throws.
  pub throw_cam_exception : String → Exn
  unfolding read_payload exception_of
  throw_cam_exception text = elim (of_json text) [
    | throws other ↦ standard other
    | returns si ↦ let (code, message, extra) = read_payload si in exception_of code message extra
  ]
