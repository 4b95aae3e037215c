-- ===== src/Secw/Error.antt =====
-- The exceptions of the wallet (lib/include/secw_exception.h, lib/src/secw_exception.cc): a
-- constructor for each class, with the fields that its objects hold.
pub mod RoundTrip
use fty_security_wallet.Base.{ℕ, String, ◌^^◌, Attempt, returns, throws, eqb, if◌then◌else◌}
use fty_security_wallet.External.{External, read_string}
use fty_security_wallet.External.Payload.{error_payload, read_payload}

-- What `what()` returns comes last in each constructor.
pub data SecwException : Type 0 where
  generic : String → SecwException
  unsupported_command : String → SecwException
  protocol_error : String → SecwException
  bad_command_argument : String → SecwException
  unknown_document_type : String → String → SecwException
  unknown_portfolio : String → String → SecwException
  invalid_document_format : String → String → SecwException
  impossible_to_load_portfolio : String → SecwException
  unknown_tag : String → SecwException
  document_do_not_exist : String → String → SecwException
  illegal_access : String → SecwException
  unknown_usage_id : String → String → SecwException
  name_already_exists : String → String → SecwException
  name_does_not_exist : String → String → SecwException
  mlm_client_is_null : SecwException
  mlm_interrupted : SecwException
  mlm_failed : SecwException

-- What a `throw` of the wallet may throw: `standard` is any other `std::exception`.
pub data Exn : Type 0 where
  secw : SecwException → Exn
  standard : String → Exn

unfoldable pub error_code : SecwException → ℕ
error_code (generic what) = 0
error_code (unsupported_command what) = 1
error_code (protocol_error what) = 2
error_code (bad_command_argument what) = 3
error_code (unknown_document_type type what) = 4
error_code (unknown_portfolio name what) = 5
error_code (invalid_document_format field what) = 6
error_code (impossible_to_load_portfolio what) = 7
error_code (unknown_tag what) = 8
error_code (document_do_not_exist id what) = 9
error_code (illegal_access what) = 10
error_code (unknown_usage_id id what) = 11
error_code (name_already_exists name what) = 12
error_code (name_does_not_exist name what) = 13
error_code mlm_client_is_null = 14
error_code mlm_interrupted = 15
error_code mlm_failed = 16

-- `SecwException::what`
unfoldable pub what_arg : SecwException → String
what_arg (generic what) = what
what_arg (unsupported_command what) = what
what_arg (protocol_error what) = what
what_arg (bad_command_argument what) = what
what_arg (unknown_document_type type what) = what
what_arg (unknown_portfolio name what) = what
what_arg (invalid_document_format field what) = what
what_arg (impossible_to_load_portfolio what) = what
what_arg (unknown_tag what) = what
what_arg (document_do_not_exist id what) = what
what_arg (illegal_access what) = what
what_arg (unknown_usage_id id what) = what
what_arg (name_already_exists name what) = what
what_arg (name_does_not_exist name what) = what
what_arg mlm_client_is_null = "Malamute client is null"
what_arg mlm_interrupted = "Malamute interrupted"
what_arg mlm_failed = "Malamute Connection Failed"

abbrev pub what : Exn → String
unfolding what_arg
what (secw x) = what_arg x
what (standard message) = message

-- The constructors that make `what()` from the field.
abbrev pub throw_unknown_portfolio : String → Exn
throw_unknown_portfolio name =
    secw (unknown_portfolio name ("Unknown portfolio '" ^^ (name ^^ "'")))

abbrev pub throw_invalid_document_format : String → Exn
throw_invalid_document_format field =
    secw (invalid_document_format field ("Error in field '" ^^ (field ^^ "'")))

abbrev pub throw_document_do_not_exist : String → Exn
throw_document_do_not_exist id =
    secw (document_do_not_exist id ("Document '" ^^ (id ^^ "'does not exist")))

abbrev pub throw_unknown_usage_id : String → Exn
throw_unknown_usage_id id = secw (unknown_usage_id id ("Unknown usage ID '" ^^ (id ^^ "'")))

abbrev pub throw_name_already_exists : String → Exn
throw_name_already_exists name =
    secw (name_already_exists name ("Document with name '" ^^ (name ^^ "' already exists")))

abbrev pub throw_name_does_not_exist : String → Exn
throw_name_does_not_exist name =
    secw (name_does_not_exist name ("Document with name '" ^^ (name ^^ "' does not exist")))

module _ ⦃e : External⦄ where
  open e use {Si, empty_si, add_member, of_string, to_json_beautified, of_json}

  -- The virtual `fillSerializationInfo`, on an empty node.
  unfoldable pub extra_data : SecwException → Si
  extra_data (unknown_document_type type what) = add_member "documentType" (of_string type) empty_si
  extra_data (unknown_portfolio name what) = add_member "portfolioName" (of_string name) empty_si
  extra_data (invalid_document_format field what) =
      add_member "documentField" (of_string field) empty_si
  extra_data (document_do_not_exist id what) = add_member "documentId" (of_string id) empty_si
  extra_data (unknown_usage_id id what) = add_member "usageId" (of_string id) empty_si
  extra_data (name_already_exists name what) = add_member "name" (of_string name) empty_si
  extra_data (name_does_not_exist name what) = add_member "name" (of_string name) empty_si
  extra_data _ = empty_si

  -- `operator<<=` on an empty node
  unfoldable pub error_info : SecwException → Si
  unfolding error_code what_arg extra_data
  error_info x = error_payload (error_code x) (what_arg x) (extra_data x)

  -- `SecwException::toJson`
  unfoldable pub to_json_payload : SecwException → Attempt String
  unfolding error_info
  to_json_payload x = to_json_beautified (error_info x)

  -- A constructor that reads its field from the extra data: the read may throw instead.
  pub from_extra : (String → String → SecwException) → String → Si → String → Exn
  from_extra make key extra message = elim (read_string key extra) [
    | returns field ↦ secw (make field message)
    | throws other ↦ standard other
  ]

  -- the `switch` of `throwSecwException`
  pub exception_of : ℕ → String → Si → Exn
  unfolding from_extra
  exception_of code message extra =
      if eqb code 1
      then secw (unsupported_command message)
      else if eqb code 2
      then secw (protocol_error message)
      else if eqb code 3
      then secw (bad_command_argument message)
      else if eqb code 4
      then from_extra unknown_document_type "documentType" extra message
      else if eqb code 5
      then from_extra unknown_portfolio "portfolioName" extra message
      else if eqb code 6
      then from_extra invalid_document_format "documentField" extra message
      else if eqb code 7
      then secw (impossible_to_load_portfolio message)
      else if eqb code 8
      then secw (unknown_tag message)
      else if eqb code 9
      then from_extra document_do_not_exist "documentId" extra message
      else if eqb code 10
      then secw (illegal_access message)
      else if eqb code 11
      then from_extra unknown_usage_id "usageId" extra message
      else if eqb code 12
      then from_extra name_already_exists "name" extra message
      else if eqb code 13
      then from_extra name_does_not_exist "name" extra message
      else secw (generic message)

  -- `SecwException::throwSecwException`: what it throws.
  pub throw_secw_exception : String → Exn
  unfolding read_payload exception_of
  throw_secw_exception text = elim (of_json text) [
    | throws other ↦ standard other
    | returns si ↦ let (code, message, extra) = read_payload si in exception_of code message extra
  ]
