-- ===== src/Cam/Error/RoundTrip.antt =====
-- What the client throws for an exception of the server (lib/src/cam_exception.cc).
use fty_security_wallet.Base.{String, ◌^^◌, ◌<◌, ◌≡◌, refl, returns, arith}
use fty_security_wallet.External.{External}
use fty_security_wallet.External.Laws.{Laws}
use fty_security_wallet.External.Payload.{read_payload-error_payload}
use fty_security_wallet.Cam.Error.{
  CamException, generic, unsupported_command, bad_command_argument, mapping_does_not_exist,
  mapping_already_exists, mlm_client_is_null, mlm_interrupted, mlm_failed, cam, mapping_data,
  error_code, what_arg, extra_data, error_info, to_json_payload, argument_of_extra,
  mapping_of_extra, exception_of, throw_cam_exception,
}

-- The exception that arrives: an unsupported command comes with the message of the one that was
-- sent in the place of the command, and the classes of the malamute client as the base class.
unfoldable pub received : CamException → CamException
received (unsupported_command command what) =
    unsupported_command what ("Unsupported command: '" ^^ (what ^^ "'"))
received mlm_client_is_null = generic "Malamute client is null"
received mlm_interrupted = generic "Malamute interrupted"
received mlm_failed = generic "Malamute Connection Failed"
received x = x

error_code-lt : (x : CamException) → error_code x < 256
unfolding error_code
error_code-lt x = ground arith

module _ ⦃e : External⦄ (laws : Laws) where
  open e use {Si, of_string, add_member, empty_si}
  open laws use {
    find_member-empty, find_member-add, get_member_lem, to_string-of_string,
    of_json-to_json_beautified,
  }

  mapping_of_extra_lem :
      (make : String → String → String → String → CamException)
      (asset service protocol message : String)
      → mapping_of_extra make (mapping_data asset service protocol) message
        ≡ cam (make asset service protocol message)
  unfolding mapping_of_extra
  mapping_of_extra_lem make asset service protocol message =
      simp
        (get_member_lem, find_member-add, find_member-empty, to_string-of_string, mapping_of_extra)

  argument_of_extra_lem :
      (argument message : String)
      → argument_of_extra (add_member "argument" (of_string argument) empty_si) message
        ≡ cam (bad_command_argument argument message)
  unfolding argument_of_extra
  argument_of_extra_lem argument message =
      simp
        (get_member_lem, find_member-add, find_member-empty, to_string-of_string, argument_of_extra)

  exception_of_lem :
      (x : CamException)
      → exception_of (error_code x) (what_arg x) (extra_data x) ≡ cam (received x)
  unfolding exception_of error_code what_arg extra_data received
  exception_of_lem (bad_command_argument argument what) = argument_of_extra_lem _ _
  exception_of_lem (mapping_does_not_exist asset service protocol what) =
      mapping_of_extra_lem mapping_does_not_exist _ _ _ _
  exception_of_lem (mapping_already_exists asset service protocol what) =
      mapping_of_extra_lem mapping_already_exists _ _ _ _
  exception_of_lem _ = refl

  -- The client's `throwCamException`, on the payload that `toJson` made of an exception, throws
  -- that exception, class, fields and message, but for two cases: an unsupported command holds the
  -- message of the exception that was sent as its command, in a message of its own, and the three
  -- exceptions of the malamute client arrive as the base class with their message.
  pub throw_cam_exception-to_json_payload :
      (x : CamException) (text : String)
      → to_json_payload x ≡ returns text
      → throw_cam_exception text ≡ cam (received x)
  unfolding throw_cam_exception to_json_payload error_info
  throw_cam_exception-to_json_payload x text h =
      rw
        (
          of_json-to_json_beautified (error_info x) h,
          read_payload-error_payload laws (error_code x) (what_arg x) (extra_data x)
              (error_code-lt x),
          throw_cam_exception,
        )
        (exception_of_lem x)
