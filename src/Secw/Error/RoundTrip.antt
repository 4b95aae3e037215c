-- ===== src/Secw/Error/RoundTrip.antt =====
-- An exception that the server sends is the exception that the client throws
-- (lib/src/secw_exception.cc).
use fty_security_wallet.Base.{String, ◌<◌, ◌≡◌, refl, returns, arith, eq_refl}
use fty_security_wallet.External.{External}
use fty_security_wallet.External.Laws.{Laws}
use fty_security_wallet.External.Payload.{read_payload-error_payload}
use fty_security_wallet.Secw.Error.{
  SecwException, unknown_document_type, unknown_portfolio, invalid_document_format,
  document_do_not_exist, unknown_usage_id, name_already_exists, name_does_not_exist,
  mlm_client_is_null, mlm_interrupted, mlm_failed, secw, error_code, what_arg, extra_data,
  error_info, to_json_payload, from_extra, exception_of, throw_secw_exception,
}

-- The exceptions that the client side raises itself are not sent.
abbrev pub IsSent : SecwException → Type 0
IsSent mlm_client_is_null = ⊥
IsSent mlm_interrupted = ⊥
IsSent mlm_failed = ⊥
IsSent _ = Unit

error_code-lt : (x : SecwException) → error_code x < 256
unfolding error_code
error_code-lt x = ground arith

module _ ⦃e : External⦄ (laws : Laws) where
  open e use {Si, of_number, of_string, add_member, empty_si}
  open laws use {
    find_member-empty, find_member-add, get_member_lem, to_string-of_string, to_byte-of_number,
    of_json-to_json_beautified,
  }

  from_extra_lem :
      (make : String → String → SecwException) (key field message : String)
      → from_extra make key (add_member key (of_string field) empty_si) message
        ≡ secw (make field message)
  unfolding from_extra
  from_extra_lem make key field message =
      simp (get_member_lem, find_member-add, find_member-empty, eq_refl, from_extra)
        (simp to_string-of_string)

  exception_of_lem :
      (x : SecwException)
      → IsSent x
      → exception_of (error_code x) (what_arg x) (extra_data x) ≡ secw x
  unfolding exception_of error_code what_arg extra_data
  exception_of_lem (unknown_document_type type what) h = from_extra_lem unknown_document_type _ _ _
  exception_of_lem (unknown_portfolio name what) h = from_extra_lem unknown_portfolio _ _ _
  exception_of_lem (invalid_document_format field what) h =
      from_extra_lem invalid_document_format _ _ _
  exception_of_lem (document_do_not_exist id what) h = from_extra_lem document_do_not_exist _ _ _
  exception_of_lem (unknown_usage_id id what) h = from_extra_lem unknown_usage_id _ _ _
  exception_of_lem (name_already_exists name what) h = from_extra_lem name_already_exists _ _ _
  exception_of_lem (name_does_not_exist name what) h = from_extra_lem name_does_not_exist _ _ _
  exception_of_lem mlm_client_is_null h = absurd h
  exception_of_lem mlm_interrupted h = absurd h
  exception_of_lem mlm_failed h = absurd h
  exception_of_lem _ h = refl

  -- For every exception that the server sends (all but the three of the malamute client): the
  -- client's `throwSecwException`, on the payload that `toJson` made of the exception, throws that
  -- same exception, class, field and message.
  pub throw_secw_exception-to_json_payload :
      (x : SecwException) (text : String)
      → IsSent x
      → to_json_payload x ≡ returns text
      → throw_secw_exception text ≡ secw x
  unfolding throw_secw_exception to_json_payload error_info
  throw_secw_exception-to_json_payload x text sent h =
      rw
        (
          of_json-to_json_beautified (error_info x) h,
          read_payload-error_payload laws (error_code x) (what_arg x) (extra_data x)
              (error_code-lt x),
          throw_secw_exception,
        )
        (exception_of_lem x sent)
