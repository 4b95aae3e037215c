-- ===== src/External/Payload.antt =====
-- The payload of an error reply, which both servers of the program write alike and both clients
-- read alike (lib/src/secw_exception.cc, lib/src/cam_exception.cc).
use fty_security_wallet.Base.{ℕ, ◌<◌, String, ◌≡◌, returns, throws}
use fty_security_wallet.External.{External, read_string, read_byte}
use fty_security_wallet.External.Laws.{Laws}

module _ ⦃e : External⦄ where
  open e use {Si, empty_si, add_member, get_member, of_string, of_number}

  -- `operator<<=` on an empty node: the code, the message, and what `fillSerializationInfo` adds.
  abbrev pub error_payload : ℕ → String → Si → Si
  error_payload code message extra =
      add_member "extraData" extra (
        add_member "whatArg" (of_string message) (add_member "errorCode" (of_number code) empty_si))

  -- The three reads in the `try` whose handler is empty: what was read before a throw stays.
  unfoldable pub read_payload : Si → ℕ × String × Si
  read_payload si = elim (read_byte "errorCode" si) [
    | throws _ ↦ (0, "", empty_si)
    | returns code ↦ elim (read_string "whatArg" si) [
      | throws _ ↦ (code, "", empty_si)
      | returns message ↦ elim (get_member "extraData" si) [
        | throws _ ↦ (code, message, empty_si)
        | returns extra ↦ (code, message, extra)
      ]
    ]
  ]

  module _ (laws : Laws) where
    open laws use {
      find_member-empty, find_member-add, get_member_lem, to_string-of_string, to_byte-of_number,
    }

    pub read_payload-error_payload :
        (code : ℕ) (message : String) (extra : Si)
        → code < 256
        → read_payload (error_payload code message extra) ≡ (code, message, extra)
    unfolding read_payload
    read_payload-error_payload code message extra h = simp (
      get_member_lem,
      find_member-add,
      find_member-empty,
      to_string-of_string,
      to_byte-of_number _ h,
      read_payload,
    )
