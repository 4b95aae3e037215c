-- ===== src/Cam/Accessor/Replies.antt =====
-- What the client makes of the replies of the mapping server (lib/src/cam_accessor.cc,
-- lib/src/cam_credential_asset_mapping_server.cc).
use fty_security_wallet.Base.{
  String, false, List, [], ◌∷◌, returns, Attempt-cases, Result, ok, err, hang, ◌≡◌, refl, ap, ◌==◌,
  eq_iff, Bool-cases, inl, inr,
}
use fty_security_wallet.Base.{◌>>=◌ as ◌>>=ᵣ◌}
use fty_security_wallet.Base.Exec.{Exec}
use fty_security_wallet.External.{External}
use fty_security_wallet.External.Laws.{Laws}
use fty_security_wallet.Cam.Error.{Exn, cam, standard, CamException, to_json_payload}
use fty_security_wallet.Cam.Error.RoundTrip.{received, throw_cam_exception-to_json_payload}
use fty_security_wallet.Cam.Mapping.{deserialize}
use fty_security_wallet.Cam.Server.Requests.{reply_of}
use fty_security_wallet.Cam.Accessor.{error_reply, check_reply, send_command, ask}

module _ ⦃e : External⦄ where
  open e use {Si, to_json, of_json}

  -- A reply that the client lets pass is the result of a handler.
  pub replied :
      (undefined : Result Exn (List String)) (r : Result Exn String) (payload : List String)
      → (reply_of r >>=ᵣ check_reply undefined) ≡ ok payload
      → (result : String) × (r ≡ ok result)
  unfolding reply_of check_reply
  replied undefined (ok result) payload h = (result, refl)
  replied undefined (err (standard message)) payload h = absurd (cc h)
  replied undefined (err (cam x)) payload h = elim (Attempt-cases (to_json_payload x)) [
    | inl (text, written) ↦ absurd (cc (rw (written, reply_of) at h))
    | inr (message, broken) ↦ absurd (cc (rw (broken, reply_of) at h))
  ]
  replied undefined hang payload h = absurd (cc h)

  module _ (laws : Laws) where
    open laws use {of_json-to_json, of_json-error}

    -- No text of a node is the first frame of an error reply.
    pub text-ne-error :
        (si : Si) (text : String) → to_json si ≡ returns text → (text == "ERROR") ≡ false
    text-ne-error si text h = elim (Bool-cases (text == "ERROR")) [
      | inr other ↦ other
      | inl same ↦
          let word : text ≡ "ERROR" = (eq_iff text "ERROR").0 same in
          absurd (cc (of_json-to_json si h, ap (λ t. of_json t) word, of_json-error.1))
    ]

    -- A question that the other end answers with the text of a node.
    pub ask_lem :
        {S A : Type 0} (undefined : Result Exn (List String))
        (sync_request : List String → Exec S Exn (List String)) (command text : String)
        (frames : List String) (read : Si → Result Exn A) (si : Si) (s t : S)
        → to_json si ≡ returns text
        → sync_request (command ∷ frames) s ≡ (ok (text ∷ []), t)
        → ask undefined sync_request command frames read s ≡ (read si, t)
    unfolding ask send_command check_reply deserialize
    ask_lem undefined sync_request command text frames read si s t written answered =
        rw answered (rw (text-ne-error si text written) (rw (of_json-to_json si written)))

    -- A question that the other end answers with an exception.
    pub ask_err :
        {S A : Type 0} (undefined : Result Exn (List String))
        (sync_request : List String → Exec S Exn (List String)) (command text : String)
        (frames : List String) (read : Si → Result Exn A) (x : CamException) (s t : S)
        → to_json_payload x ≡ returns text
        → sync_request (command ∷ frames) s ≡ (ok ("ERROR" ∷ text ∷ []), t)
        → ask undefined sync_request command frames read s ≡ (err (cam (received x)), t)
    unfolding ask send_command check_reply error_reply
    ask_err undefined sync_request command text frames read x s t written answered =
        rw answered (rw (throw_cam_exception-to_json_payload laws x text written) refl)
