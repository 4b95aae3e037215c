-- ===== src/Cam/Accessor.antt =====
-- Class `Accessor`, the client of the mapping server (lib/include/cam_accessor.h,
-- lib/src/cam_accessor.cc). The transport, `mlm::MlmSyncClient::syncRequestWithReply`, is a
-- parameter: a step on the state of whatever is at the other end.
pub mod Counter
pub mod Replies
pub mod Service
use fty_security_wallet.Base.{
  ℕ, ◌+◌, ◌%◌, String, Bool, true, false, Option, some, none, List, [], ◌∷◌, Result, ok, err, hang,
  or_throw, is_empty, ◌==◌, if◌then◌else◌,
}
use fty_security_wallet.Base.Exec.{Exec, continue, pure, lift, ◌>>=◌, ◌>>◌}
use fty_security_wallet.Base.StringMap
use fty_security_wallet.Base.StringMap.{StringMap}
use fty_security_wallet.External.{External}
use fty_security_wallet.Cam.Error.{
  Exn, cam, standard, protocol_error, mapping_does_not_exist, throw_cam_exception,
}
use fty_security_wallet.Cam.Mapping.{
  Mapping, Status, new_mapping, mapping_info, read_mapping, read_mappings, deserialize, serialize,
}

-- One round of the loop of `getAllCredentialCounter`; the counters are `uint32_t`.
unfoldable pub count_mapping : Mapping → StringMap ℕ → StringMap ℕ
count_mapping m counters =
    if is_empty m.credential_id
    then counters
    else elim (StringMap.lookup m.credential_id counters) [
      | none ↦ StringMap.insert m.credential_id 1 counters
      | some n ↦ StringMap.insert m.credential_id ((n + 1) % 4294967296) counters
    ]

unfoldable pub count_mappings : List Mapping → StringMap ℕ → StringMap ℕ
unfolding count_mapping
count_mappings [] counters = counters
count_mappings (m ∷ ms) counters = count_mappings ms (count_mapping m counters)

module _ ⦃e : External⦄ where
  open e use {Si, to_word, out_of_range}

  -- a reply whose first frame is "ERROR"
  unfoldable pub error_reply : List String → Exn
  error_reply (text ∷ []) = throw_cam_exception text
  error_reply _ = cam (protocol_error "Missing data for error")

  -- The end of `sendCommand`; `undefined` is what reading the first of no frames does.
  unfoldable pub check_reply : Result Exn (List String) → List String → Result Exn (List String)
  unfolding error_reply
  check_reply undefined [] = undefined
  check_reply undefined (frame ∷ rest) =
      if frame == "ERROR" then err (error_reply rest) else ok (frame ∷ rest)

  -- `payload.at(0)`
  abbrev pub first_frame : List String → Result Exn String
  first_frame (frame ∷ rest) = ok frame
  first_frame [] = err (standard out_of_range)

  -- `si >>= counter`
  abbrev pub read_counter : Si → Result Exn ℕ
  read_counter si = or_throw standard (to_word si)

  -- the handler of the `try` of `isMappingExisting`
  abbrev pub exists_of : Result Exn Mapping → Result Exn Bool
  exists_of (ok m) = ok true
  exists_of (err (cam (mapping_does_not_exist asset service protocol what))) = ok false
  exists_of (err x) = err x
  exists_of hang = hang

  module _ {S : Type 0} (undefined : Result Exn (List String))
      (sync_request : List String → Exec S Exn (List String)) where
    -- `sendCommand`
    unfoldable pub send_command : String → List String → Exec S Exn (List String)
    unfolding check_reply
    send_command command frames = do
      received ← sync_request (command ∷ frames)
      lift (check_reply undefined received)

    -- a command that sends a mapping
    unfoldable pub send_mapping : String → Mapping → Exec S Exn (Unit {0})
    unfolding send_command
    send_mapping command mapping = do
      text ← lift (serialize (mapping_info mapping))
      received ← send_command command (text ∷ [])
      pure tt

    -- a command whose reply is read
    unfoldable pub ask : {A : Type 0} → String → List String → (Si → Result Exn A) → Exec S Exn A
    unfolding send_command
    ask command frames read = do
      payload ← send_command command frames
      text ← lift (first_frame payload)
      si ← lift (deserialize text)
      lift (read si)

    -- the two overloads of `createMapping`
    unfoldable pub create_mapping : Mapping → Exec S Exn (Unit {0})
    unfolding send_mapping
    create_mapping = send_mapping "CREATE_MAPPING"

    pub create_mapping_of :
        String
        → String
        → String
        → String
        → String
        → Status
        → StringMap String
        → Exec S Exn (Unit {0})
    unfolding create_mapping
    create_mapping_of asset service protocol port credential status extended_info =
        create_mapping (record {
          asset_id = asset;
          service_id = service;
          protocol = protocol;
          port = port;
          credential_id = credential;
          status = status;
          extended_info = extended_info;
        })

    unfoldable pub update_mapping : Mapping → Exec S Exn (Unit {0})
    unfolding send_mapping
    update_mapping = send_mapping "UPDATE_MAPPING"

    unfoldable pub get_mapping : String → String → String → Exec S Exn Mapping
    unfolding ask
    get_mapping asset service protocol =
        ask "GET_MAPPING" (asset ∷ service ∷ protocol ∷ []) read_mapping

    unfoldable pub remove_mapping : String → String → String → Exec S Exn (Unit {0})
    unfolding send_command
    remove_mapping asset service protocol = do
      received ← send_command "REMOVE_MAPPING" (asset ∷ service ∷ protocol ∷ [])
      pure tt

    -- a new mapping with a key
    abbrev keyed : String → String → String → Mapping
    keyed asset service protocol = record new_mapping {
      asset_id = asset;
      service_id = service;
      protocol = protocol;
    }

    unfoldable pub update_credential_id : String → String → String → String → Exec S Exn (Unit {0})
    unfolding send_mapping
    update_credential_id asset service protocol credential =
        send_mapping "UPDATE_CREDENTIAL_MAPPING"
          (record (keyed asset service protocol) { credential_id = credential })

    unfoldable pub update_port : String → String → String → String → Exec S Exn (Unit {0})
    unfolding send_mapping
    update_port asset service protocol port =
        send_mapping "UPDATE_PORT_MAPPING" (record (keyed asset service protocol) { port = port })

    unfoldable pub update_status : String → String → String → Status → Exec S Exn (Unit {0})
    unfolding send_mapping
    update_status asset service protocol status =
        send_mapping "UPDATE_STATUS_MAPPING"
          (record (keyed asset service protocol) { status = status })

    unfoldable pub update_extended_info :
        String → String → String → StringMap String → Exec S Exn (Unit {0})
    unfolding send_mapping
    update_extended_info asset service protocol extended_info =
        send_mapping "UPDATE_INFO_MAPPING"
          (record (keyed asset service protocol) { extended_info = extended_info })

    unfoldable pub is_mapping_existing : String → String → String → Exec S Exn Bool
    unfolding get_mapping
    is_mapping_existing asset service protocol s =
        let (r, t) = get_mapping asset service protocol s in (exists_of r, t)

    unfoldable pub get_asset_mappings : String → Exec S Exn (List Mapping)
    unfolding ask
    get_asset_mappings asset = ask "GET_ASSET_MAPPINGS" (asset ∷ []) read_mappings

    unfoldable pub get_mappings : String → String → Exec S Exn (List Mapping)
    unfolding ask
    get_mappings asset service = ask "GET_MAPPINGS" (asset ∷ service ∷ []) read_mappings

    unfoldable pub get_all_mappings : Exec S Exn (List Mapping)
    unfolding ask
    get_all_mappings = ask "GET_ALL_MAPPINGS" [] read_mappings

    unfoldable pub get_credential_mappings : String → Exec S Exn (List Mapping)
    unfolding ask
    get_credential_mappings credential = ask "GET_CRED_MAPPINGS" (credential ∷ []) read_mappings

    unfoldable pub count_credential_mappings : String → Exec S Exn ℕ
    unfolding ask
    count_credential_mappings credential = ask "COUNT_CRED_MAPPINGS" (credential ∷ []) read_counter

    -- `getAllCredentialCounter`
    unfoldable pub get_all_credential_counter : Exec S Exn (StringMap ℕ)
    unfolding get_all_mappings count_mappings
    get_all_credential_counter = do mappings ← get_all_mappings; pure (count_mappings mappings [])
