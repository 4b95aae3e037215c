-- ===== src/Cam/Accessor/Service.antt =====
-- The client with the server at the other end (lib/src/cam_accessor.cc,
-- lib/src/cam_credential_asset_mapping_server.cc).
use fty_security_wallet.Base.{
  ℕ, ◌%◌, String, false, some, none, List, [], ◌∷◌, All, Attempt-cases, ok-injective, returns,
  Result, ok, err, ◌≡◌, sym, ap, ◌∙◌, subst, if◌then◌else◌, eqb, is_empty, Bool-cases, Option-cases,
  inl, inr,
}
use fty_security_wallet.Base.{◌>>=◌ as ◌>>=ᵣ◌}
use fty_security_wallet.Base.Exec.{continue, continue-lift_last, continue-eq-ok, pure}
use fty_security_wallet.Base.StringMap
use fty_security_wallet.Base.StringMap.{StringMap}
use fty_security_wallet.External.{External}
use fty_security_wallet.External.Laws.{Laws}
use fty_security_wallet.Cam.Error.{
  Exn, CamException, mapping_message, mapping_does_not_exist, throw_mapping_does_not_exist,
  to_json_payload,
}
use fty_security_wallet.Cam.Error.RoundTrip.{received}
use fty_security_wallet.Cam.Mapping.{
  Mapping, mapping_info, mappings_info, read_mapping, read_mappings, deserialize, serialize,
}
use fty_security_wallet.Cam.Mapping.RoundTrip.{
  HasByte, read_mapping-mapping_info, read_mappings-mappings_info,
}
use fty_security_wallet.Cam.Storage.{Storage, compute_hash, hash_of, has_empty_key}
use fty_security_wallet.Cam.Storage
use fty_security_wallet.Cam.Storage.View.{apply, view, apply-create_new}
use fty_security_wallet.Cam.Server.{
  handle_get_mapping, handle_create_mapping, handle_get_all_mappings,
}
use fty_security_wallet.Cam.Server.Requests.{
  reply_of, replying, run_named, run_command, command_of, handle_request,
}
use fty_security_wallet.Cam.Server.Views.{creating, creating-view}
use fty_security_wallet.Cam.Accessor
use fty_security_wallet.Cam.Accessor.{send_command, send_mapping, check_reply, count_mappings}
use fty_security_wallet.Cam.Accessor.Counter.{uses, lookup-count_all}
use fty_security_wallet.Cam.Accessor.Replies.{replied, ask_lem, ask_err}

abbrev pub missing : String → String → String → CamException
missing asset service protocol =
    mapping_does_not_exist asset service protocol
      (mapping_message asset service protocol "' do not exist")

module _ ⦃e : External⦄ (laws : Laws) (undefined : Result Exn (List String)) (sender : String) where
  open e use {Si, to_json}
  open laws use {of_json-to_json}

  serialize-eq-ok : (si : Si) (text : String) → serialize si ≡ ok text → to_json si ≡ returns text
  unfolding serialize
  serialize-eq-ok si text h = elim (Attempt-cases (to_json si)) [
    | inl (written, there) ↦ there ∙ ap (λ t. returns t) (ok-injective (rw there at h))
    | inr (message, broken) ↦ absurd (cc (rw broken at h))
  ]

  served_get :
      (asset service protocol text : String) (m : Mapping) (s : Storage)
      → view s (compute_hash asset service protocol) ≡ some m
      → to_json (mapping_info m) ≡ returns text
      → handle_request sender ("GET_MAPPING" ∷ asset ∷ service ∷ protocol ∷ []) s
        ≡ (ok (text ∷ []), s)
  unfolding handle_request replying run_named command_of run_command reply_of handle_get_mapping
      Storage.get_mapping serialize
  served_get asset service protocol text m s stored written =
      rw (stored, Storage.get_mapping) (rw written)

  served_missing :
      (asset service protocol text : String) (s : Storage)
      → view s (compute_hash asset service protocol) ≡ none
      → to_json_payload (missing asset service protocol) ≡ returns text
      → handle_request sender ("GET_MAPPING" ∷ asset ∷ service ∷ protocol ∷ []) s
        ≡ (ok ("ERROR" ∷ text ∷ []), s)
  unfolding handle_request replying run_named command_of run_command reply_of handle_get_mapping
      Storage.get_mapping
  served_missing asset service protocol text s absent written =
      rw (absent, Storage.get_mapping) (rw (written, reply_of))

  -- The client asks for a mapping that is stored and gets it; the server stays as it is.
  pub get_mapping-stored :
      (asset service protocol text : String) (m : Mapping) (s : Storage)
      → HasByte m
      → view s (compute_hash asset service protocol) ≡ some m
      → to_json (mapping_info m) ≡ returns text
      → Accessor.get_mapping undefined (handle_request sender) asset service protocol s ≡ (ok m, s)
  unfolding Accessor.get_mapping
  get_mapping-stored asset service protocol text m s byte stored written =
      ask_lem laws undefined (handle_request sender) "GET_MAPPING" text
        (asset ∷ service ∷ protocol ∷ []) read_mapping (mapping_info m) s s written
        (served_get asset service protocol text m s stored written)
      ∙ ap (λ r. (r, s)) (read_mapping-mapping_info laws m byte)

  -- The client asks for a mapping that is not stored: it throws the exception that the server
  -- threw, which names the asset, the service and the protocol.
  pub get_mapping-missing :
      (asset service protocol text : String) (s : Storage)
      → view s (compute_hash asset service protocol) ≡ none
      → to_json_payload (missing asset service protocol) ≡ returns text
      → Accessor.get_mapping undefined (handle_request sender) asset service protocol s
        ≡ (err (throw_mapping_does_not_exist asset service protocol), s)
  unfolding Accessor.get_mapping received
  get_mapping-missing asset service protocol text s absent written =
      ask_err laws undefined (handle_request sender) "GET_MAPPING" text
        (asset ∷ service ∷ protocol ∷ []) read_mapping (missing asset service protocol) s s written
        (served_missing asset service protocol text s absent written)

  created :
      (m : Mapping) (s : Storage) (result : String)
      → (creating m s).0 ≡ ok result
      → view (creating m s).1 (hash_of m) ≡ some m
  unfolding Storage.is_mapping_existing StringMap.member Storage.set_mapping apply
  created m s result h = elim (Option-cases (StringMap.lookup (hash_of m) s.mappings)) [
    | inr (old, there) ↦ absurd (cc (rw (there, StringMap.member) at h))
    | inl absent ↦ elim (Bool-cases (has_empty_key m)) [
      | inl bad ↦ absurd (cc (rw bad at (rw (absent, StringMap.member) at h)))
      | inr full ↦
          ap (λ f. f (hash_of m)) (creating-view m s) ∙ apply-create_new m (view s) absent full
    ]
  ]

  create_request :
      (m : Mapping) (text : String) (s : Storage)
      → HasByte m
      → to_json (mapping_info m) ≡ returns text
      → handle_create_mapping sender (text ∷ []) s ≡ creating m s
  unfolding handle_create_mapping deserialize
  create_request m text s byte written =
      rw (of_json-to_json (mapping_info m) written) (rw (read_mapping-mapping_info laws m byte))

  sent_create :
      (m : Mapping) (text : String) (s : Storage)
      → HasByte m
      → to_json (mapping_info m) ≡ returns text
      → send_command undefined (handle_request sender) "CREATE_MAPPING" (text ∷ []) s
        ≡ (reply_of (creating m s).0 >>=ᵣ check_reply undefined, (creating m s).1)
  unfolding send_command handle_request replying run_named command_of run_command
  sent_create m text s byte written =
      continue-lift_last (reply_of (handle_create_mapping sender (text ∷ []) s).0)
        (check_reply undefined) (handle_create_mapping sender (text ∷ []) s).1
      ∙ ap (λ c. (reply_of c.0 >>=ᵣ check_reply undefined, c.1))
          (create_request m text s byte written)

  -- A mapping that the client creates, with success, is what it gets afterwards under the same key.
  pub get_mapping-create_mapping :
      (m : Mapping) (s t : Storage)
      → HasByte m
      → Accessor.create_mapping undefined (handle_request sender) m s ≡ (ok tt, t)
      → Accessor.get_mapping undefined (handle_request sender) m.asset_id m.service_id m.protocol t
        ≡ (ok m, t)
  unfolding Accessor.create_mapping send_mapping
  get_mapping-create_mapping m s t byte h =
      let (text, serialized, h1) = continue-eq-ok (serialize (mapping_info m)) _ s h in
      let written = serialize-eq-ok (mapping_info m) text serialized in
      let (payload, passed, h2) =
        continue-eq-ok (reply_of (creating m s).0 >>=ᵣ check_reply undefined) (λ _. pure tt)
          (creating m s).1
          (ap (λ p. continue p.0 (λ _. pure tt) p.1) (sym (sent_create m text s byte written))
            ∙ h1) in
      let (result, returned) = replied undefined (creating m s).0 payload passed in
      let stored = created m s result returned in
      get_mapping-stored m.asset_id m.service_id m.protocol text m t byte
        (subst (λ t. view t (hash_of m) ≡ some m) (ap (λ p. p.1) h2) stored) written

  served_all :
      (text : String) (s : Storage)
      → to_json (mappings_info (Storage.get_all_mappings s)) ≡ returns text
      → handle_request sender ("GET_ALL_MAPPINGS" ∷ []) s ≡ (ok (text ∷ []), s)
  unfolding handle_request replying run_named command_of run_command reply_of
      handle_get_all_mappings serialize
  served_all text s written = rw written

  -- The client counts the credentials of all mappings of the server: the counter of a credential
  -- with a name is the number of the mappings that use it, in a `uint32_t`, and a credential that
  -- no mapping uses has none. The server stays as it is.
  pub get_all_credential_counter_lem :
      (text : String) (s : Storage)
      → All HasByte (Storage.get_all_mappings s)
      → to_json (mappings_info (Storage.get_all_mappings s)) ≡ returns text
      → (counters : StringMap ℕ) × (Accessor.get_all_credential_counter undefined
            (handle_request sender)
            s
          ≡ (ok counters, s))
        × ((credential : String)
            → is_empty credential ≡ false
            → StringMap.lookup credential counters ≡ (
                if eqb (uses credential (Storage.get_all_mappings s)) 0
                then none
                else some (uses credential (Storage.get_all_mappings s) % 4294967296)))
  unfolding Accessor.get_all_credential_counter Accessor.get_all_mappings
  get_all_credential_counter_lem text s bytes written =
      let ms = Storage.get_all_mappings s in
      let asked =
        ask_lem laws undefined (handle_request sender) "GET_ALL_MAPPINGS" text [] read_mappings
          (mappings_info ms) s s written (served_all text s written)
        ∙ ap (λ r. (r, s)) (read_mappings-mappings_info laws ms bytes) in
      (
        count_mappings ms [],
        ap (λ p. continue p.0 (λ mappings. pure (count_mappings mappings [])) p.1) asked,
        λ credential named. lookup-count_all credential ms named,
      )

  -- The client's `isMappingExisting` answers as the server's storage does, if the reply of the
  -- server can be written as JSON.
  pub is_mapping_existing_lem :
      (asset service protocol : String) (s : Storage)
      → ((m : Mapping)
          → view s (compute_hash asset service protocol) ≡ some m
          → HasByte m × ((text : String) × (to_json (mapping_info m) ≡ returns text)))
      → (text : String) × (to_json_payload (missing asset service protocol) ≡ returns text)
      → Accessor.is_mapping_existing undefined (handle_request sender) asset service protocol s
        ≡ (ok (Storage.is_mapping_existing asset service protocol s), s)
  unfolding Accessor.is_mapping_existing Storage.is_mapping_existing StringMap.member
  is_mapping_existing_lem asset service protocol s there (text, payload) =
      elim (Option-cases (StringMap.lookup (compute_hash asset service protocol) s.mappings)) [
        | inl absent ↦
            rw (absent, StringMap.member)
              (ap (λ p. (Accessor.exists_of p.0, p.1))
                (get_mapping-missing asset service protocol text s absent payload))
        | inr (m, stored) ↦
            let (byte, (reply, written)) = there m stored in
            rw (stored, StringMap.member)
              (ap (λ p. (Accessor.exists_of p.0, p.1))
                (get_mapping-stored asset service protocol reply m s byte stored written))
      ]
