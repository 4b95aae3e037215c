-- ===== src/Cam/Server/Views.antt =====
-- What each handler of the mapping server does to the abstract state
-- (lib/src/cam_credential_asset_mapping_server.cc, lib/src/cam_credential_asset_mapping_storage.cc).
use fty_security_wallet.Base.{
  String, not, none, List, [], ◌∷◌, Result, ok, err, hang, ◌≡◌, refl, ap, ◌∙◌, Bool-cases,
  Option-cases, inl, inr,
}
use fty_security_wallet.Base.{◌>>=◌ as ◌>>=ᵣ◌}
use fty_security_wallet.Base.Exec.{
  continue, continue-lift_last, pure, gets, lift, raise_if, ◌>>=◌, ◌>>◌,
}
use fty_security_wallet.Base.StringMap
use fty_security_wallet.External.{External}
use fty_security_wallet.Cam.Error.{Exn, throw_mapping_already_exists, throw_mapping_does_not_exist}
use fty_security_wallet.Cam.Mapping.{Mapping, mapping_info, deserialize, read_mapping, serialize}
use fty_security_wallet.Cam.Storage.{
  Storage, Handler, compute_hash, hash_of, has_empty_key, put_mapping, get_mapping, set_mapping,
  remove_mapping, is_mapping_existing, write_database, save,
}
use fty_security_wallet.Cam.Storage.View.{
  view, assign, put, put_lem, IsKeyed, Operation, create, replace, change, remove, apply, KeepsKey,
}
use mathlib.Core.Path.{fun_ext}
use fty_security_wallet.Cam.Server.{
  handle_create_mapping, handle_remove_mapping, handle_update_mapping, handle_change,
  handle_update_port_mapping, handle_update_credential_mapping, handle_update_status_mapping,
  handle_update_info_mapping, handle_get_mapping, handle_get_asset_mappings, handle_get_mappings,
  handle_get_credential_mappings, handle_count_credential_mappings, handle_get_all_mappings,
}
use fty_security_wallet.Cam.Server.Requests.{Command, run_command}
use fty_security_wallet.Cam.Server.Operations.{
  on_mapping, parsed, with_mapping, set_port, set_credential, set_status, set_info,
  operation_of_command,
}

pub continue-lift :
    {A B : Type 0} (r : Result Exn A) (g : A → Result Exn B) (f : B → Handler String) (s : Storage)
    → continue r (λ a. lift (g a) >>= f) s ≡ continue (r >>=ᵣ g) f s
continue-lift (ok a) g f s = refl
continue-lift (err x) g f s = refl
continue-lift hang g f s = refl

continue-pure :
    (r : Result Exn (Unit {0})) (reply : String) (s : Storage)
    → (continue r (λ _. pure reply) s).1 ≡ s
continue-pure (ok u) reply s = refl
continue-pure (err x) reply s = refl
continue-pure hang reply s = refl

module _ ⦃e : External⦄ where
  open e use {to_json_beautified}

  pub save-mappings : (s : Storage) → (save s).1.mappings ≡ s.mappings
  unfolding save write_database
  save-mappings s = refl

  abbrev pub saving : Handler String
  saving = save >> pure ""

  -- Saving leaves the mappings alone, also when it throws.
  saving-view : (s : Storage) → view (saving s).1 ≡ view s
  saving-view s =
      ap (λ t. view t) (continue-pure (save s).0 "" (save s).1)
      ∙ ap (λ ms hash. StringMap.lookup hash ms) (save-mappings s)

  set_mapping-view :
      (m : Mapping) (s : Storage) → view ((set_mapping m >> saving) s).1 ≡ put m (view s)
  unfolding set_mapping
  set_mapping-view m s = elim (Bool-cases (has_empty_key m)) [
    | inl bad ↦ rw bad
    | inr full ↦ rw full (
        saving-view (put_mapping m s)
        ∙ fun_ext (λ hash. StringMap.lookup-insert (hash_of m) hash m s.mappings))
  ]

  abbrev pub creating : Mapping → Handler String
  creating mapping = do
    exists ← gets (is_mapping_existing mapping.asset_id mapping.service_id mapping.protocol)
    raise_if exists
        (throw_mapping_already_exists mapping.asset_id mapping.service_id mapping.protocol)
    set_mapping mapping
    saving

  pub creating-view :
      (m : Mapping) (s : Storage) → view (creating m s).1 ≡ apply (create m) (view s)
  unfolding apply is_mapping_existing StringMap.member
  creating-view m s = elim (Option-cases (StringMap.lookup (hash_of m) s.mappings)) [
    | inl absent ↦ rw (absent, StringMap.member) (set_mapping-view m s)
    | inr (old, there) ↦ rw (there, StringMap.member)
  ]

  abbrev pub replacing : Mapping → Handler String
  replacing mapping = do
    exists ← gets (is_mapping_existing mapping.asset_id mapping.service_id mapping.protocol)
    raise_if (not exists)
        (throw_mapping_does_not_exist mapping.asset_id mapping.service_id mapping.protocol)
    set_mapping mapping
    saving

  replacing-view : (m : Mapping) (s : Storage) → view (replacing m s).1 ≡ apply (replace m) (view s)
  unfolding apply is_mapping_existing StringMap.member
  replacing-view m s = elim (Option-cases (StringMap.lookup (hash_of m) s.mappings)) [
    | inl absent ↦ rw (absent, StringMap.member)
    | inr (old, there) ↦ rw (there, StringMap.member) (set_mapping-view m s)
  ]

  abbrev pub changing : (Mapping → Mapping → Mapping) → Mapping → Handler String
  changing g received = do
    found ← gets (get_mapping received.asset_id received.service_id received.protocol)
    existing ← lift found
    set_mapping (g received existing)
    saving

  changing-view :
      (g : Mapping → Mapping → Mapping) (m : Mapping) (s : Storage)
      → KeepsKey g
      → IsKeyed (view s)
      → view (changing g m s).1 ≡ apply (change g m) (view s)
  unfolding apply get_mapping
  changing-view g m s keeps keyed = elim (Option-cases (StringMap.lookup (hash_of m) s.mappings)) [
    | inl absent ↦ rw (absent, get_mapping)
    | inr (old, there) ↦
        rw (there, get_mapping)
          (set_mapping-view (g m old) s
            ∙ put_lem (g m old) (hash_of m) (view s)
                ((keeps m old).0 ∙ (keyed (hash_of m) old there).0)
                ((keeps m old).1 ∙ (keyed (hash_of m) old there).1))
  ]

  removing-view :
      (asset service protocol : String) (s : Storage)
      → view ((remove_mapping asset service protocol >> saving) s).1
        ≡ apply (remove (compute_hash asset service protocol)) (view s)
  unfolding apply remove_mapping
  removing-view asset service protocol s =
      let hash = compute_hash asset service protocol in
      let after : Storage = record s { mappings = StringMap.erase hash s.mappings } in
      let erased : view after ≡ assign hash none (view s) =
        fun_ext (λ other. StringMap.lookup-erase hash other s.mappings) in
      elim (Bool-cases (StringMap.member hash s.mappings)) [
        | inl there ↦ rw there (saving-view after ∙ erased)
        | inr absent ↦ rw absent erased
      ]

  on_mapping-view :
      (r : Result Exn Mapping) (f : Mapping → Handler String) (make : Mapping → Operation)
      (s : Storage)
      → ((m : Mapping) → view (f m s).1 ≡ apply (make m) (view s))
      → view (continue r f s).1 ≡ apply (on_mapping r make) (view s)
  unfolding apply
  on_mapping-view (ok m) f make s h = h m
  on_mapping-view (err x) f make s h = refl
  on_mapping-view hang f make s h = refl

  parsed-view :
      (json : String) (f : Mapping → Handler String) (make : Mapping → Operation) (s : Storage)
      → ((m : Mapping) → view (f m s).1 ≡ apply (make m) (view s))
      → view (continue (deserialize json) (λ si. lift (read_mapping si) >>= f) s).1
        ≡ apply (on_mapping (parsed json) make) (view s)
  parsed-view json f make s h =
      ap (λ t. view t.1) (continue-lift (deserialize json) read_mapping f s)
      ∙ on_mapping-view (parsed json) f make s h

  handle_change-view :
      (g : Mapping → Mapping → Mapping) (params : List String) (s : Storage)
      → KeepsKey g
      → IsKeyed (view s)
      → view (handle_change g params s).1 ≡ apply (with_mapping params (change g)) (view s)
  unfolding handle_change apply
  handle_change-view g [] s keeps keyed = refl
  handle_change-view g (json ∷ rest) s keeps keyed =
      parsed-view json (changing g) (change g) s (λ m. changing-view g m s keeps keyed)

  -- The commands that write.
  pub run_command-view :
      (command : Command) (sender : String) (params : List String) (s : Storage)
      → IsKeyed (view s)
      → view (run_command command sender params s).1
        ≡ apply (operation_of_command command params) (view s)
  unfolding run_command operation_of_command handle_create_mapping handle_update_mapping
      handle_remove_mapping handle_update_port_mapping handle_update_credential_mapping
      handle_update_status_mapping handle_update_info_mapping handle_get_mapping
      handle_get_asset_mappings handle_get_mappings handle_get_all_mappings
      handle_get_credential_mappings handle_count_credential_mappings apply
  run_command-view Command.create_mapping sender [] s keyed = refl
  run_command-view Command.create_mapping sender (json ∷ rest) s keyed =
      parsed-view json creating create s (λ m. creating-view m s)
  run_command-view Command.update_mapping sender [] s keyed = refl
  run_command-view Command.update_mapping sender (json ∷ rest) s keyed =
      parsed-view json replacing replace s (λ m. replacing-view m s)
  run_command-view Command.update_port_mapping sender params s keyed =
      handle_change-view set_port params s (λ r x. (refl, refl)) keyed
  run_command-view Command.update_credential_mapping sender params s keyed =
      handle_change-view set_credential params s (λ r x. (refl, refl)) keyed
  run_command-view Command.update_status_mapping sender params s keyed =
      handle_change-view set_status params s (λ r x. (refl, refl)) keyed
  run_command-view Command.update_info_mapping sender params s keyed =
      handle_change-view set_info params s (λ r x. (refl, refl)) keyed
  run_command-view Command.remove_mapping sender (asset ∷ service ∷ protocol ∷ rest) s keyed =
      removing-view asset service protocol s
  run_command-view Command.remove_mapping sender [] s keyed = refl
  run_command-view Command.remove_mapping sender (asset ∷ []) s keyed = refl
  run_command-view Command.remove_mapping sender (asset ∷ service ∷ []) s keyed = refl
  run_command-view Command.get_mapping sender [] s keyed = refl
  run_command-view Command.get_mapping sender (asset ∷ []) s keyed = refl
  run_command-view Command.get_mapping sender (asset ∷ service ∷ []) s keyed = refl
  run_command-view Command.get_mapping sender (asset ∷ service ∷ protocol ∷ rest) s keyed =
      ap (λ t. view t.1)
        (continue-lift_last (get_mapping asset service protocol s) (λ m. serialize (mapping_info m))
          s)
  run_command-view Command.get_asset_mappings sender [] s keyed = refl
  run_command-view Command.get_asset_mappings sender (x ∷ rest) s keyed = refl
  run_command-view Command.get_mappings sender [] s keyed = refl
  run_command-view Command.get_mappings sender (x ∷ []) s keyed = refl
  run_command-view Command.get_mappings sender (x ∷ y ∷ rest) s keyed = refl
  run_command-view Command.get_all_mappings sender params s keyed = refl
  run_command-view Command.get_cred_mappings sender [] s keyed = refl
  run_command-view Command.get_cred_mappings sender (x ∷ rest) s keyed = refl
  run_command-view Command.count_cred_mappings sender [] s keyed = refl
  run_command-view Command.count_cred_mappings sender (x ∷ rest) s keyed = refl
