-- ===== src/Cam/Server/Refinement.antt =====
-- The mapping server implements the operations on the abstract state, over any sequence of requests
-- (lib/src/cam_credential_asset_mapping_server.cc, lib/src/cam_credential_asset_mapping_storage.cc).
use fty_security_wallet.Base.{
  String, ◌||◌, Option, some, none, List, [], ◌∷◌, Result, ok, err, hang, ◌≡◌, refl, ap, sym, ◌∙◌,
  subst, ◌==◌, Bool-cases, inl, inr,
}
use fty_security_wallet.Base.StringMap
use fty_security_wallet.External.{External}
use fty_security_wallet.Cam.Error.{Exn}
use fty_security_wallet.Cam.Mapping.{Mapping}
use fty_security_wallet.Cam.Storage.{
  Storage, has_empty_key, hash_of, put_mapping, set_mapping, set_mappings, load_database, open_with,
  open_storage,
}
use fty_security_wallet.Cam.Storage.View.{
  View, view, put, put_lem, put-IsKeyed, IsKeyed, Operation, create, replace, apply, IsLawful,
  apply-IsKeyed,
}
use mathlib.Core.Path.{fun_ext}
use fty_security_wallet.Cam.Server.Requests.{
  Command, command_of, run_named, replying, handle_request,
}
use fty_security_wallet.Cam.Server.Operations.{
  on_mapping, parsed, with_mapping, operation_of_command, operation_of_named, operation_of,
}
use fty_security_wallet.Cam.Server.Views.{save-mappings, run_command-view}

on_mapping-IsLawful :
    (r : Result Exn Mapping) (make : Mapping → Operation)
    → ((m : Mapping) → IsLawful (make m))
    → IsLawful (on_mapping r make)
on_mapping-IsLawful (ok m) make h = h m
on_mapping-IsLawful (err x) make h = tt
on_mapping-IsLawful hang make h = tt

module _ ⦃e : External⦄ where
  with_mapping-IsLawful :
      (params : List String) (make : Mapping → Operation)
      → ((m : Mapping) → IsLawful (make m))
      → IsLawful (with_mapping params make)
  with_mapping-IsLawful [] make h = tt
  with_mapping-IsLawful (json ∷ rest) make h = on_mapping-IsLawful (parsed json) make h

  operation_of_command-IsLawful :
      (command : Command) (params : List String) → IsLawful (operation_of_command command params)
  unfolding operation_of_command
  operation_of_command-IsLawful Command.create_mapping params =
      with_mapping-IsLawful params create (λ m. tt)
  operation_of_command-IsLawful Command.update_mapping params =
      with_mapping-IsLawful params replace (λ m. tt)
  operation_of_command-IsLawful Command.update_port_mapping params =
      with_mapping-IsLawful params _ (λ m r x. (refl, refl))
  operation_of_command-IsLawful Command.update_credential_mapping params =
      with_mapping-IsLawful params _ (λ m r x. (refl, refl))
  operation_of_command-IsLawful Command.update_status_mapping params =
      with_mapping-IsLawful params _ (λ m r x. (refl, refl))
  operation_of_command-IsLawful Command.update_info_mapping params =
      with_mapping-IsLawful params _ (λ m r x. (refl, refl))
  operation_of_command-IsLawful Command.remove_mapping [] = tt
  operation_of_command-IsLawful Command.remove_mapping (a ∷ []) = tt
  operation_of_command-IsLawful Command.remove_mapping (a ∷ s ∷ []) = tt
  operation_of_command-IsLawful Command.remove_mapping (a ∷ s ∷ p ∷ rest) = tt
  operation_of_command-IsLawful _ params = tt

  operation_of_named-IsLawful :
      (o : Option Command) (params : List String) → IsLawful (operation_of_named o params)
  unfolding operation_of_named
  operation_of_named-IsLawful (some command) params = operation_of_command-IsLawful command params
  operation_of_named-IsLawful none params = tt

  operation_of-IsLawful : (frames : List String) → IsLawful (operation_of frames)
  unfolding operation_of
  operation_of-IsLawful [] = tt
  operation_of-IsLawful (cmd ∷ params) = elim (Bool-cases (cmd == "ERROR" || cmd == "OK")) [
    | inl acknowledged ↦ rw acknowledged tt
    | inr request ↦ rw request (operation_of_named-IsLawful (command_of cmd) params)
  ]

  run_named-view :
      (cmd : String) (o : Option Command) (sender : String) (params : List String) (s : Storage)
      → IsKeyed (view s)
      → view (run_named cmd o sender params s).1 ≡ apply (operation_of_named o params) (view s)
  unfolding run_named operation_of_named apply
  run_named-view cmd (some command) sender params s keyed =
      run_command-view command sender params s keyed
  run_named-view cmd none sender params s keyed = refl

  -- From a state where each mapping stands under its own hash, every request changes the abstract
  -- state as its operation says: an operation for each command that writes, nothing for a request
  -- that reads, is refused or is unknown.
  pub handle_request-view :
      (sender : String) (frames : List String) (s : Storage)
      → IsKeyed (view s)
      → view (handle_request sender frames s).1 ≡ apply (operation_of frames) (view s)
  unfolding handle_request replying operation_of apply
  handle_request-view sender [] s keyed = refl
  handle_request-view sender (cmd ∷ params) s keyed =
      elim (Bool-cases (cmd == "ERROR" || cmd == "OK")) [
        | inl acknowledged ↦ rw acknowledged
        | inr request ↦ rw request (run_named-view cmd (command_of cmd) sender params s keyed)
      ]

  -- Requests of any senders, one after the other.
  unfoldable pub run : List (String × List String) → Storage → Storage
  unfolding handle_request
  run [] s = s
  run ((sender, frames) ∷ requests) s = run requests (handle_request sender frames s).1

  pub replay : List (String × List String) → View → View
  unfolding operation_of apply
  replay [] f = f
  replay ((sender, frames) ∷ requests) f = replay requests (apply (operation_of frames) f)

  -- From a state where each mapping stands under its own hash, after any sequence of requests each
  -- mapping stands under its own hash, with no empty identifier in its key, and the state is the
  -- one that the operations of the requests lead to.
  pub run_refines :
      (requests : List (String × List String)) (s : Storage)
      → IsKeyed (view s)
      → IsKeyed (view (run requests s)) × (view (run requests s) ≡ replay requests (view s))
  unfolding run replay
  run_refines [] s keyed = (keyed, refl)
  run_refines ((sender, frames) ∷ requests) s keyed =
      let step = handle_request-view sender frames s keyed in
      let kept =
        subst IsKeyed (sym step)
          (apply-IsKeyed (operation_of frames) (view s) (operation_of-IsLawful frames) keyed) in
      let (after, same) = run_refines requests (handle_request sender frames s).1 kept in
      (after, same ∙ ap (λ f. replay requests f) step)

  set_mapping-IsKeyed :
      (m : Mapping) (s : Storage) → IsKeyed (view s) → IsKeyed (view (set_mapping m s).1)
  unfolding set_mapping
  set_mapping-IsKeyed m s keyed = elim (Bool-cases (has_empty_key m)) [
    | inl bad ↦ rw bad keyed
    | inr full ↦
        let put_there : view (put_mapping m s) ≡ put m (view s) =
          fun_ext (λ hash. StringMap.lookup-insert (hash_of m) hash m s.mappings)
          ∙ sym (put_lem m (hash_of m) (view s) refl full) in
        rw full (subst IsKeyed (sym put_there) (put-IsKeyed m (view s) keyed))
  ]

  set_mappings-IsKeyed :
      (ms : List Mapping) (s : Storage) → IsKeyed (view s) → IsKeyed (view (set_mappings ms s))
  unfolding set_mappings
  set_mappings-IsKeyed [] s keyed = keyed
  set_mappings-IsKeyed (m ∷ ms) s keyed =
      set_mappings-IsKeyed ms (set_mapping m s).1 (set_mapping-IsKeyed m s keyed)

  open_with-IsKeyed :
      (s : Storage) (r : Result Exn (List Mapping))
      → IsKeyed (view s)
      → IsKeyed (view (open_with s r).1)
  unfolding open_with
  open_with-IsKeyed s (ok ms) keyed =
      subst (λ t. IsKeyed (λ hash. StringMap.lookup hash t))
        (sym (save-mappings (set_mappings ms s))) (set_mappings-IsKeyed ms s keyed)
  open_with-IsKeyed s (err x) keyed = keyed
  open_with-IsKeyed s hang keyed = keyed

  -- Whatever the database file holds, the server starts with each mapping under its own hash and
  -- with no empty identifier in its key.
  pub open_storage-IsKeyed : (database : Option String) → IsKeyed (view (open_storage database).1)
  unfolding open_storage StringMap.lookup
  open_storage-IsKeyed database =
      open_with-IsKeyed (record { mappings = []; database = database }) (load_database database)
        (λ hash m h. cc h)
