-- ===== src/Cam/Server.antt =====
-- Class `CredentialAssetMappingServer` (lib/src/cam_credential_asset_mapping_server.h,
-- lib/src/cam_credential_asset_mapping_server.cc): its handlers. The state is the storage.
pub mod Requests
pub mod Operations
pub mod Views
pub mod Refinement
use fty_security_wallet.Base.{
  ℕ, ◌%◌, String, Bool, List, [], ◌∷◌, length, Result, ok, err, not, if◌then◌else◌,
}
use fty_security_wallet.Base.Exec.{Exec, pure, raise, raise_if, lift, gets, ◌>>=◌, ◌>>◌}
use fty_security_wallet.External.{External}
use fty_security_wallet.Cam.Error.{
  Exn, standard, throw_bad_command_argument, throw_mapping_does_not_exist,
  throw_mapping_already_exists,
}
use fty_security_wallet.Cam.Mapping.{
  Mapping, unknown, mapping_info, read_mapping, mappings_info, deserialize, serialize,
}
use fty_security_wallet.Cam.Storage.{
  Storage, Handler, get_mapping, set_mapping, remove_mapping, is_mapping_existing, get_all_mappings,
  get_credential_mappings, get_mappings, get_asset_mappings, save,
}

abbrev one_argument : Exn
one_argument = throw_bad_command_argument "" "Command needs at least 1 argument"

abbrev two_arguments : Exn
two_arguments = throw_bad_command_argument "" "Command needs at least 2 arguments"

module _ ⦃e : External⦄ where
  open e use {Si, of_number, out_of_range}

  -- A handler that only reads.
  abbrev reply : (Storage → Si) → Handler String
  reply info s = (serialize (info s), s)

  -- The handler tests for two parameters and reads three.
  unfoldable pub handle_get_mapping : String → List String → Handler String
  handle_get_mapping sender (asset ∷ service ∷ protocol ∷ rest) = do
    found ← gets (get_mapping asset service protocol)
    mapping ← lift found
    lift (serialize (mapping_info mapping))
  handle_get_mapping sender (asset ∷ service ∷ []) = raise (standard out_of_range)
  handle_get_mapping sender _ = raise two_arguments

  unfoldable pub handle_create_mapping : String → List String → Handler String
  handle_create_mapping sender (json ∷ rest) = do
    si ← lift (deserialize json)
    mapping ← lift (read_mapping si)
    exists ← gets (is_mapping_existing mapping.asset_id mapping.service_id mapping.protocol)
    raise_if exists
        (throw_mapping_already_exists mapping.asset_id mapping.service_id mapping.protocol)
    set_mapping mapping
    save
    pure ""
  handle_create_mapping sender [] = raise one_argument

  -- Here too three parameters are read after a test for two.
  unfoldable pub handle_remove_mapping : String → List String → Handler String
  handle_remove_mapping sender (asset ∷ service ∷ protocol ∷ rest) = do
    remove_mapping asset service protocol
    save
    pure ""
  handle_remove_mapping sender (asset ∷ service ∷ []) = raise (standard out_of_range)
  handle_remove_mapping sender _ = raise two_arguments

  unfoldable pub handle_update_mapping : String → List String → Handler String
  handle_update_mapping sender (json ∷ rest) = do
    si ← lift (deserialize json)
    mapping ← lift (read_mapping si)
    exists ← gets (is_mapping_existing mapping.asset_id mapping.service_id mapping.protocol)
    raise_if (not exists)
        (throw_mapping_does_not_exist mapping.asset_id mapping.service_id mapping.protocol)
    set_mapping mapping
    save
    pure ""
  handle_update_mapping sender [] = raise one_argument

  -- The body that the four handlers below share: `change` takes the mapping that was received and
  -- the stored one, and assigns the fields.
  unfoldable pub handle_change : (Mapping → Mapping → Mapping) → List String → Handler String
  handle_change change (json ∷ rest) = do
    si ← lift (deserialize json)
    received ← lift (read_mapping si)
    found ← gets (get_mapping received.asset_id received.service_id received.protocol)
    existing ← lift found
    set_mapping (change received existing)
    save
    pure ""
  handle_change change [] = raise one_argument

  unfoldable pub handle_update_port_mapping : String → List String → Handler String
  unfolding handle_change
  handle_update_port_mapping sender =
      handle_change λ received existing. record existing { port = received.port; status = unknown }

  unfoldable pub handle_update_credential_mapping : String → List String → Handler String
  unfolding handle_change
  handle_update_credential_mapping sender = handle_change λ received existing. record existing {
    credential_id = received.credential_id;
    status = unknown;
  }

  unfoldable pub handle_update_status_mapping : String → List String → Handler String
  unfolding handle_change
  handle_update_status_mapping sender =
      handle_change λ received existing. record existing { status = received.status }

  unfoldable pub handle_update_info_mapping : String → List String → Handler String
  unfolding handle_change
  handle_update_info_mapping sender =
      handle_change λ received existing. record existing { extended_info = received.extended_info }

  unfoldable pub handle_get_asset_mappings : String → List String → Handler String
  handle_get_asset_mappings sender (asset ∷ rest) =
      reply (λ s. mappings_info (get_asset_mappings asset s))
  handle_get_asset_mappings sender [] = raise one_argument

  unfoldable pub handle_get_mappings : String → List String → Handler String
  handle_get_mappings sender (asset ∷ service ∷ rest) =
      reply (λ s. mappings_info (get_mappings asset service s))
  handle_get_mappings sender _ = raise two_arguments

  unfoldable pub handle_get_all_mappings : String → List String → Handler String
  handle_get_all_mappings sender params = reply (λ s. mappings_info (get_all_mappings s))

  unfoldable pub handle_get_credential_mappings : String → List String → Handler String
  handle_get_credential_mappings sender (credential ∷ rest) =
      reply (λ s. mappings_info (get_credential_mappings credential s))
  handle_get_credential_mappings sender [] = raise one_argument

  -- The count is cast to a `uint32_t`.
  unfoldable pub handle_count_credential_mappings : String → List String → Handler String
  handle_count_credential_mappings sender (credential ∷ rest) =
      reply (λ s. of_number (length (get_credential_mappings credential s) % 4294967296))
  handle_count_credential_mappings sender [] = raise one_argument
