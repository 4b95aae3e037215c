-- ===== src/Cam/Storage.antt =====
-- Class `CredentialAssetMappingStorage` (lib/src/cam_credential_asset_mapping_storage.h,
-- lib/src/cam_credential_asset_mapping_storage.cc): the mappings by the hash of their key, and the
-- text of the database file.
pub mod Hash
pub mod View
use fty_security_wallet.Base.{
  ℕ, String, ◌^^◌, Bool, ◌&&◌, ◌||◌, Option, some, none, List, [], ◌∷◌, select, Attempt, returns,
  throws, Result, ok, err, hang, ◌>>=◌, or_throw, is_empty, eqb, ◌==◌, if◌then◌else◌,
}
use fty_security_wallet.Base.Exec.{Exec}
use fty_security_wallet.Base.StringMap
use fty_security_wallet.Base.StringMap.{StringMap}
use fty_security_wallet.External.{External, read_byte}
use fty_security_wallet.Cam.Error.{Exn, cam, standard, generic, throw_mapping_does_not_exist}
use fty_security_wallet.Cam.Mapping.{Mapping, mappings_info, read_mappings}

pub record Storage : Type 0 where
  pub mappings : StringMap Mapping
  -- the file; `none` if it does not exist
  pub database : Option String

-- A method that changes the storage.
abbrev pub Handler : Type 0 → Type 0
Handler A = Exec Storage Exn A

-- `computeHash`
unfoldable pub compute_hash : String → String → String → String
compute_hash asset service protocol = "A" ^^ (asset ^^ ("|S" ^^ (service ^^ ("|P:" ^^ protocol))))

-- the hash of the key of a mapping
abbrev pub hash_of : Mapping → String
hash_of m = compute_hash m.asset_id m.service_id m.protocol

-- `getMapping`
unfoldable pub get_mapping : String → String → String → Storage → Result Exn Mapping
get_mapping asset service protocol s =
    elim (StringMap.lookup (compute_hash asset service protocol) s.mappings) [
      | some m ↦ ok m
      | none ↦ err (throw_mapping_does_not_exist asset service protocol)
    ]

-- the test of `setMapping`
abbrev pub has_empty_key : Mapping → Bool
has_empty_key m = is_empty m.asset_id || is_empty m.service_id || is_empty m.protocol

abbrev pub put_mapping : Mapping → Storage → Storage
put_mapping m s = record s { mappings = StringMap.insert (hash_of m) m s.mappings }

-- `setMapping`
unfoldable pub set_mapping : Mapping → Handler (Unit {0})
set_mapping m s =
    if has_empty_key m then (err (cam (generic "Bad format")), s) else (ok tt, put_mapping m s)

-- `removeMapping`: erasing what is not there changes nothing
unfoldable pub remove_mapping : String → String → String → Handler (Unit {0})
remove_mapping asset service protocol s =
    let hash = compute_hash asset service protocol in
    let after : Storage = record s { mappings = StringMap.erase hash s.mappings } in
    if StringMap.member hash s.mappings
    then (ok tt, after)
    else (err (throw_mapping_does_not_exist asset service protocol), after)

-- `isMappingExisting`
unfoldable pub is_mapping_existing : String → String → String → Storage → Bool
is_mapping_existing asset service protocol s =
    StringMap.member (compute_hash asset service protocol) s.mappings

-- `getAllMappings`
unfoldable pub get_all_mappings : Storage → List Mapping
get_all_mappings s = StringMap.values s.mappings

-- `getCredentialMappings`
unfoldable pub get_credential_mappings : String → Storage → List Mapping
get_credential_mappings credential s =
    select (λ m. m.credential_id == credential) (StringMap.values s.mappings)

-- `getCredentialMappingsForService`
pub get_credential_mappings_for_service : String → String → Storage → List Mapping
get_credential_mappings_for_service credential service s =
    select (λ m. m.service_id == service && m.credential_id == credential)
      (StringMap.values s.mappings)

-- `getMappings`
unfoldable pub get_mappings : String → String → Storage → List Mapping
get_mappings asset service s =
    select (λ m. m.asset_id == asset && m.service_id == service) (StringMap.values s.mappings)

-- `getAssetMappings`
unfoldable pub get_asset_mappings : String → Storage → List Mapping
get_asset_mappings asset s = select (λ m. m.asset_id == asset) (StringMap.values s.mappings)

-- the loop of the constructor: an element that `setMapping` refuses is logged and left out
unfoldable pub set_mappings : List Mapping → Storage → Storage
unfolding set_mapping
set_mappings [] s = s
set_mappings (m ∷ ms) s = set_mappings ms (set_mapping m s).1

module _ ⦃e : External⦄ where
  open e use {
    Si, empty_si, add_member, get_member, of_number, to_json_beautified, of_json, write_file,
  }

  -- What `save` writes.
  unfoldable pub storage_info : Storage → Si
  unfolding get_all_mappings
  storage_info s =
      add_member "mappings" (mappings_info (get_all_mappings s))
        (add_member "version" (of_number 1) empty_si)

  -- what the serializer throws
  abbrev pub serialized : Attempt String → Result Exn (Unit {0})
  serialized (returns text) = ok tt
  serialized (throws message) = err (standard message)

  -- the end of `save`: the tree goes through the serializer into a stream on the file
  unfoldable pub write_database : Si → Handler (Unit {0})
  write_database si s =
      (serialized (to_json_beautified si), record s { database = write_file s.database si })

  -- `save`
  unfoldable pub save : Handler (Unit {0})
  unfolding write_database storage_info
  save s = write_database (storage_info s) s

  -- the mappings of the database
  unfoldable pub load_root : Si → Result Exn (List Mapping)
  load_root root = do
    version ← or_throw standard (read_byte "version" root)
    array ←
        or_throw standard
          (if eqb version 1 then get_member "mappings" root else throws "Version not supported")
    read_mappings array

  unfoldable pub load_database : Option String → Result Exn (List Mapping)
  unfolding load_root
  load_database none = ok []
  load_database (some text) = do root ← or_throw standard (of_json text); load_root root

  -- the constructor, once the database is read
  unfoldable pub open_with : Storage → Result Exn (List Mapping) → Result Exn (Unit {0}) × Storage
  unfolding set_mappings save
  open_with empty (ok mappings) = save (set_mappings mappings empty)
  open_with empty (err x) = (err x, empty)
  open_with empty hang = (hang, empty)

  -- The constructor, on the contents of the database file. Where it throws here, the program
  -- exits.
  unfoldable pub open_storage : Option String → Result Exn (Unit {0}) × Storage
  unfolding load_database open_with
  open_storage database =
      open_with (record { mappings = []; database = database }) (load_database database)
