-- ===== src/Cam/Mapping.antt =====
-- Class `CredentialAssetMapping` (lib/include/cam_credential_asset_mapping.h,
-- lib/src/cam_credential_asset_mapping.cc) and the helpers of lib/src/cam_helpers.cc.
pub mod RoundTrip
use fty_security_wallet.Base.{
  ℕ, String, ◌^^◌, List, [], ◌∷◌, map, Attempt, Result, ok, ◌>>=◌, or_throw,
}
use fty_security_wallet.Base.StringMap.{StringMap}
use fty_security_wallet.External.{External, read_string, read_byte, read_string_map}
use fty_security_wallet.Cam.Error.{Exn, cam, standard, generic, protocol_error}

-- `Status` has `uint8_t` below it and is read by a cast, so each byte is a value of it.
abbrev pub Status : Type 0
Status = ℕ

abbrev pub unknown : Status
unknown = 0

pub record Mapping : Type 0 where
  pub asset_id : String
  pub service_id : String
  pub protocol : String
  pub port : String
  pub credential_id : String
  pub status : Status
  pub extended_info : StringMap String

-- the default constructor
abbrev pub new_mapping : Mapping
new_mapping = record {
  asset_id = "";
  service_id = "";
  protocol = "";
  port = "";
  credential_id = "";
  status = unknown;
  extended_info = [];
}

module _ ⦃e : External⦄ where
  open e use {
    Si, empty_si, add_member, elements, of_elements, of_string, of_number, of_string_map, to_json,
    of_json,
  }

  -- `fillSerializationInfo`, on an empty node
  unfoldable pub mapping_info : Mapping → Si
  mapping_info m = add_member "cam_extended_info" (of_string_map m.extended_info) (
      add_member "cam_status" (of_number m.status) (
        add_member "cam_credential" (of_string m.credential_id) (
          add_member "cam_port" (of_string m.port) (
            add_member "cam_protocol" (of_string m.protocol) (
              add_member "cam_asset" (of_string m.asset_id)
                (add_member "cam_service" (of_string m.service_id) empty_si))))))

  -- `fromSerializationInfo`, on a new mapping
  unfoldable pub read_mapping : Si → Result Exn Mapping
  read_mapping si = do
    service ← or_throw standard (read_string "cam_service" si)
    asset ← or_throw standard (read_string "cam_asset" si)
    protocol ← or_throw standard (read_string "cam_protocol" si)
    port ← or_throw standard (read_string "cam_port" si)
    credential ← or_throw standard (read_string "cam_credential" si)
    status ← or_throw standard (read_byte "cam_status" si)
    extended_info ← or_throw standard (read_string_map "cam_extended_info" si)
    ok (record {
      asset_id = asset;
      service_id = service;
      protocol = protocol;
      port = port;
      credential_id = credential;
      status = status;
      extended_info = extended_info;
    })

  -- a `std::vector` of mappings, written and read element by element
  unfoldable pub mappings_info : List Mapping → Si
  unfolding mapping_info
  mappings_info mappings = of_elements (map mapping_info mappings)

  unfoldable pub read_elements : List Si → Result Exn (List Mapping)
  unfolding read_mapping
  read_elements [] = ok []
  read_elements (si ∷ rest) = do
    mapping ← read_mapping si
    others ← read_elements rest
    ok (mapping ∷ others)

  unfoldable pub read_mappings : Si → Result Exn (List Mapping)
  unfolding read_elements
  read_mappings si = read_elements (elements si)

  -- `toString`
  unfoldable pub to_string : Mapping → Attempt String
  unfolding mapping_info
  to_string m = to_json (mapping_info m)

  -- `operator>>=` from a text
  pub read_mapping_text : String → Result Exn Mapping
  unfolding read_mapping
  read_mapping_text text = do
    si ← or_throw (λ message. cam (protocol_error ("Error in json: " ^^ message))) (of_json text)
    read_mapping si

  -- `cam::deserialize`
  unfoldable pub deserialize : String → Result Exn Si
  deserialize json =
      or_throw (λ message. cam (protocol_error ("Error in the json from server: " ^^ message)))
        (of_json json)

  -- `cam::serialize`
  unfoldable pub serialize : Si → Result Exn String
  serialize si =
      or_throw (λ message. cam (generic ("Error while creating json " ^^ message))) (to_json si)
