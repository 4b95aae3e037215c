-- ===== src/Cam/Mapping/RoundTrip.antt =====
-- A mapping reads back from what it writes (lib/src/cam_credential_asset_mapping.cc).
use fty_security_wallet.Base.{◌<◌, String, List, [], ◌∷◌, map, All, ◌≡◌, refl, returns, ok}
use fty_security_wallet.External.{External}
use fty_security_wallet.External.Laws.{Laws}
use fty_security_wallet.Cam.Mapping.{
  Mapping, mapping_info, read_mapping, mappings_info, read_elements, read_mappings, to_string,
  read_mapping_text,
}

-- The status is a value of its type.
abbrev pub HasByte : Mapping → Type 0
HasByte m = m.status < 256

module _ ⦃e : External⦄ (laws : Laws) where
  open laws use {
    find_member-empty, find_member-add, get_member_lem, to_string-of_string, to_byte-of_number,
    to_string_map-of_string_map, elements-of_elements, of_json-to_json,
  }

  -- A mapping reads back from the node that it fills, whichever byte its status is.
  pub read_mapping-mapping_info : (m : Mapping) → HasByte m → read_mapping (mapping_info m) ≡ ok m
  unfolding read_mapping mapping_info
  read_mapping-mapping_info m h = simp (
    get_member_lem,
    find_member-add,
    find_member-empty,
    to_string-of_string,
    to_byte-of_number _ h,
    to_string_map-of_string_map,
  )

  read_elements-map :
      (ms : List Mapping) → All HasByte ms → read_elements (map mapping_info ms) ≡ ok ms
  unfolding read_elements
  read_elements-map [] h = refl
  read_elements-map (m ∷ ms) h = simp (read_mapping-mapping_info m h.0, read_elements-map ms h.1)

  pub read_mappings-mappings_info :
      (ms : List Mapping) → All HasByte ms → read_mappings (mappings_info ms) ≡ ok ms
  unfolding read_mappings mappings_info
  read_mappings-mappings_info ms h = rw (elements-of_elements _) (read_elements-map ms h)

  -- A mapping reads back from its text.
  pub read_mapping_text-to_string :
      (m : Mapping) (text : String)
      → HasByte m
      → to_string m ≡ returns text
      → read_mapping_text text ≡ ok m
  unfolding read_mapping_text to_string
  read_mapping_text-to_string m text h written =
      rw (of_json-to_json (mapping_info m) written) (read_mapping-mapping_info m h)
