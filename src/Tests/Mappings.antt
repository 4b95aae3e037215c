-- ===== src/Tests/Mappings.antt =====
-- The mapping server and its client on one mapping.
use fty_security_wallet.Base.{
  arith, sym, ap, subst, All, is_empty, ℕ, String, false, some, none, List, [], ◌∷◌, returns, ok,
  err, ◌≡◌, refl, if◌then◌else◌, ◌%◌, eqb,
}
use Prim.Native.Char.{Char, code}
use mathlib.Core.Logic.{◌≢◌}
use fty_security_wallet.Base.StringMap
use fty_security_wallet.Base.StringMap.{StringMap}
use fty_security_wallet.External.{External}
use fty_security_wallet.External.Laws.{Laws}
use fty_security_wallet.Cam.Error.{
  CamException, cam, to_json_payload, throw_cam_exception, error_info, error_code, what_arg,
  extra_data, throw_mapping_does_not_exist, unsupported_command,
}
use fty_security_wallet.Cam.Error.RoundTrip.{received, throw_cam_exception-to_json_payload}
use fty_security_wallet.Cam.Mapping.{
  Mapping, serialize, deserialize, mapping_info, mappings_info, read_mapping, to_string,
}
use fty_security_wallet.Cam.Mapping.RoundTrip.{HasByte, read_mapping-mapping_info}
use fty_security_wallet.Cam.Storage.{Storage, set_mapping, compute_hash, open_storage}
use fty_security_wallet.Cam.Storage
use fty_security_wallet.Cam.Storage.Hash.{
  IsPlain, compute_hash_injective, get_mapping-set_mapping_collision,
}
use fty_security_wallet.Cam.Storage.View.{view, IsKeyed, apply}
use fty_security_wallet.Cam.Server.{handle_create_mapping}
use fty_security_wallet.Cam.Server.Requests.{handle_request}
use fty_security_wallet.Cam.Server.Operations.{operation_of}
use fty_security_wallet.Cam.Server.Refinement.{
  run, replay, run_refines, handle_request-view, open_storage-IsKeyed,
}
use fty_security_wallet.Cam.Accessor
use fty_security_wallet.Cam.Accessor.Counter.{uses}
use fty_security_wallet.Cam.Accessor.Service.{
  missing, get_mapping-stored, get_mapping-missing, get_mapping-create_mapping,
  get_all_credential_counter_lem, is_mapping_existing_lem,
}
use fty_security_wallet.Tests.Tree.{
  Tree, nothing, member, element, label, number, table, host, host-Laws,
}

-- the mapping of the tests, and an empty storage
abbrev ups : Mapping
ups = record {
  asset_id = "ups";
  service_id = "snmp";
  protocol = "v1";
  port = "161";
  credential_id = "7";
  status = 1;
  extended_info = [];
}

abbrev empty : Storage
empty = record { mappings = []; database = none }

abbrev filled : Storage
filled = record { mappings = ("Aups|Ssnmp|P:v1", ups) ∷ []; database = some "database" }

abbrev ups_tree : Tree
ups_tree = member "cam_extended_info" (table []) (
    member "cam_status" (number 1) (
      member "cam_credential" (label "7") (
        member "cam_port" (label "161") (
          member "cam_protocol" (label "v1")
            (member "cam_asset" (label "ups") (member "cam_service" (label "snmp") nothing))))))

abbrev filled_tree : Tree
filled_tree = member "mappings" (element ups_tree nothing) (member "version" (number 1) nothing)

abbrev missing_tree : Tree
missing_tree =
    member "extraData"
      (member "protocol" (label "v1")
        (member "service" (label "snmp") (member "asset" (label "ups") nothing)))
      (member "whatArg"
        (label "Mapping for asset 'ups', service 'snmp' and protocol 'v1' do not exist")
        (member "errorCode" (number 4) nothing))

abbrev unsupported_tree : Tree
unsupported_tree =
    member "extraData" (member "command" (label "LIST") nothing) (
      member "whatArg" (label "Unsupported command: 'LIST'")
        (member "errorCode" (number 1) nothing))

abbrev texts : List (Tree × String)
texts =
    (ups_tree, "mapping")
    ∷ (element ups_tree nothing, "mappings")
    ∷ (filled_tree, "database")
    ∷ (missing_tree, "missing")
    ∷ (unsupported_tree, "unsupported")
    ∷ []

instance abbrev mapping_host : External
mapping_host = host texts

laws : Laws ⦃e = mapping_host⦄
laws = host-Laws texts (refl, (refl, (refl, (refl, (refl, tt))))) ("no tree", refl)

read_mapping-mapping_info_example : read_mapping (mapping_info ups) ≡ ok ups
read_mapping-mapping_info_example = read_mapping-mapping_info laws ups (ground arith)

written : mapping_host.to_json (mapping_info ups) ≡ returns "mapping"
unfolding mapping_info
written = refl

text_of_ups : to_string ups ≡ returns "mapping"
unfolding to_string mapping_info
text_of_ups = refl

abbrev unsupported : CamException
unsupported = unsupported_command "LIST" "Unsupported command: 'LIST'"

payload : to_json_payload unsupported ≡ returns "unsupported"
unfolding to_json_payload error_info error_code what_arg extra_data
payload = refl

throw_cam_exception-to_json_payload_example :
    throw_cam_exception "unsupported" ≡ cam (received unsupported)
throw_cam_exception-to_json_payload_example =
    throw_cam_exception-to_json_payload laws unsupported "unsupported" payload

-- a mapping whose asset holds the separator
abbrev divided : Mapping
divided = record ups { asset_id = "ups|Sb" }

abbrev after_divided : Storage
after_divided = (set_mapping divided empty).1

sets : set_mapping divided empty ≡ (ok tt, after_divided)
unfolding set_mapping
sets = refl

get_mapping-set_mapping_collision_example :
    (divided.asset_id ≢ "ups")
    × (Storage.get_mapping "ups" "b|Ssnmp" "v1" after_divided ≡ ok divided)
get_mapping-set_mapping_collision_example =
    get_mapping-set_mapping_collision divided "ups" "b" empty after_divided refl sets

other_code : (c : Char) → eqb (code c) 124 ≡ false → c ≢ "|"
other_code c h same = absurd (cc (h, ap (λ c. eqb (code c) 124) same))

ups-IsPlain : IsPlain "ups"
ups-IsPlain = (other_code _ refl, (other_code _ refl, (other_code _ refl, tt)))

snmp-IsPlain : IsPlain "snmp"
snmp-IsPlain =
    (other_code _ refl, (other_code _ refl, (other_code _ refl, (other_code _ refl, tt))))

compute_hash_injective_example :
    (ups.asset_id ≡ ups.asset_id)
    × (ups.service_id ≡ ups.service_id)
    × (ups.protocol ≡ ups.protocol)
compute_hash_injective_example =
    compute_hash_injective "ups" "ups" "snmp" "snmp" "v1" "v1" ups-IsPlain ups-IsPlain snmp-IsPlain
      snmp-IsPlain refl

open_storage-IsKeyed_example : IsKeyed (view (open_storage (some "database")).1)
open_storage-IsKeyed_example = open_storage-IsKeyed (some "database")

empty-IsKeyed : IsKeyed (view empty)
unfolding StringMap.lookup
empty-IsKeyed = λ hash m h. cc h

handle_request-view_example :
    view (handle_request "agent" ("CREATE_MAPPING" ∷ "mapping" ∷ []) empty).1
    ≡ apply (operation_of ("CREATE_MAPPING" ∷ "mapping" ∷ [])) (view empty)
handle_request-view_example =
    handle_request-view "agent" ("CREATE_MAPPING" ∷ "mapping" ∷ []) empty empty-IsKeyed

abbrev requests : List (String × List String)
requests =
    ("agent", "CREATE_MAPPING" ∷ "mapping" ∷ [])
    ∷ ("agent", "REMOVE_MAPPING" ∷ "ups" ∷ "snmp" ∷ "v1" ∷ [])
    ∷ []

run_refines_example :
    IsKeyed (view (run requests empty)) × (view (run requests empty) ≡ replay requests (view empty))
run_refines_example = run_refines requests empty empty-IsKeyed

stored : view filled (compute_hash "ups" "snmp" "v1") ≡ some ups
unfolding StringMap.lookup compute_hash
stored = refl

get_mapping-stored_example :
    Accessor.get_mapping (ok []) (handle_request "agent") "ups" "snmp" "v1" filled
    ≡ (ok ups, filled)
get_mapping-stored_example =
    get_mapping-stored laws (ok []) "agent" "ups" "snmp" "v1" "mapping" ups filled (ground arith)
      stored written

absent : view empty (compute_hash "ups" "snmp" "v1") ≡ none
unfolding StringMap.lookup
absent = refl

payload_of_missing : to_json_payload (missing "ups" "snmp" "v1") ≡ returns "missing"
unfolding to_json_payload error_info error_code what_arg extra_data
payload_of_missing = refl

get_mapping-missing_example :
    Accessor.get_mapping (ok []) (handle_request "agent") "ups" "snmp" "v1" empty
    ≡ (err (throw_mapping_does_not_exist "ups" "snmp" "v1"), empty)
get_mapping-missing_example =
    get_mapping-missing laws (ok []) "agent" "ups" "snmp" "v1" "missing" empty absent
      payload_of_missing

creates : Accessor.create_mapping (ok []) (handle_request "agent") ups empty ≡ (ok tt, filled)
unfolding Accessor.create_mapping serialize mapping_info handle_request handle_create_mapping
    deserialize read_mapping Storage.is_mapping_existing StringMap.member Storage.set_mapping
    Storage.save mappings_info StringMap.values StringMap.insert compute_hash
creates = refl

get_mapping-create_mapping_example :
    Accessor.get_mapping (ok []) (handle_request "agent") "ups" "snmp" "v1" filled
    ≡ (ok ups, filled)
get_mapping-create_mapping_example =
    get_mapping-create_mapping laws (ok []) "agent" ups empty filled (ground arith) creates

all_written :
    mapping_host.to_json (mappings_info (Storage.get_all_mappings filled)) ≡ returns "mappings"
unfolding mapping_info mappings_info Storage.get_all_mappings StringMap.values
all_written = refl

bytes : All HasByte (Storage.get_all_mappings filled)
unfolding Storage.get_all_mappings StringMap.values
bytes = (ground arith, tt)

get_all_credential_counter_lem_example :
    (counters : StringMap ℕ) × (Accessor.get_all_credential_counter
        (ok [])
        (handle_request "agent")
        filled
      ≡ (ok counters, filled))
    × ((credential : String)
        → is_empty credential ≡ false
        → StringMap.lookup credential counters ≡ (
            if eqb (uses credential (Storage.get_all_mappings filled)) 0
            then none
            else some (uses credential (Storage.get_all_mappings filled) % 4294967296)))
get_all_credential_counter_lem_example =
    get_all_credential_counter_lem laws (ok []) "agent" "mappings" filled bytes all_written

is_mapping_existing_lem_example :
    Accessor.is_mapping_existing (ok []) (handle_request "agent") "ups" "snmp" "v1" filled
    ≡ (ok (Storage.is_mapping_existing "ups" "snmp" "v1" filled), filled)
is_mapping_existing_lem_example =
    is_mapping_existing_lem laws (ok []) "agent" "ups" "snmp" "v1" filled only_ups
      ("missing", payload_of_missing)
  where
    only_ups :
        (m : Mapping)
        → view filled (compute_hash "ups" "snmp" "v1") ≡ some m
        → HasByte m × ((text : String) × (mapping_host.to_json (mapping_info m) ≡ returns text))
    only_ups m h =
        let same : m ≡ ups = cc (h, stored) in
        subst
          (λ m.
            HasByte m × ((text : String) × (mapping_host.to_json (mapping_info m) ≡ returns text)))
          (sym same) (ground arith, ("mapping", written))
