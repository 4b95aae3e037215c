-- ===== src/External.antt =====
-- What the program calls and does not implement, as one interface: the serialization tree of
-- cxxtools (`cxxtools::SerializationInfo`, its JSON serializer and deserializer), `std::regex`,
-- the certificate library and the UUID generator. `Laws` states what the theorems rely on.
pub mod Laws
pub mod Payload
pub mod Openssl
use fty_security_wallet.Base.{ℕ, String, Bool, List, Option, Attempt, and_then}
use fty_security_wallet.Base.StringMap.{StringMap}

pub record External : Type 1 where
  -- `cxxtools::SerializationInfo`
  pub Si : Type 0
  pub empty_si : Si
  -- `si.addMember(name)`, with the new member filled
  pub add_member : String → Si → Si → Si
  -- `si.findMember(name)`; `none` is the null pointer
  pub find_member : String → Si → Option Si
  -- `si.getMember(name)`
  pub get_member : String → Si → Attempt Si
  -- `si.memberCount()` and `si.getMember(index)` for each index
  pub elements : Si → List Si
  -- an array: `si.addMember("")` for each element, and `si.setCategory(Array)`
  pub of_elements : List Si → Si
  -- the operators `<<=` and `>>=` of cxxtools, at the types that the program reads and writes
  pub of_string : String → Si
  pub to_string : Si → Attempt String
  pub of_strings : List String → Si
  pub to_strings : Si → Attempt (List String)
  pub of_number : ℕ → Si
  -- reads a `uint8_t`
  pub to_byte : Si → Attempt ℕ
  -- reads a `uint32_t`
  pub to_word : Si → Attempt ℕ
  pub of_bool : Bool → Si
  pub to_bool : Si → Attempt Bool
  pub of_string_map : StringMap String → Si
  pub to_string_map : Si → Attempt (StringMap String)
  -- `cxxtools::JsonSerializer` into a string, compact and beautified; `cxxtools::JsonDeserializer`
  pub to_json : Si → Attempt String
  pub to_json_beautified : Si → Attempt String
  pub of_json : String → Attempt Si
  -- what a file holds, of what it held, after a `std::ofstream` was opened on it and a beautifying
  -- `cxxtools::JsonSerializer` wrote the tree there: a stream that fails does so silently
  pub write_file : Option String → Si → Option String
  -- `std::regex_match(text, std::regex(pattern))`, pattern first; a bad pattern throws
  pub regex_match : String → String → Attempt Bool
  -- `what()` of the `std::out_of_range` that `std::map::at` and `std::vector::at` throw
  pub out_of_range : String
  -- the constructors `fty::CertificateX509(pem)` and `fty::Keys(pem)`, with the public key of the
  -- object as the text that stands for it in a comparison
  pub certificate_x509 : String → Attempt String
  pub keys : String → Attempt String
  -- the n-th identifier that `zuuid_new` makes, in its canonical form
  pub uuid : ℕ → String

module _ ⦃e : External⦄ where
  open e use {Si, get_member, to_string, to_strings, to_byte, to_bool, to_word, to_string_map}

  -- `si.getMember(name) >>= x`, for `x` of each type
  abbrev pub read_string : String → Si → Attempt String
  read_string k si = and_then (get_member k si) to_string

  abbrev pub read_strings : String → Si → Attempt (List String)
  read_strings k si = and_then (get_member k si) to_strings

  abbrev pub read_byte : String → Si → Attempt ℕ
  read_byte k si = and_then (get_member k si) to_byte

  abbrev pub read_bool : String → Si → Attempt Bool
  read_bool k si = and_then (get_member k si) to_bool

  abbrev pub read_string_map : String → Si → Attempt (StringMap String)
  read_string_map k si = and_then (get_member k si) to_string_map
