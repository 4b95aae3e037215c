-- ===== src/External/Laws.antt =====
-- What the theorems rely on of the external code: a member that was added is found under its
-- name, the first of that name first; a value that was written reads back; and so does JSON, which
-- the word of an error reply is not.
use fty_security_wallet.Base.{
  ℕ, ◌<◌, String, Bool, List, Option, some, none, Attempt, returns, throws, ◌≡◌, ◌==◌,
  if◌then◌else◌,
}
use fty_security_wallet.Base.StringMap.{StringMap}
use fty_security_wallet.External.{External}

abbrev pub first_of_both : {A : Type 0} → Option A → Option A → Option A
first_of_both (some a) o = some a
first_of_both none o = o

abbrev pub found_or_throw : {A : Type 0} → String → Option A → Attempt A
found_or_throw what (some a) = returns a
found_or_throw what none = throws what

module _ ⦃e : External⦄ where
  open e use {
    Si, empty_si, add_member, find_member, get_member, elements, of_elements, of_string, to_string,
    of_strings, to_strings, of_number, to_byte, to_word, of_bool, to_bool, of_string_map,
    to_string_map, to_json, to_json_beautified, of_json, write_file,
  }

  pub record Laws : Type 1 where
    pub missing : String → String
    pub find_member-empty : (k : String) → find_member k empty_si ≡ none
    pub find_member-add :
        (k j : String) (m si : Si)
        → find_member k (add_member j m si)
          ≡ first_of_both (find_member k si) (if j == k then some m else none)
    pub get_member_lem :
        (k : String) (si : Si) → get_member k si ≡ found_or_throw (missing k) (find_member k si)
    pub elements-of_elements : (l : List Si) → elements (of_elements l) ≡ l
    pub to_string-of_string : (s : String) → to_string (of_string s) ≡ returns s
    pub to_strings-of_strings : (l : List String) → to_strings (of_strings l) ≡ returns l
    pub to_byte-of_number : (n : ℕ) → n < 256 → to_byte (of_number n) ≡ returns n
    pub to_word-of_number : (n : ℕ) → n < 4294967296 → to_word (of_number n) ≡ returns n
    pub to_bool-of_bool : (b : Bool) → to_bool (of_bool b) ≡ returns b
    pub to_string_map-of_string_map :
        (m : StringMap String) → to_string_map (of_string_map m) ≡ returns m
    pub of_json-to_json :
        (si : Si) {text : String} → to_json si ≡ returns text → of_json text ≡ returns si
    pub of_json-to_json_beautified :
        (si : Si) {text : String} → to_json_beautified si ≡ returns text → of_json text ≡ returns si
    -- the word is not JSON
    pub of_json-error : (what : String) × (of_json "ERROR" ≡ throws what)

  -- The file can be opened and written: a text that the serializer makes is what it holds.
  abbrev pub IsWritable : Type 0
  IsWritable =
      (before : Option String) (si : Si) (text : String)
      → to_json_beautified si ≡ returns text
      → write_file before si ≡ some text
