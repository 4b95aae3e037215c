-- ===== src/Tests/Tree.antt =====
-- A concrete serialization tree, in the place of `cxxtools::SerializationInfo`, and the external
-- code on it.
use fty_security_wallet.Base.{
  true, false, not, ◌&&◌, eqb, All, ℕ, zero, suc, String, ◌^^◌, Bool, Option, some, none, List, [],
  ◌∷◌, Attempt, returns, throws, ◌≡◌, refl, sym, ap, ◌∙◌, Bool-cases, inl, inr, ltb, ◌==◌,
  if◌then◌else◌, arith, eq_iff,
}
use text.Mathlib.TextLemmas.{length-append}
use Prim.Native.String.{count}
use fty_security_wallet.Base.StringMap.{StringMap}
use fty_security_wallet.External.{External}
use fty_security_wallet.External.Laws.{Laws, IsWritable, first_of_both, found_or_throw}

-- An object is a chain of members, an array a chain of elements.
pub data Tree : Type 0 where
  nothing : Tree
  member : String → Tree → Tree → Tree
  element : Tree → Tree → Tree
  label : String → Tree
  texts : List String → Tree
  number : ℕ → Tree
  flag : Bool → Tree
  table : StringMap String → Tree

-- Equality of trees, as a test that computes.
abbrev pub same_list : List String → List String → Bool
same_list [] [] = true
same_list (x ∷ xs) (y ∷ ys) = x == y && same_list xs ys
same_list _ _ = false

abbrev pub same_table : StringMap String → StringMap String → Bool
same_table [] [] = true
same_table ((k, v) ∷ xs) ((j, w) ∷ ys) = k == j && (v == w && same_table xs ys)
same_table _ _ = false

abbrev pub same_bool : Bool → Bool → Bool
same_bool true b = b
same_bool false b = not b

abbrev pub same : Tree → Tree → Bool
same nothing nothing = true
same (member j a r) (member k b t) = j == k && (same a b && same r t)
same (element a r) (element b t) = same a b && same r t
same (label x) (label y) = x == y
same (texts x) (texts y) = same_list x y
same (number m) (number n) = eqb m n
same (flag b) (flag c) = same_bool b c
same (table m) (table n) = same_table m n
same _ _ = false

eq_of_same_list : (x y : List String) → same_list x y ≡ true → x ≡ y
eq_of_same_list [] [] h = refl
eq_of_same_list (x ∷ xs) (y ∷ ys) h = ground (arith, eq_iff x y, eq_of_same_list xs ys)
eq_of_same_list [] (y ∷ ys) h = absurd (cc h)
eq_of_same_list (x ∷ xs) [] h = absurd (cc h)

eq_of_same_table : (x y : StringMap String) → same_table x y ≡ true → x ≡ y
eq_of_same_table [] [] h = refl
eq_of_same_table ((k, v) ∷ xs) ((j, w) ∷ ys) h =
    ground (arith, eq_iff k j, eq_iff v w, eq_of_same_table xs ys)
eq_of_same_table [] (y ∷ ys) h = absurd (cc h)
eq_of_same_table (x ∷ xs) [] h = absurd (cc h)

eq_of_same : (a b : Tree) → same a b ≡ true → a ≡ b
eq_of_same nothing nothing h = refl
eq_of_same (member j a r) (member k b t) h =
    ground (arith, eq_iff j k, eq_of_same a b, eq_of_same r t)
eq_of_same (element a r) (element b t) h = ground (arith, eq_of_same a b, eq_of_same r t)
eq_of_same (label x) (label y) h = ground (arith, eq_iff x y)
eq_of_same (texts x) (texts y) h = ap (λ l. texts l) (eq_of_same_list x y h)
eq_of_same (number m) (number n) h = ground arith
eq_of_same (flag b) (flag c) h = ground arith
eq_of_same (table m) (table n) h = ap (λ l. table l) (eq_of_same_table m n h)
eq_of_same _ _ h = absurd (cc h)

abbrev pub find : String → Tree → Option Tree
find k (member j value rest) = first_of_both (find k rest) (if j == k then some value else none)
find k _ = none

abbrev pub elements_of : Tree → List Tree
elements_of (element value rest) = value ∷ elements_of rest
elements_of _ = []

abbrev pub array_of : List Tree → Tree
array_of [] = nothing
array_of (t ∷ ts) = element t (array_of ts)

abbrev pub as_string : Tree → Attempt String
as_string (label s) = returns s
as_string _ = throws "not a string"

abbrev pub as_strings : Tree → Attempt (List String)
as_strings (texts l) = returns l
as_strings _ = throws "not a list of strings"

abbrev pub as_number : ℕ → Tree → Attempt ℕ
as_number bound (number n) = if ltb n bound then returns n else throws "out of range"
as_number bound _ = throws "not a number"

abbrev pub as_bool : Tree → Attempt Bool
as_bool (flag b) = returns b
as_bool _ = throws "not a flag"

abbrev pub as_table : Tree → Attempt (StringMap String)
as_table (table m) = returns m
as_table _ = throws "not a table"

-- The n-th identifier: n letters.
abbrev pub letters : ℕ → String
letters zero = ""
letters (suc n) = "u" ^^ letters n

-- The trees that have a text, each with its text.
abbrev pub print : List (Tree × String) → Tree → Attempt String
print [] si = throws "no text"
print ((t, json) ∷ known) si = if same t si then returns json else print known si

abbrev pub parse : List (Tree × String) → String → Attempt Tree
parse [] input = throws "no tree"
parse ((t, json) ∷ known) input = if json == input then returns t else parse known input

-- what a write of it leaves in a file
abbrev pub file_of : Attempt String → Option String
file_of (returns text) = some text
file_of (throws _) = none

abbrev pub host : List (Tree × String) → External
host known = record {
  Si = Tree;
  empty_si = nothing;
  add_member = member;
  find_member = find;
  get_member = λ k si. found_or_throw ("missing " ^^ k) (find k si);
  elements = elements_of;
  of_elements = array_of;
  of_string = label;
  to_string = as_string;
  of_strings = texts;
  to_strings = as_strings;
  of_number = number;
  to_byte = as_number 256;
  to_word = as_number 4294967296;
  of_bool = flag;
  to_bool = as_bool;
  of_string_map = table;
  to_string_map = as_table;
  to_json = print known;
  to_json_beautified = print known;
  of_json = parse known;
  write_file = λ before si. file_of (print known si);
  regex_match = λ pattern input. returns (pattern == ("^" ^^ (input ^^ "$")));
  out_of_range = "map::at";
  certificate_x509 = λ pem. if pem == "" then throws "no certificate" else returns pem;
  keys = λ pem. if pem == "" then throws "no key" else returns pem;
  uuid = letters;
}

-- Each text stands for its own tree.
abbrev pub IsCode : List (Tree × String) → Type 0
IsCode known = All (λ entry. parse known entry.1 ≡ returns entry.0) known

parse-print :
    (known rest : List (Tree × String)) (si : Tree) {text : String}
    → All (λ entry. parse known entry.1 ≡ returns entry.0) rest
    → print rest si ≡ returns text
    → parse known text ≡ returns si
parse-print known [] si code h = absurd (cc h)
parse-print known ((t, json) ∷ rest) si {text} code h = elim (Bool-cases (same t si)) [
  | inl here ↦
      let it : json ≡ text = cc (rw here at h) in
      ap (λ input. parse known input) (sym it) ∙ code.0 ∙ ap (λ t. returns t) (eq_of_same t si here)
  | inr later ↦ parse-print known rest si code.1 (rw later at h)
]

elements-array_of : (l : List Tree) → elements_of (array_of l) ≡ l
elements-array_of [] = refl
elements-array_of (t ∷ ts) = ap (λ l. t ∷ l) (elements-array_of ts)

count-letters : (n : ℕ) → count (letters n) ≡ n
count-letters zero = refl
count-letters (suc n) = rw (length-append "u" (letters n), count-letters n) (omega arith)

pub letters_injective : (m n : ℕ) → letters m ≡ letters n → m ≡ n
letters_injective m n h = sym (count-letters m) ∙ ap count h ∙ count-letters n

pub host-Laws :
    (known : List (Tree × String))
    → IsCode known
    → (what : String) × (parse known "ERROR" ≡ throws what)
    → Laws ⦃e = host known⦄
host-Laws known code no_error = record {
  missing = λ k. "missing " ^^ k;
  find_member-empty = λ k. refl;
  find_member-add = λ k j m si. refl;
  get_member_lem = λ k si. refl;
  elements-of_elements = elements-array_of;
  to_string-of_string = λ s. refl;
  to_strings-of_strings = λ l. refl;
  to_byte-of_number = λ n h. ground arith;
  to_word-of_number = λ n h. ground arith;
  to_bool-of_bool = λ b. refl;
  to_string_map-of_string_map = λ m. refl;
  of_json-to_json = λ si. parse-print known known si code;
  of_json-to_json_beautified = λ si. parse-print known known si code;
  of_json-error = no_error;
}

pub host-IsWritable : (known : List (Tree × String)) → IsWritable ⦃e = host known⦄
host-IsWritable known before si text h = ap (λ t. file_of t) h
