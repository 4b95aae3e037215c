-- ===== src/Secw/Document/Text.antt =====
-- Documents as JSON texts, and the table of the supported types (lib/src/secw_document.cc).
use fty_security_wallet.Base.{
  String, ◌^^◌, Bool, true, false, Option, some, none, List, [], ◌∷◌, map, Result, ok, ◌>>=◌,
  or_throw, Attempt, returns, throws, ◌≡◌,
}
use fty_security_wallet.External.{External}
use fty_security_wallet.External.Laws.{Laws}
use fty_security_wallet.Secw.Error.{Exn, secw, generic, protocol_error}
use fty_security_wallet.Secw.Body.{factory}
use fty_security_wallet.Secw.Body.Keys
use fty_security_wallet.Secw.Document.{Document, info_with_secret, read_document}
use fty_security_wallet.Secw.Document.RoundTrip.{IsOrdered, read_document-info_with_secret_marked}

-- `isSupportedType`
pub is_supported_type : String → Bool
unfolding factory
is_supported_type type = elim (factory type) [ none ↦ false | some _ ↦ true ]

-- `getSupportedTypes`, in the order of the map
pub get_supported_types : List String
get_supported_types =
    Keys.external_certificate_type ∷ Keys.internal_certificate_type ∷ Keys.snmpv1_type
    ∷ Keys.snmpv3_type ∷ Keys.user_and_password_type ∷ []

module _ ⦃e : External⦄ where
  open e use {Si, of_elements, to_json_beautified, of_json}

  -- the `try` of the writers
  abbrev printed : Si → Result Exn String
  printed si =
      or_throw (λ what. secw (generic ("Error while creating json " ^^ what)))
        (to_json_beautified si)

  -- `operator<<=` of a document into a text
  unfoldable pub print_document : Document → Result Exn String
  print_document doc = printed (info_with_secret doc)

  -- `operator<<=` of a vector of documents into a text
  unfoldable pub print_documents : List Document → Result Exn String
  print_documents docs = printed (of_elements (map info_with_secret docs))

  -- `operator>>=` of a text into a document pointer: `none` is the null pointer
  unfoldable pub parse_document : Option Document → String → Result Exn Document
  parse_document existing text = do
    si ← or_throw (λ what. secw (protocol_error ("Error in json: " ^^ what))) (of_json text)
    read_document existing si

  printed-eq-ok :
      (si : Si) (text : String) → printed si ≡ ok text → to_json_beautified si ≡ returns text
  printed-eq-ok si text h = or_throw_inverse (to_json_beautified si) h
    where
      or_throw_inverse :
          (t : Attempt String)
          → or_throw (λ what. secw (generic ("Error while creating json " ^^ what))) t ≡ ok text
          → t ≡ returns text
      or_throw_inverse (returns s) h = cc h
      or_throw_inverse (throws what) h = absurd (cc h)

  -- A document with its sets in order that is written to a text is read from it again, marked as
  -- having its private data.
  pub parse_document-print_document :
      (laws : Laws) (doc : Document) (text : String)
      → IsOrdered doc
      → print_document doc ≡ ok text
      → parse_document none text ≡ ok (record doc { contain_private_data = true })
  unfolding print_document parse_document
  parse_document-print_document laws doc text ordered h =
      let json =
        laws.of_json-to_json_beautified (info_with_secret doc)
          (printed-eq-ok (info_with_secret doc) text h) in
      rw json (read_document-info_with_secret_marked laws doc ordered)
