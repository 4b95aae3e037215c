-- ===== src/Secw/Portfolio.antt =====
-- Class `Portfolio` (lib/src/secw_portfolio.h, lib/src/secw_portfolio.cc): its documents by id and
-- by name. Both maps of the source hold pointers to one copy that nothing mutates, so the model
-- holds the value in both.
pub mod Consistency
pub mod FreshId
pub mod Effects
pub mod Changes
pub mod Rebuilding
pub mod Selection
pub mod Soundness
pub mod Secrecy
pub mod Reloading
pub mod Marking
pub mod RoundTrip
use fty_security_wallet.Base.{
  ℕ, zero, suc, ◌+◌, String, ◌^^◌, Option, some, none, List, [], ◌∷◌, map, length, Attempt, returns,
  throws, Result, ok, err, hang, ◌>>=◌, ◌>>◌, eqb, ◌==◌, not, if◌then◌else◌,
}
use fty_security_wallet.Base.Decimal.{decimal}
use fty_security_wallet.Base.Exec.{Exec}
use fty_security_wallet.Base.StringMap
use fty_security_wallet.Base.StringMap.{StringMap}
use fty_security_wallet.External.{External, read_string, read_byte}
use fty_security_wallet.Secw.Error.{
  Exn, secw, impossible_to_load_portfolio, throw_name_already_exists, throw_name_does_not_exist,
  throw_document_do_not_exist,
}
use fty_security_wallet.Secw.Document.{Document, info_with_secret, read_document, validate}

pub record Portfolio : Type 0 where
  pub name : String
  pub documents : StringMap Document
  pub map_name_documents : StringMap Document

-- `Portfolio(name)`
unfoldable pub new_portfolio : String → Portfolio
new_portfolio name = record { name = name; documents = []; map_name_documents = [] }

-- `m_documents[doc->getId()] = doc; m_mapNameDocuments[doc->getName()] = doc`
unfoldable pub store : Document → Portfolio → Portfolio
store doc p = record p {
  documents = StringMap.insert doc.id doc p.documents;
  map_name_documents = StringMap.insert doc.name doc p.map_name_documents;
}

unfoldable pub remove : String → Portfolio → Result Exn Portfolio
remove id p = elim (StringMap.lookup id p.documents) [
  | none ↦ err (throw_document_do_not_exist id)
  | some doc ↦ ok (record p {
    documents = StringMap.erase id p.documents;
    map_name_documents = StringMap.erase doc.name p.map_name_documents;
  })
]

-- `update`, once the old document is at hand
unfoldable pub replace : Document → Document → Portfolio → Result Exn Portfolio
unfolding store
replace doc old p =
    if not (doc.name == old.name)
    then (if StringMap.member doc.name p.map_name_documents
        then err (throw_name_already_exists doc.name)
        else ok (
            store doc
              (record p { map_name_documents = StringMap.erase old.name p.map_name_documents })))
    else ok (store doc p)

unfoldable pub update : Document → Portfolio → Result Exn Portfolio
unfolding replace
update doc p = elim (StringMap.lookup doc.id p.documents) [
  | none ↦ err (throw_document_do_not_exist doc.id)
  | some old ↦ replace doc old p
]

unfoldable pub get_document : String → Portfolio → Result Exn Document
get_document id p = elim (StringMap.lookup id p.documents) [
  | none ↦ err (throw_document_do_not_exist id)
  | some doc ↦ ok doc
]

unfoldable pub get_document_by_name : String → Portfolio → Result Exn Document
get_document_by_name name p = elim (StringMap.lookup name p.map_name_documents) [
  | none ↦ err (throw_name_does_not_exist name)
  | some doc ↦ ok doc
]

unfoldable pub get_list_documents : Portfolio → List Document
get_list_documents p = StringMap.values p.documents

module _ ⦃e : External⦄ where
  open e use {
    Si, empty_si, add_member, get_member, elements, of_elements, of_string, of_number, uuid,
  }

  -- The loop of `add` that draws identifiers until one is not in use, from the `n`-th on; the
  -- result has the number of the next one. `none`: the fuel ran out.
  unfoldable pub fresh_id : ℕ → ℕ → StringMap Document → Option (String × ℕ)
  fresh_id zero n docs = none
  fresh_id (suc fuel) n docs =
      let again = fresh_id fuel (n + 1) docs in
      if StringMap.member (uuid n) docs then again else some (uuid n, n + 1)

  -- the end of `add`, with the identifier that the loop found
  unfoldable pub add_with :
      Document → Portfolio → ℕ → Option (String × ℕ) → Result Exn String × (Portfolio × ℕ)
  unfolding store
  add_with doc p n none = (hang, (p, n))
  add_with doc p n (some (id, n')) = (ok id, (store (record doc { id = id }) p, n'))

  -- `add`, on the portfolio and the number of the next identifier of the generator. One round more
  -- than there are documents is fuel enough.
  unfoldable pub add : Document → Exec (Portfolio × ℕ) Exn String
  unfolding add_with fresh_id
  add doc (p, n) =
      if StringMap.member doc.name p.map_name_documents
      then (err (throw_name_already_exists doc.name), (p, n))
      else add_with doc p n (fresh_id (suc (length p.documents)) n p.documents)

  -- `serializePortfolio`, on an empty node
  unfoldable pub portfolio_info : Portfolio → Si
  unfolding get_list_documents
  portfolio_info p =
      add_member "documents" (of_elements (map info_with_secret (get_list_documents p)))
        (add_member "name" (of_string p.name) (add_member "version" (of_number 1) empty_si))

  -- One round of the loop of `loadPortfolioVersion1`: a document that cannot be read or is not
  -- valid is logged and left out.
  unfoldable pub load_document : Portfolio → Si → Portfolio
  unfolding store
  load_document p si = elim (read_document none si) [
    | ok doc ↦ elim (validate doc) [ ok _ ↦ store doc p | err _ ↦ p | hang ↦ p ]
    | err _ ↦ p
    | hang ↦ p
  ]

  unfoldable pub load_documents : Portfolio → List Si → Portfolio
  unfolding load_document
  load_documents p [] = p
  load_documents p (si ∷ rest) = load_documents (load_document p si) rest

  pub bad_portfolio : Portfolio → Exn
  bad_portfolio p = secw (
      impossible_to_load_portfolio ("Bad format of the serialization data in portfolio " ^^ p.name))

  -- `loadPortfolioVersion1`
  unfoldable pub load_portfolio_version1 : Si → Exec Portfolio Exn (Unit {0})
  unfolding load_documents bad_portfolio
  load_portfolio_version1 si p = elim (read_string "name" si) [
    | throws _ ↦ (err (bad_portfolio p), p)
    | returns name ↦
        let named : Portfolio = record p { name = name } in
        elim (get_member "documents" si) [
          | throws _ ↦ (err (bad_portfolio named), named)
          | returns docs ↦ (ok tt, load_documents named (elements docs))
        ]
  ]

  -- `loadPortfolio`: the former content goes once the version is read
  unfoldable pub load_portfolio : Si → Exec Portfolio Exn (Unit {0})
  unfolding load_portfolio_version1
  load_portfolio si p = elim (read_byte "version" si) [
    | throws _ ↦
        (err (secw (impossible_to_load_portfolio "Bad format of the serialization data")), p)
    | returns version ↦
        let cleared : Portfolio = record p { documents = []; map_name_documents = [] } in
        if eqb version 1 then load_portfolio_version1 si cleared else (
          err (
              secw (
                impossible_to_load_portfolio
                  ("Version " ^^ (decimal version ^^ " not supported")))),
          cleared,
        )
  ]
