-- ===== src/Secw/Portfolio/Reloading.antt =====
-- What of any portfolio comes back out of what it wrote (lib/src/secw_portfolio.cc).
use fty_security_wallet.Base.{
  true, List, [], ◌∷◌, map, All, Result, ok, err, hang, ◌≡◌, refl, sym, ap, ◌∙◌, arith,
}
use fty_security_wallet.External.{External}
use fty_security_wallet.External.Laws.{Laws}
use fty_security_wallet.Secw.Error.{Exn}
use fty_security_wallet.Secw.Document.{Document, info_with_secret, validate}
use fty_security_wallet.Secw.Document.RoundTrip.{IsOrdered, read_document-info_with_secret_marked}
use fty_security_wallet.Secw.Portfolio.{
  Portfolio, new_portfolio, get_list_documents, portfolio_info, load_document, load_documents,
  load_portfolio_version1, load_portfolio,
}
use fty_security_wallet.Secw.Portfolio.Rebuilding.{store_all}

-- the document as one that has its private data
abbrev pub marked : Document → Document
marked doc = record doc { contain_private_data = true }

abbrev pub if_valid : Result Exn (Unit {0}) → Document → List Document → List Document
if_valid (ok _) doc rest = doc ∷ rest
if_valid (err x) doc rest = rest
if_valid hang doc rest = rest

store_all-if_valid :
    (r : Result Exn (Unit {0})) (doc : Document) (rest : List Document) (p : Portfolio)
    → store_all (if_valid r doc rest) p ≡ store_all rest (store_all (if_valid r doc []) p)
unfolding store_all
store_all-if_valid (ok _) doc rest p = refl
store_all-if_valid (err x) doc rest p = refl
store_all-if_valid hang doc rest p = refl

module _ ⦃e : External⦄ where
  -- The documents that hold all that their kind needs, secrets included.
  abbrev pub complete : List Document → List Document
  complete [] = []
  complete (doc ∷ docs) = if_valid (validate (marked doc)) (marked doc) (complete docs)

  module _ (laws : Laws) where
    open laws use {
      find_member-empty, find_member-add, get_member_lem, to_string-of_string, to_byte-of_number,
      elements-of_elements,
    }

    load_document_lem :
        (doc : Document) (p : Portfolio) (r : Result Exn (Unit {0}))
        → IsOrdered doc
        → validate (marked doc) ≡ r
        → load_document p (info_with_secret doc) ≡ store_all (if_valid r (marked doc) []) p
    unfolding load_document store_all
    load_document_lem doc p (ok _) ordered h =
        rw (read_document-info_with_secret_marked laws doc ordered, load_document)
          (rw (h, load_document) refl)
    load_document_lem doc p (err x) ordered h =
        rw (read_document-info_with_secret_marked laws doc ordered, load_document)
          (rw (h, load_document) refl)
    load_document_lem doc p hang ordered h =
        rw (read_document-info_with_secret_marked laws doc ordered, load_document)
          (rw (h, load_document) refl)

    load_documents_lem :
        (docs : List Document) (p : Portfolio)
        → All IsOrdered docs
        → load_documents p (map info_with_secret docs) ≡ store_all (complete docs) p
    unfolding load_documents store_all
    load_documents_lem [] p ordered = refl
    load_documents_lem (doc ∷ docs) p ordered =
        let r = validate (marked doc) in
        ap (λ q. load_documents q (map info_with_secret docs))
          (load_document_lem doc p r ordered.0 refl)
        ∙ load_documents_lem docs (store_all (if_valid r (marked doc) []) p) ordered.1
        ∙ sym (store_all-if_valid r (marked doc) (complete docs) p)

    -- What `loadPortfolio` makes of what `serializePortfolio` wrote of a portfolio whose documents
    -- have their sets in order: the documents that are valid as documents with private data are
    -- stored, marked so, and the others are left out.
    pub load_portfolio-complete :
        (p q : Portfolio)
        → All IsOrdered (get_list_documents p)
        → load_portfolio (portfolio_info p) q
          ≡ (ok tt, store_all (complete (get_list_documents p)) (new_portfolio p.name))
    unfolding load_portfolio load_portfolio_version1 portfolio_info new_portfolio
    load_portfolio-complete p q ordered =
        simp
          (
            get_member_lem,
            find_member-add,
            find_member-empty,
            to_string-of_string,
            to_byte-of_number 1 (omega arith),
            elements-of_elements,
            load_portfolio,
            load_portfolio_version1,
          )
          (λ i. (ok tt, load_documents_lem (get_list_documents p) (new_portfolio p.name) ordered i))
