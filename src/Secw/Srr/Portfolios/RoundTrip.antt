-- ===== src/Secw/Srr/Portfolios/RoundTrip.antt =====
-- A portfolio comes back out of a save (lib/src/secw_portfolio.cc).
use fty_security_wallet.Base.{
  ℕ, String, Bool, true, false, not, ◌&&◌, ◌==◌, Option, some, none, List, [], ◌∷◌, select, All, ok,
  ◌≡◌, refl, sym, ap, ◌∙◌, is_empty, if◌then◌else◌, arith, Bool-cases, inl, inr, ok-injective,
}
use mathlib.Core.Option
use fty_security_wallet.Base.StringMap
use fty_security_wallet.Base.StringMap.Selection.{kept, lookup-select_values}
use fty_security_wallet.Base.Exec.{continue-eq-ok, pure}
use fty_security_wallet.External.{External}
use fty_security_wallet.External.Laws.{Laws}
use fty_security_wallet.External.Openssl.{Openssl, OpensslLaws}
use fty_security_wallet.Secw.Body.Keys
use fty_security_wallet.Secw.Body.{
  Body, snmpv3, snmpv1, user_and_password, external_certificate, internal_certificate, type_of,
}
use fty_security_wallet.Secw.Document.{Document}
use fty_security_wallet.Secw.Portfolio.Marking.{mark_portfolio, mark_portfolio-IsHeld}
use fty_security_wallet.Secw.Portfolio.Reloading.{marked}
use fty_security_wallet.Secw.Portfolio.Selection.{select_portfolio, store_all-select}
use fty_security_wallet.Secw.Portfolio.Soundness.{IsSound}
use fty_security_wallet.Secw.Srr.Marking.{portfolio_srr_info-mark_portfolio}
use fty_security_wallet.Secw.Portfolio.{Portfolio, new_portfolio, store, get_list_documents}
use fty_security_wallet.Secw.Portfolio.Rebuilding.{store_all, store_all-get_list_documents}
use fty_security_wallet.Secw.Portfolio.RoundTrip.{IsWhole, IsHeld}
use fty_security_wallet.Secw.Srr.Documents.{srr_info, create_from_srr}
use fty_security_wallet.Secw.Srr.Documents.RoundTrip.{create_from_srr-srr_info}
use fty_security_wallet.Secw.Srr.Portfolios.{
  is_skipped, keep_valid, restore_document, srr_infos, portfolio_node, portfolio_srr_info,
  restore_documents, load_portfolio_srr_version1, load_portfolio_from_srr,
}

-- the documents that are restored
abbrev pub restored : Bool → List Document → List Document
restored same_instance docs = select (λ doc. not (is_skipped same_instance doc)) docs

abbrev pub is_internal_certificate : Body → Bool
is_internal_certificate (internal_certificate _ _) = true
is_internal_certificate _ = false

-- What comes back of what an identifier or a name led to: no internal certificate on another
-- platform, and any other document marked as having its private data.
abbrev pub comes_back : Bool → Option Document → Option Document
comes_back same_instance none = none
comes_back same_instance (some doc) =
    if not same_instance && is_internal_certificate doc.body then none else some (marked doc)

-- A portfolio of the same name whose identifiers and names lead to what comes back.
pub record IsRestored (same_instance : Bool) (p r : Portfolio) : Type 0 where
  pub name : r.name ≡ p.name
  pub by_id :
      (k : String)
      → StringMap.lookup k r.documents ≡ comes_back same_instance (StringMap.lookup k p.documents)
  pub by_name :
      (k : String)
      → StringMap.lookup k r.map_name_documents
        ≡ comes_back same_instance (StringMap.lookup k p.map_name_documents)

is_skipped_lem :
    (same_instance : Bool) (doc : Document)
    → is_skipped same_instance (marked doc)
      ≡ (not same_instance && is_internal_certificate doc.body)
unfolding type_of
is_skipped_lem same_instance doc = ap (λ b. not same_instance && b) (by_kind doc.body)
  where
    by_kind : (b : Body) → (type_of b == Keys.internal_certificate_type) ≡ is_internal_certificate b
    by_kind (snmpv3 _) = refl
    by_kind (snmpv1 _) = refl
    by_kind (user_and_password _ _) = refl
    by_kind (external_certificate _) = refl
    by_kind (internal_certificate _ _) = refl

kept-marked :
    (same_instance : Bool) (o : Option Document)
    → kept (λ doc. not (is_skipped same_instance doc)) (Option.map marked o)
      ≡ comes_back same_instance o
kept-marked same_instance none = refl
kept-marked same_instance (some doc) =
    ap (λ b. if not b then some (marked doc) else none) (is_skipped_lem same_instance doc)
    ∙ either (not same_instance && is_internal_certificate doc.body)
  where
    either :
        (b : Bool)
        → (if not b then some (marked doc) else none) ≡ (if b then none else some (marked doc))
    either true = refl
    either false = refl

module _ ⦃e : External⦄ ⦃o : Openssl⦄ (laws : Laws) (openssl_laws : OpensslLaws) (key : String)
    (key_there : is_empty key ≡ false) where
  open e use {Si}
  open laws use {
    find_member-empty, find_member-add, get_member_lem, to_string-of_string, to_byte-of_number,
    elements-of_elements,
  }

  restore_document_lem :
      (same_instance : Bool) (doc : Document) (p : Portfolio)
      → IsWhole doc
      → restore_document same_instance (ok doc) p
        ≡ (if is_skipped same_instance doc then p else store doc p)
  unfolding restore_document store keep_valid
  restore_document_lem same_instance doc p whole = rw whole.valid refl

  restore_documents-srr_infos :
      (same_instance : Bool) (docs : List Document) (sis : List Si) (n m : ℕ) (p : Portfolio)
      → All IsWhole docs
      → srr_infos docs key n ≡ (ok sis, m)
      → restore_documents same_instance key sis p ≡ store_all (restored same_instance docs) p
  unfolding restore_documents srr_infos store_all select
  restore_documents-srr_infos same_instance [] sis n m p whole h =
      ap (λ l. restore_documents same_instance key l p) (sym (ok-injective (ap (λ r. r.0) h)))
  restore_documents-srr_infos same_instance (doc ∷ docs) sis n m p whole h =
      let (si, written, h1) = continue-eq-ok (srr_info doc key n).0 _ (srr_info doc key n).1 h in
      let n' = (srr_info doc key n).1 in
      let (rest, others, h2) =
        continue-eq-ok (srr_infos docs key n').0 (λ rest. pure (si ∷ rest))
          (srr_infos docs key n').1 h1 in
      let back : create_from_srr si key ≡ ok doc =
        create_from_srr-srr_info laws openssl_laws doc key n n' si whole.0.ordered
          whole.0.has_private key_there (λ i. (written i, n')) in
      let step : restore_document same_instance (create_from_srr si key) p
          ≡ (if is_skipped same_instance doc then p else store doc p) =
        ap (λ r. restore_document same_instance r p) back
        ∙ restore_document_lem same_instance doc p whole.0 in
      let again = λ (q : Portfolio).
        restore_documents-srr_infos same_instance docs rest n' (srr_infos docs key n').1 q whole.1
          (λ i. (others i, (srr_infos docs key n').1)) in
      ap (λ l. restore_documents same_instance key l p) (sym (ok-injective (ap (λ r. r.0) h2)))
      ∙ ap (λ q. restore_documents same_instance key rest q) step
      ∙ elim (Bool-cases (is_skipped same_instance doc)) [
        | inl skipped ↦ rw skipped (again p)
        | inr kept ↦ rw kept (again (store doc p))
      ]

  -- A portfolio whose documents are marked as having their private data, and that a save returns
  -- for, comes back out of the save as what the documents that are not skipped fill a new portfolio
  -- with.
  pub load_portfolio_from_srr-whole :
      (same_instance : Bool) (p q : Portfolio) (n m : ℕ) (si : Si)
      → IsHeld p
      → portfolio_srr_info p key n ≡ (ok si, m)
      → load_portfolio_from_srr si key same_instance q
        ≡ (ok tt, store_all (restored same_instance (get_list_documents p)) (new_portfolio p.name))
  unfolding load_portfolio_from_srr load_portfolio_srr_version1 portfolio_srr_info new_portfolio
  load_portfolio_from_srr-whole same_instance p q n m si held h =
      let (sis, written, h1) = continue-eq-ok (srr_infos (get_list_documents p) key n).0 _ _ h in
      let made : portfolio_node p.name sis ≡ si = ok-injective (ap (λ r. r.0) h1) in
      ap (λ s. load_portfolio_from_srr s key same_instance q) (sym made)
      ∙ simp
          (
            get_member_lem,
            find_member-add,
            find_member-empty,
            to_string-of_string,
            to_byte-of_number 1 (omega arith),
            elements-of_elements,
            load_portfolio_from_srr,
            load_portfolio_srr_version1,
          )
          (λ i. (
            ok tt,
            (restore_documents-srr_infos same_instance (get_list_documents p) sis n
                  (srr_infos (get_list_documents p) key n).1 (new_portfolio p.name) held.whole
                  (λ j. (written j, (srr_infos (get_list_documents p) key n).1)))
                i,
          ))

  restored_all : (docs : List Document) → restored true docs ≡ docs
  unfolding select
  restored_all [] = refl
  restored_all (doc ∷ docs) = ap (λ l. doc ∷ l) (restored_all docs)

  -- On the same platform the portfolio is the same.
  pub restored_portfolio :
      (p : Portfolio)
      → IsHeld p
      → store_all (restored true (get_list_documents p)) (new_portfolio p.name) ≡ p
  restored_portfolio p held =
      ap (λ l. store_all l (new_portfolio p.name)) (restored_all (get_list_documents p))
      ∙ store_all-get_list_documents p held.in_order held.consistent

  -- A sound portfolio that a save returns for, with a passphrase that is not empty, comes back out
  -- of the save with the same passphrase, whatever the portfolio that it is loaded into held: the
  -- load returns, and leaves the name of the portfolio and, under every identifier and every name,
  -- the document that was there, marked as having its private data; but no internal certificate on
  -- another platform.
  pub load_portfolio_from_srr-portfolio_srr_info :
      (same_instance : Bool) (p q : Portfolio) (n m : ℕ) (si : Si)
      → IsSound p
      → portfolio_srr_info p key n ≡ (ok si, m)
      → (r : Portfolio) × (load_portfolio_from_srr si key same_instance q ≡ (ok tt, r))
        × IsRestored same_instance p r
  load_portfolio_from_srr-portfolio_srr_info same_instance p q n m si sound h =
      let test = λ (doc : Document). not (is_skipped same_instance doc) in
      let held = mark_portfolio-IsHeld p sound in
      (
        select_portfolio test (mark_portfolio p),
        load_portfolio_from_srr-whole same_instance (mark_portfolio p) q n m si held
              (ap (λ write. write n) (portfolio_srr_info-mark_portfolio key p) ∙ h)
            ∙ (λ i.
                (ok tt, store_all-select test (mark_portfolio p) held.in_order held.consistent i)),
        record {
          name = refl;
          by_id = λ k.
              lookup-select_values test k (StringMap.map_values marked p.documents)
                held.in_order.documents
              ∙ ap (λ o. kept test o) (StringMap.lookup-map_values marked k p.documents)
              ∙ kept-marked same_instance (StringMap.lookup k p.documents);
          by_name = λ k.
              lookup-select_values test k (StringMap.map_values marked p.map_name_documents)
                held.in_order.names
              ∙ ap (λ o. kept test o) (StringMap.lookup-map_values marked k p.map_name_documents)
              ∙ kept-marked same_instance (StringMap.lookup k p.map_name_documents);
        },
      )
