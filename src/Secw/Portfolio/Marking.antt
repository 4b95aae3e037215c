-- ===== src/Secw/Portfolio/Marking.antt =====
-- A sound portfolio comes back out of what it wrote, with its documents marked as having their
-- private data (lib/src/secw_portfolio.cc).
use mathlib.Core.Option
use fty_security_wallet.Base.{
  Bool, true, false, Option, some, none, List, [], ◌∷◌, map, All, ok, ◌≡◌, refl, sym, subst, ap,
  ◌∙◌, arith,
}
use fty_security_wallet.Base.StringMap
use fty_security_wallet.Base.StringMap.Order.{map_values-IsAscending}
use fty_security_wallet.External.{External}
use fty_security_wallet.External.Laws.{Laws}
use fty_security_wallet.Secw.Body.{
  Body, snmpv3, snmpv1, user_and_password, external_certificate, internal_certificate,
}
use fty_security_wallet.Secw.Body.Validation.{validate_body}
use fty_security_wallet.Secw.Document.{Document, info_with_secret, header_info, validate}
use fty_security_wallet.Secw.Document.Fitness.{IsFit}
use fty_security_wallet.Secw.Portfolio.{
  Portfolio, get_list_documents, portfolio_info, load_portfolio,
}
use fty_security_wallet.Secw.Portfolio.Consistency.{IsConsistent}
use fty_security_wallet.Secw.Portfolio.Reloading.{marked}
use fty_security_wallet.Secw.Portfolio.RoundTrip.{IsWhole, IsHeld, load_portfolio-portfolio_info}
use fty_security_wallet.Secw.Portfolio.Soundness.{IsSound}

-- the portfolio with each document marked
abbrev pub mark_portfolio : Portfolio → Portfolio
mark_portfolio p = record p {
  documents = StringMap.map_values marked p.documents;
  map_name_documents = StringMap.map_values marked p.map_name_documents;
}

unmap :
    (o : Option Document) (doc : Document)
    → Option.map marked o ≡ some doc
    → (old : Document) × (o ≡ some old) × (marked old ≡ doc)
unmap none doc h = absurd (cc h)
unmap (some old) doc h = (old, refl, cc h)

mark_portfolio-IsConsistent : (p : Portfolio) → IsConsistent p → IsConsistent (mark_portfolio p)
mark_portfolio-IsConsistent p fine = record {
  by_id = λ id doc h.
      let (old, there, same) =
        unmap (StringMap.lookup id p.documents) doc
          (sym (StringMap.lookup-map_values marked id p.documents) ∙ h) in
      let (named, indexed) = fine.by_id id old there in
      subst
        (λ d.
          (d.id ≡ id)
          × (StringMap.lookup d.name (StringMap.map_values marked p.map_name_documents) ≡ some d))
        same
        (
          named,
          StringMap.lookup-map_values marked old.name p.map_name_documents
              ∙ ap (λ o. Option.map marked o) indexed,
        );
  by_name = λ name doc h.
      let (old, there, same) =
        unmap (StringMap.lookup name p.map_name_documents) doc
          (sym (StringMap.lookup-map_values marked name p.map_name_documents) ∙ h) in
      let (named, stored) = fine.by_name name old there in
      subst
        (λ d.
          (d.name ≡ name)
          × (StringMap.lookup d.id (StringMap.map_values marked p.documents) ≡ some d))
        same
        (
          named,
          StringMap.lookup-map_values marked old.id p.documents
              ∙ ap (λ o. Option.map marked o) stored,
        );
}

module _ ⦃e : External⦄ where
  -- A document that is valid without its private data is valid as one that has them.
  validate_body_marked :
      (has_private : Bool) (b : Body)
      → validate_body has_private b ≡ ok tt
      → validate_body true b ≡ ok tt
  unfolding validate_body
  validate_body_marked true b h = h
  validate_body_marked false (snmpv3 s) h = ground arith
  validate_body_marked false (snmpv1 community) h = h
  validate_body_marked false (user_and_password user password) h = absurd (cc h)
  validate_body_marked false (external_certificate pem) h = h
  validate_body_marked false (internal_certificate pem key) h = absurd (cc h)

  marked-IsWhole : (docs : List Document) → All IsFit docs → All IsWhole (map marked docs)
  unfolding validate
  marked-IsWhole [] fit = tt
  marked-IsWhole (doc ∷ docs) (fit, rest) = (
    record {
      ordered = record {
        tags_sorted = fit.ordered.tags_sorted;
        usages_sorted = fit.ordered.usages_sorted;
      };
      has_private = refl;
      valid = validate_body_marked doc.contain_private_data doc.body fit.valid;
    },
    marked-IsWhole docs rest,
  )

  pub mark_portfolio-IsHeld : (p : Portfolio) → IsSound p → IsHeld (mark_portfolio p)
  unfolding get_list_documents
  mark_portfolio-IsHeld p sound = record {
    in_order = record {
      documents = map_values-IsAscending marked p.documents sound.in_order.documents;
      names = map_values-IsAscending marked p.map_name_documents sound.in_order.names;
    };
    consistent = mark_portfolio-IsConsistent p sound.consistent;
    whole =
        subst (λ docs. All IsWhole docs) (sym (StringMap.values-map_values marked p.documents))
          (marked-IsWhole (StringMap.values p.documents) sound.fit);
  }

  map_info-marked :
      (docs : List Document) → map info_with_secret (map marked docs) ≡ map info_with_secret docs
  unfolding info_with_secret header_info
  map_info-marked [] = refl
  map_info-marked (doc ∷ docs) = ap (λ l. info_with_secret doc ∷ l) (map_info-marked docs)

  -- A portfolio writes what it writes marked.
  pub portfolio_info-mark_portfolio :
      (p : Portfolio) → portfolio_info (mark_portfolio p) ≡ portfolio_info p
  unfolding portfolio_info get_list_documents
  portfolio_info-mark_portfolio p =
      rw (StringMap.values-map_values marked p.documents, portfolio_info)
        (rw (map_info-marked (StringMap.values p.documents), portfolio_info) refl)

  pub map_info-mark_portfolio :
      (ps : List Portfolio) → map portfolio_info (map mark_portfolio ps) ≡ map portfolio_info ps
  map_info-mark_portfolio [] = refl
  map_info-mark_portfolio (p ∷ ps) =
      λ i. portfolio_info-mark_portfolio p i ∷ map_info-mark_portfolio ps i

  -- A sound portfolio is what `loadPortfolio` makes of what `serializePortfolio` wrote of it, but
  -- that each document is marked as having its private data.
  pub load_portfolio-portfolio_info_marked :
      (laws : Laws) (p q : Portfolio)
      → IsSound p
      → load_portfolio (portfolio_info p) q ≡ (ok tt, mark_portfolio p)
  load_portfolio-portfolio_info_marked laws p q sound =
      ap (λ si. load_portfolio si q) (sym (portfolio_info-mark_portfolio p))
      ∙ load_portfolio-portfolio_info laws (mark_portfolio p) q (mark_portfolio-IsHeld p sound)
