-- ===== src/Secw/Portfolio/RoundTrip.antt =====
-- A portfolio reads back from what it writes (lib/src/secw_portfolio.cc).
use fty_security_wallet.Base.{true, List, [], ◌∷◌, sym, All, ok, ◌≡◌, refl, ap, ◌∙◌}
use fty_security_wallet.External.{External}
use fty_security_wallet.External.Laws.{Laws}
use fty_security_wallet.Secw.Document.{Document, validate}
use fty_security_wallet.Secw.Document.RoundTrip.{IsOrdered}
use fty_security_wallet.Secw.Portfolio.{
  Portfolio, new_portfolio, get_list_documents, portfolio_info, load_portfolio,
}
use fty_security_wallet.Secw.Portfolio.Reloading.{
  marked, if_valid, complete, load_portfolio-complete,
}
use fty_security_wallet.Secw.Portfolio.Consistency.{IsConsistent}
use fty_security_wallet.Secw.Portfolio.Rebuilding.{
  IsInOrder, store_all, store_all-get_list_documents,
}

module _ ⦃e : External⦄ where
  -- A document with its sets in order, marked as having its private data, and valid.
  pub record IsWhole (doc : Document) : Type 0 where
    pub ordered : IsOrdered doc
    pub has_private : doc.contain_private_data ≡ true
    pub valid : validate doc ≡ ok tt

  -- A portfolio in order and consistent, whose documents are so.
  pub record IsHeld (p : Portfolio) : Type 0 where
    pub in_order : IsInOrder p
    pub consistent : IsConsistent p
    pub whole : All IsWhole (get_list_documents p)

  complete-IsWhole : (docs : List Document) → All IsWhole docs → complete docs ≡ docs
  complete-IsWhole [] whole = refl
  complete-IsWhole (doc ∷ docs) whole =
      let same : marked doc ≡ doc =
        λ i. record doc { contain_private_data = sym (whole.0.has_private) i } in
      ap (λ d. if_valid (validate d) d (complete docs)) same
      ∙ rw (whole.0.valid) (ap (λ l. doc ∷ l) (complete-IsWhole docs whole.1))

  IsWhole-IsOrdered : (docs : List Document) → All IsWhole docs → All IsOrdered docs
  IsWhole-IsOrdered [] whole = tt
  IsWhole-IsOrdered (doc ∷ docs) whole = (whole.0.ordered, IsWhole-IsOrdered docs whole.1)

  -- Such a portfolio is what `loadPortfolio` makes of what `serializePortfolio`
  -- wrote of it, whatever the portfolio that it is loaded into held.
  pub load_portfolio-portfolio_info :
      (laws : Laws) (p q : Portfolio) → IsHeld p → load_portfolio (portfolio_info p) q ≡ (ok tt, p)
  load_portfolio-portfolio_info laws p q held =
      load_portfolio-complete laws p q (IsWhole-IsOrdered (get_list_documents p) held.whole)
      ∙ (λ i. (
        ok tt,
        store_all (complete-IsWhole (get_list_documents p) held.whole i) (new_portfolio p.name),
      ))
      ∙ (λ i. (ok tt, store_all-get_list_documents p held.in_order held.consistent i))
