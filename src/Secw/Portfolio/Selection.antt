-- ===== src/Secw/Portfolio/Selection.antt =====
-- A portfolio that is filled with some of the documents of another one (lib/src/secw_portfolio.cc).
use fty_security_wallet.Base.{
  Bool, true, some, none, Option, select, ◌≡◌, refl, sym, ap, ◌∙◌, Bool-cases, inl, inr,
}
use fty_security_wallet.Base.StringMap
use fty_security_wallet.Base.StringMap.Selection.{
  select_values, kept, select_values-IsAscending, values-select_values, lookup-select_values,
}
use fty_security_wallet.Secw.Document.{Document}
use fty_security_wallet.Secw.Portfolio.{Portfolio, new_portfolio, get_list_documents}
use fty_security_wallet.Secw.Portfolio.Consistency.{IsConsistent}
use fty_security_wallet.Secw.Portfolio.Rebuilding.{
  IsInOrder, store_all, store_all-get_list_documents,
}

module _ (test : Document → Bool) where
  abbrev pub select_portfolio : Portfolio → Portfolio
  select_portfolio p = record p {
    documents = select_values test p.documents;
    map_name_documents = select_values test p.map_name_documents;
  }

  unkept :
      (o : Option Document) (doc : Document)
      → kept test o ≡ some doc
      → (o ≡ some doc) × (test doc ≡ true)
  unkept none doc h = absurd (cc h)
  unkept (some d) doc h = elim (Bool-cases (test d)) [
    | inl passes ↦
        let same : d ≡ doc = cc (rw passes at h) in
        (ap (λ c. some c) same, ap (λ c. test c) (sym same) ∙ passes)
    | inr fails ↦ absurd (cc (rw fails at h))
  ]

  kept-some :
      (o : Option Document) (doc : Document)
      → o ≡ some doc
      → test doc ≡ true
      → kept test o ≡ some doc
  kept-some o doc h passes = ap (λ o. kept test o) h ∙ rw passes refl

  module _ (p : Portfolio) (ordered : IsInOrder p) (fine : IsConsistent p) where
    select_portfolio-IsInOrder : IsInOrder (select_portfolio p)
    select_portfolio-IsInOrder = record {
      documents = select_values-IsAscending test p.documents ordered.documents;
      names = select_values-IsAscending test p.map_name_documents ordered.names;
    }

    select_portfolio-IsConsistent : IsConsistent (select_portfolio p)
    select_portfolio-IsConsistent = record {
      by_id = λ id doc h.
          let (there, passes) =
            unkept (StringMap.lookup id p.documents) doc
              (sym (lookup-select_values test id p.documents ordered.documents) ∙ h) in
          let (named, indexed) = fine.by_id id doc there in
          (
            named,
            lookup-select_values test doc.name p.map_name_documents ordered.names
                ∙ kept-some _ doc indexed passes,
          );
      by_name = λ name doc h.
          let (there, passes) =
            unkept (StringMap.lookup name p.map_name_documents) doc
              (sym (lookup-select_values test name p.map_name_documents ordered.names) ∙ h) in
          let (named, stored) = fine.by_name name doc there in
          (
            named,
            lookup-select_values test doc.id p.documents ordered.documents
                ∙ kept-some _ doc stored passes,
          );
    }

    -- The selected documents fill a new portfolio of its name with the selected entries of its maps.
    pub store_all-select :
        store_all (select test (get_list_documents p)) (new_portfolio p.name) ≡ select_portfolio p
    unfolding get_list_documents
    store_all-select =
        ap (λ l. store_all l (new_portfolio p.name)) (sym (values-select_values test p.documents))
        ∙ store_all-get_list_documents (select_portfolio p) select_portfolio-IsInOrder
            select_portfolio-IsConsistent
