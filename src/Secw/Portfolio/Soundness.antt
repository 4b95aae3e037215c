-- ===== src/Secw/Portfolio/Soundness.antt =====
-- What every portfolio of the server keeps: its maps are in order and index the same documents, each
-- of which was read and is valid (lib/src/secw_portfolio.cc).
use fty_security_wallet.Base.{
  ℕ, suc, String, All, length, ok, ok-injective, ◌≡◌, subst, ◌⊎◌, inl, inr, ◌==◌, Bool-cases,
  Option-cases,
}
use fty_security_wallet.Base.StringMap
use fty_security_wallet.Base.StringMap.{StringMap}
use fty_security_wallet.Base.StringMap.Order.{erase-IsAscending}
use fty_security_wallet.External.{External}
use fty_security_wallet.Secw.Document.{Document, validate}
use fty_security_wallet.Secw.Document.Fitness.{IsFit}
use fty_security_wallet.Secw.Portfolio.{
  Portfolio, store, add, add_with, fresh_id, remove, replace, update, get_list_documents,
}
use fty_security_wallet.Secw.Portfolio.Consistency.{
  IsConsistent, add-IsConsistent, remove-IsConsistent, update-IsConsistent,
}
use fty_security_wallet.Secw.Portfolio.Rebuilding.{IsInOrder, store-IsInOrder}

-- What an update makes of a portfolio: the document stored, with the old name gone or not.
replace_lem :
    (doc old : Document) (p q : Portfolio)
    → replace doc old p ≡ ok q
    → (store doc p ≡ q)
      ⊎ (store doc (record p { map_name_documents = StringMap.erase old.name p.map_name_documents })
          ≡ q)
unfolding replace
replace_lem doc old p q h = elim (Bool-cases (doc.name == old.name)) [
  | inl same ↦ inl (ok-injective (rw same at h))
  | inr renamed ↦ elim (Bool-cases (StringMap.member doc.name p.map_name_documents)) [
    | inl taken ↦ absurd (cc (rw taken at (rw renamed at h)))
    | inr free ↦ inr (ok-injective (rw free at (rw renamed at h)))
  ]
]

module _ ⦃e : External⦄ where
  pub record IsSound (p : Portfolio) : Type 0 where
    pub in_order : IsInOrder p
    pub consistent : IsConsistent p
    pub fit : All IsFit (get_list_documents p)

  -- the part that does not relate the two maps
  abbrev IsTidy : Portfolio → Type 0
  IsTidy p = IsInOrder p × All IsFit (get_list_documents p)

  store-IsTidy : (doc : Document) (p : Portfolio) → IsFit doc → IsTidy p → IsTidy (store doc p)
  unfolding store get_list_documents
  store-IsTidy doc p fit tidy = (
    store-IsInOrder doc p tidy.0,
    StringMap.All-values-insert IsFit doc.id doc p.documents fit tidy.1,
  )

  add-IsTidy :
      (doc : Document) (p : Portfolio) (n : ℕ) → IsFit doc → IsTidy p → IsTidy (add doc (p, n)).1.0
  unfolding add add_with validate
  add-IsTidy doc p n fit tidy = elim (Bool-cases (StringMap.member doc.name p.map_name_documents)) [
    | inl taken ↦ rw taken tidy
    | inr free ↦ rw free (elim (Option-cases (fresh_id (suc (length p.documents)) n p.documents)) [
      | inl none_left ↦ rw (none_left, add_with) tidy
      | inr ((id, n'), found) ↦
          let named : IsFit (record doc { id = id }) = record {
            ordered = record {
              tags_sorted = fit.ordered.tags_sorted;
              usages_sorted = fit.ordered.usages_sorted;
            };
            valid = fit.valid;
          } in
          rw (found, add_with) (store-IsTidy (record doc { id = id }) p named tidy)
    ])
  ]

  replace-IsTidy :
      (doc old : Document) (p q : Portfolio)
      → IsFit doc
      → IsTidy p
      → replace doc old p ≡ ok q
      → IsTidy q
  unfolding get_list_documents
  replace-IsTidy doc old p q fit tidy h = elim (replace_lem doc old p q h) [
    | inl same ↦ subst IsTidy same (store-IsTidy doc p fit tidy)
    | inr renamed ↦
        let names = StringMap.erase old.name p.map_name_documents in
        let up : IsInOrder (record p { map_name_documents = names }) = record {
          documents = tidy.0.documents;
          names = erase-IsAscending old.name p.map_name_documents tidy.0.names;
        } in
        subst IsTidy renamed
          (store-IsTidy doc (record p { map_name_documents = names }) fit (up, tidy.1))
  ]

  update-IsTidy :
      (doc : Document) (p q : Portfolio) → IsFit doc → IsTidy p → update doc p ≡ ok q → IsTidy q
  unfolding update
  update-IsTidy doc p q fit tidy h = elim (Option-cases (StringMap.lookup doc.id p.documents)) [
    | inl absent ↦ absurd (cc (rw (absent, update) at h))
    | inr (old, present) ↦ replace-IsTidy doc old p q fit tidy (rw (present, update) at h)
  ]

  remove-IsTidy : (id : String) (p q : Portfolio) → IsTidy p → remove id p ≡ ok q → IsTidy q
  unfolding remove get_list_documents
  remove-IsTidy id p q tidy h = elim (Option-cases (StringMap.lookup id p.documents)) [
    | inl absent ↦ absurd (cc (rw (absent, remove) at h))
    | inr (doc, present) ↦
        let made = ok-injective (rw (present, remove) at h) in
        subst IsTidy made (
          record {
            documents = erase-IsAscending id p.documents tidy.0.documents;
            names = erase-IsAscending doc.name p.map_name_documents tidy.0.names;
          },
          StringMap.All-values-erase IsFit id p.documents tidy.1,
        )
  ]

  whole_of : (p : Portfolio) → IsTidy p → IsConsistent p → IsSound p
  whole_of p tidy consistent = record { in_order = tidy.0; consistent = consistent; fit = tidy.1 }

  pub add-IsSound :
      (doc : Document) (p : Portfolio) (n : ℕ)
      → IsFit doc
      → IsSound p
      → IsSound (add doc (p, n)).1.0
  add-IsSound doc p n fit sound =
      whole_of _ (add-IsTidy doc p n fit (sound.in_order, sound.fit))
        (add-IsConsistent doc p n sound.consistent)

  pub remove-IsSound : (id : String) (p q : Portfolio) → IsSound p → remove id p ≡ ok q → IsSound q
  remove-IsSound id p q sound h =
      whole_of q (remove-IsTidy id p q (sound.in_order, sound.fit) h)
        (remove-IsConsistent id p q sound.consistent h)

  pub update-IsSound :
      (doc : Document) (p q : Portfolio) → IsFit doc → IsSound p → update doc p ≡ ok q → IsSound q
  update-IsSound doc p q fit sound h =
      whole_of q (update-IsTidy doc p q fit (sound.in_order, sound.fit) h)
        (update-IsConsistent doc p q sound.consistent h)
