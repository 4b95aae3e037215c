-- ===== src/Secw/Portfolio/Changes.antt =====
-- What an update and a removal do to the look-ups of a portfolio (lib/src/secw_portfolio.cc).
use fty_security_wallet.Base.{
  String, some, none, ok, ◌≡◌, ◌⊎◌, inl, inr, refl, ap, ◌∙◌, subst, ◌==◌, eq_iff, ok-injective,
  if◌then◌else◌, Bool-cases, Option-cases, arith,
}
use fty_security_wallet.Base.StringMap
use fty_security_wallet.Secw.Document.{Document}
use fty_security_wallet.Secw.Portfolio.{Portfolio, store, remove, replace, update, get_document}

-- The document is under its identifier and its name no more, and what the other identifiers and
-- names lead to is as it was.
pub record IsRemoved (id : String) (doc : Document) (p q : Portfolio) : Type 0 where
  pub name : q.name ≡ p.name
  pub by_id :
      (k : String)
      → StringMap.lookup k q.documents ≡ (if id == k then none else StringMap.lookup k p.documents)
  pub by_name :
      (k : String)
      → StringMap.lookup k q.map_name_documents
        ≡ (if doc.name == k then none else StringMap.lookup k p.map_name_documents)

pub remove-IsRemoved :
    (id : String) (doc : Document) (p q : Portfolio)
    → get_document id p ≡ ok doc
    → remove id p ≡ ok q
    → IsRemoved id doc p q
unfolding remove get_document
remove-IsRemoved id doc p q there h = elim (Option-cases (StringMap.lookup id p.documents)) [
  | inl absent ↦ absurd (cc (rw (absent, remove) at h))
  | inr (found, present) ↦
      let same : found ≡ doc = ok-injective (rw (present, get_document) at there) in
      let made = ok-injective (rw (present, remove) at h) in
      subst (λ r. IsRemoved id doc p r) made
        (record {
          name = refl;
          by_id = λ k. StringMap.lookup-erase id k p.documents;
          by_name = λ k.
              StringMap.lookup-erase found.name k p.map_name_documents
              ∙ ap (λ d. if d.name == k then none else StringMap.lookup k p.map_name_documents)
                  same;
        })
]

-- The document is under its identifier and its name, which was the name of the old one or free; the
-- old name leads nowhere if it was another, and what the other identifiers and names lead to is as
-- it was.
pub record IsUpdated (old doc : Document) (p q : Portfolio) : Type 0 where
  pub name : q.name ≡ p.name
  pub name_free : (doc.name ≡ old.name) ⊎ (StringMap.lookup doc.name p.map_name_documents ≡ none)
  pub by_id :
      (k : String)
      → StringMap.lookup k q.documents
        ≡ (if doc.id == k then some doc else StringMap.lookup k p.documents)
  pub by_name :
      (k : String)
      → StringMap.lookup k q.map_name_documents ≡ (
          if doc.name == k
          then some doc
          else if old.name == k
          then none
          else StringMap.lookup k p.map_name_documents)

module _ (old doc : Document) (p : Portfolio) where
  overwrite-IsUpdated : doc.name ≡ old.name → IsUpdated old doc p (store doc p)
  unfolding store
  overwrite-IsUpdated same = record {
    name = refl;
    name_free = inl same;
    by_id = λ k. StringMap.lookup-insert doc.id k doc p.documents;
    by_name = λ k. ground (
      arith,
      StringMap.lookup-insert doc.name k doc p.map_name_documents,
      eq_iff doc.name k,
      eq_iff old.name k,
    );
  }

  rename-IsUpdated :
      StringMap.lookup doc.name p.map_name_documents ≡ none
      → IsUpdated old doc p (
          store doc
            (record p { map_name_documents = StringMap.erase old.name p.map_name_documents }))
  unfolding store
  rename-IsUpdated free = record {
    name = refl;
    name_free = inr free;
    by_id = λ k. StringMap.lookup-insert doc.id k doc p.documents;
    by_name = λ k. ground (
      arith,
      StringMap.lookup-insert doc.name k doc (StringMap.erase old.name p.map_name_documents),
      StringMap.lookup-erase old.name k p.map_name_documents,
    );
  }

  replace-IsUpdated : (q : Portfolio) → replace doc old p ≡ ok q → IsUpdated old doc p q
  unfolding replace
  replace-IsUpdated q h = elim (Bool-cases (doc.name == old.name)) [
    | inl same ↦
        subst (λ r. IsUpdated old doc p r) (ok-injective (rw same at h))
          (overwrite-IsUpdated ((eq_iff _ _).0 same))
    | inr renamed ↦ elim (Bool-cases (StringMap.member doc.name p.map_name_documents)) [
      | inl taken ↦ absurd (cc (rw taken at (rw renamed at h)))
      | inr free ↦
          subst (λ r. IsUpdated old doc p r) (ok-injective (rw free at (rw renamed at h)))
            (rename-IsUpdated ((StringMap.member_iff _ _).0 free))
    ]
  ]

pub update-IsUpdated :
    (old doc : Document) (p q : Portfolio)
    → get_document doc.id p ≡ ok old
    → update doc p ≡ ok q
    → IsUpdated old doc p q
unfolding update get_document
update-IsUpdated old doc p q there h = elim (Option-cases (StringMap.lookup doc.id p.documents)) [
  | inl absent ↦ absurd (cc (rw (absent, update) at h))
  | inr (found, present) ↦
      let same : found ≡ old = ok-injective (rw (present, get_document) at there) in
      subst (λ o. IsUpdated o doc p q) same
        (replace-IsUpdated found doc p q (rw (present, update) at h))
]
