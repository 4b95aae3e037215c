-- ===== src/Secw/Portfolio/Consistency.antt =====
-- The two maps of a portfolio index the same documents, and every operation keeps that.
use fty_security_wallet.Base.{
  ℕ, String, some, none, ◌≡◌, subst, ok-injective, ok, ◌==◌, eq_iff, arith, Bool-cases,
  Option-cases, inl, inr, length, suc,
}
use fty_security_wallet.Base.StringMap
use fty_security_wallet.External.{External}
use fty_security_wallet.Secw.Document.{Document}
use fty_security_wallet.Secw.Portfolio.FreshId.{fresh_id-new}
use fty_security_wallet.Secw.Portfolio.{
  Portfolio, new_portfolio, store, remove, replace, update, add_with, fresh_id, add,
}

-- The documents under their own ids, and the same documents under their own names: so no two
-- documents of a portfolio share a name.
pub record IsConsistent (p : Portfolio) : Type 0 where
  pub by_id :
      (id : String) (doc : Document)
      → StringMap.lookup id p.documents ≡ some doc
      → (doc.id ≡ id) × (StringMap.lookup doc.name p.map_name_documents ≡ some doc)
  pub by_name :
      (name : String) (doc : Document)
      → StringMap.lookup name p.map_name_documents ≡ some doc
      → (doc.name ≡ name) × (StringMap.lookup doc.id p.documents ≡ some doc)

pub new_portfolio-IsConsistent : (name : String) → IsConsistent (new_portfolio name)
unfolding new_portfolio StringMap.lookup
new_portfolio-IsConsistent name = record { by_id = λ id doc h. cc h; by_name = λ n doc h. cc h }

-- A new name under a new id.
pub store-IsConsistent :
    (doc : Document) (p : Portfolio)
    → IsConsistent p
    → StringMap.lookup doc.id p.documents ≡ none
    → StringMap.lookup doc.name p.map_name_documents ≡ none
    → IsConsistent (store doc p)
unfolding store
store-IsConsistent doc p ok_p new_id new_name = record {
  by_id = λ id d h. ground (
    arith,
    ok_p.by_id id d,
    eq_iff doc.id id,
    eq_iff doc.name d.name,
    StringMap.lookup-insert doc.id id doc p.documents,
    StringMap.lookup-insert doc.name d.name doc p.map_name_documents,
  );
  by_name = λ name d h. ground (
    arith,
    ok_p.by_name name d,
    eq_iff doc.name name,
    eq_iff doc.id d.id,
    StringMap.lookup-insert doc.name name doc p.map_name_documents,
    StringMap.lookup-insert doc.id d.id doc p.documents,
  );
}

module _ (doc old : Document) (p : Portfolio) (ok_p : IsConsistent p)
    (present : StringMap.lookup doc.id p.documents ≡ some old) where
  -- The old name is given up for one that is not in use.
  rename-IsConsistent :
      StringMap.lookup doc.name p.map_name_documents ≡ none
      → IsConsistent (
          store doc
            (record p { map_name_documents = StringMap.erase old.name p.map_name_documents }))
  unfolding store
  rename-IsConsistent new_name = record {
    by_id = λ id d h. ground (
      arith,
      ok_p.by_id id d,
      ok_p.by_id doc.id old present,
      eq_iff doc.id id,
      eq_iff doc.name d.name,
      eq_iff old.name d.name,
      StringMap.lookup-insert doc.id id doc p.documents,
      StringMap.lookup-insert doc.name d.name doc (StringMap.erase old.name p.map_name_documents),
      StringMap.lookup-erase old.name d.name p.map_name_documents,
    );
    by_name = λ name d h. ground (
      arith,
      ok_p.by_name name d,
      ok_p.by_id doc.id old present,
      eq_iff doc.name name,
      eq_iff doc.id d.id,
      eq_iff old.name name,
      StringMap.lookup-insert doc.name name doc (StringMap.erase old.name p.map_name_documents),
      StringMap.lookup-erase old.name name p.map_name_documents,
      StringMap.lookup-insert doc.id d.id doc p.documents,
    );
  }

  -- The name stays.
  overwrite-IsConsistent : doc.name ≡ old.name → IsConsistent (store doc p)
  unfolding store
  overwrite-IsConsistent same = record {
    by_id = λ id d h. ground (
      arith,
      ok_p.by_id id d,
      ok_p.by_id doc.id old present,
      eq_iff doc.id id,
      eq_iff doc.name d.name,
      StringMap.lookup-insert doc.id id doc p.documents,
      StringMap.lookup-insert doc.name d.name doc p.map_name_documents,
    );
    by_name = λ name d h. ground (
      arith,
      ok_p.by_name name d,
      ok_p.by_id doc.id old present,
      eq_iff doc.name name,
      eq_iff doc.id d.id,
      StringMap.lookup-insert doc.name name doc p.map_name_documents,
      StringMap.lookup-insert doc.id d.id doc p.documents,
    );
  }

  replace-IsConsistent : (q : Portfolio) → replace doc old p ≡ ok q → IsConsistent q
  unfolding replace
  replace-IsConsistent q h = elim (Bool-cases (doc.name == old.name)) [
    | inl same ↦
        let q≡ : store doc p ≡ q = ground arith in
        subst IsConsistent q≡ (overwrite-IsConsistent ((eq_iff _ _).0 same))
    | inr renamed ↦ elim (Bool-cases (StringMap.member doc.name p.map_name_documents)) [
      | inl taken ↦ cc (rw taken at (rw renamed at h))
      | inr free ↦
          let q≡ : store doc
                (record p { map_name_documents = StringMap.erase old.name p.map_name_documents })
              ≡ q =
            ground arith in
          subst IsConsistent q≡ (rename-IsConsistent ((StringMap.member_iff _ _).0 free))
    ]
  ]

-- `update` keeps a portfolio consistent: a document that is there is replaced, under the name that
-- it had or one that no other document has.
pub update-IsConsistent :
    (doc : Document) (p q : Portfolio) → IsConsistent p → update doc p ≡ ok q → IsConsistent q
unfolding update
update-IsConsistent doc p q ok_p h = elim (Option-cases (StringMap.lookup doc.id p.documents)) [
  | inl absent ↦ cc (rw (absent, update) at h)
  | inr (old, present) ↦ replace-IsConsistent doc old p ok_p present q (rw (present, update) at h)
]

module _ (doc : Document) (p : Portfolio) (ok_p : IsConsistent p) (id : String)
    (present : StringMap.lookup id p.documents ≡ some doc) where
  erase-IsConsistent : IsConsistent (record p {
    documents = StringMap.erase id p.documents;
    map_name_documents = StringMap.erase doc.name p.map_name_documents;
  })
  erase-IsConsistent = record {
    by_id = λ j d h. ground (
      arith,
      ok_p.by_id j d,
      ok_p.by_id id doc present,
      eq_iff id j,
      eq_iff doc.name d.name,
      StringMap.lookup-erase id j p.documents,
      StringMap.lookup-erase doc.name d.name p.map_name_documents,
    );
    by_name = λ name d h. ground (
      arith,
      ok_p.by_name name d,
      ok_p.by_id id doc present,
      eq_iff doc.name name,
      eq_iff id d.id,
      StringMap.lookup-erase doc.name name p.map_name_documents,
      StringMap.lookup-erase id d.id p.documents,
    );
  }

-- `remove` keeps a portfolio consistent.
pub remove-IsConsistent :
    (id : String) (p q : Portfolio) → IsConsistent p → remove id p ≡ ok q → IsConsistent q
unfolding remove
remove-IsConsistent id p q ok_p h = elim (Option-cases (StringMap.lookup id p.documents)) [
  | inl absent ↦ cc (rw (absent, remove) at h)
  | inr (doc, present) ↦
      let q≡ = rw (present, remove) at h in
      subst IsConsistent (ok-injective q≡) (erase-IsConsistent doc p ok_p id present)
]

-- `add` keeps a portfolio consistent, also when it throws.
pub add-IsConsistent :
    ⦃e : External⦄ (doc : Document) (p : Portfolio) (n : ℕ)
    → IsConsistent p
    → IsConsistent (add doc (p, n)).1.0
unfolding add add_with
add-IsConsistent ⦃e⦄ doc p n ok_p =
    elim (Bool-cases (StringMap.member doc.name p.map_name_documents)) [
      | inl taken ↦ rw taken ok_p
      | inr free ↦
          rw free (elim (Option-cases (fresh_id (suc (length p.documents)) n p.documents)) [
            | inl none_left ↦ rw (none_left, add_with) ok_p
            | inr ((id, n'), found) ↦
                rw (found, add_with)
                  (store-IsConsistent (record doc { id = id }) p ok_p
                    ((StringMap.member_iff _ _).0
                      (fresh_id-new (suc (length p.documents)) n p.documents id n' found))
                    ((StringMap.member_iff _ _).0 free))
          ])
    ]
