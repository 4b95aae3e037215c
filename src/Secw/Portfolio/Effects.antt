-- ===== src/Secw/Portfolio/Effects.antt =====
-- What the operations of a portfolio do (lib/src/secw_portfolio.cc).
use fty_security_wallet.Base.{
  ℕ, suc, String, ◌≡◌, refl, ok, err, length, Bool-cases, Option-cases, inl, inr, false, true, ◌⊎◌,
  ok-injective, arith, some, ap, ◌∙◌, ◌==◌, if◌then◌else◌,
}
use fty_security_wallet.Base.StringMap
use fty_security_wallet.External.{External}
use fty_security_wallet.Secw.Error.{throw_name_already_exists}
use fty_security_wallet.Secw.Document.{Document}
use fty_security_wallet.Secw.Portfolio.{Portfolio, store, fresh_id, add, add_with}
use fty_security_wallet.Secw.Portfolio.FreshId.{IsInjective, fresh_id-new, fresh_id_total}

module _ ⦃e : External⦄ (doc : Document) (p : Portfolio) (n : ℕ) where
  -- A document stored under a new name and a new identifier, which lead to it; all others lead to
  -- what they did.
  pub record IsAdded (id : String) (q : Portfolio) : Type 0 where
    pub name_free : StringMap.member doc.name p.map_name_documents ≡ false
    pub id_free : StringMap.member id p.documents ≡ false
    pub name : q.name ≡ p.name
    pub stored : q ≡ store (record doc { id = id }) p
    pub by_id :
        (k : String)
        → StringMap.lookup k q.documents
          ≡ (if id == k then some (record doc { id = id }) else StringMap.lookup k p.documents)
    pub by_name :
        (k : String)
        → StringMap.lookup k q.map_name_documents ≡ (
            if doc.name == k
            then some (record doc { id = id })
            else StringMap.lookup k p.map_name_documents)

  -- An `add` that returns an identifier has found the name free and the identifier unused, and has
  -- stored the document: the two lead to it, with that identifier, and all others to what they did.
  pub add-IsAdded : (id : String) → (add doc (p, n)).0 ≡ ok id → IsAdded id (add doc (p, n)).1.0
  unfolding add add_with store
  add-IsAdded id h = elim (Bool-cases (StringMap.member doc.name p.map_name_documents)) [
    | inl taken ↦ cc (rw taken at h)
    | inr free ↦ elim (Option-cases (fresh_id (suc (length p.documents)) n p.documents)) [
      | inl none_left ↦ cc (rw (none_left, add_with) at (rw free at h))
      | inr ((new_id, n'), found) ↦
          let same : new_id ≡ id = ok-injective (rw (found, add_with) at (rw free at h)) in
          rw free (
            rw (found, add_with)
              (record {
                name_free = free;
                id_free =
                    rw (← same)
                      (fresh_id-new (suc (length p.documents)) n p.documents new_id n' found);
                name = refl;
                stored = rw same;
                by_id = λ k.
                    StringMap.lookup-insert new_id k (record doc { id = new_id }) p.documents
                    ∙ ap
                        (λ i.
                          if i == k
                          then some (record doc { id = i })
                          else StringMap.lookup k p.documents)
                        same;
                by_name = λ k.
                    StringMap.lookup-insert doc.name k (record doc { id = new_id })
                      p.map_name_documents
                    ∙ ap
                        (λ i.
                          if doc.name == k
                          then some (record doc { id = i })
                          else StringMap.lookup k p.map_name_documents)
                        same;
              }))
    ]
  ]

  -- With a generator that never repeats itself, `add` comes back: it throws exactly when the name
  -- is in use, and else returns an identifier.
  pub add_total :
      IsInjective
      → ((StringMap.member doc.name p.map_name_documents ≡ true)
          × ((add doc (p, n)).0 ≡ err (throw_name_already_exists doc.name)))
        ⊎ ((StringMap.member doc.name p.map_name_documents ≡ false)
            × ((id : String) × ((add doc (p, n)).0 ≡ ok id)))
  unfolding add add_with
  add_total injective = elim (Bool-cases (StringMap.member doc.name p.map_name_documents)) [
    | inl taken ↦ inl (taken, rw taken)
    | inr free ↦
        let ((id, n'), found) =
          fresh_id_total injective (suc (length p.documents)) n p.documents (omega arith) in
        inr (free, (id, rw free (rw (found, add_with))))
  ]
