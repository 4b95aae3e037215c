-- ===== src/Secw/Portfolio/Rebuilding.antt =====
-- A portfolio that is filled with the documents of another one, in the order of their ids, is that
-- other one (lib/src/secw_portfolio.cc).
use fty_security_wallet.Base.{
  String, Bool, true, false, Option, some, none, List, [], ◌∷◌, ◌≡◌, refl, sym, ap, ◌∙◌, ◌≢◌, ◌⊎◌,
  ◌==◌, eq_iff, eq_refl, if◌then◌else◌, Bool-cases, Option-cases, inl, inr,
}
use fty_security_wallet.Base.StringMap
use fty_security_wallet.Base.StringMap.{StringMap}
use fty_security_wallet.Base.StringMap.Order.{
  IsAscending, IsBelow, insert-IsAscending, lookup_below, map_ext,
}
use fty_security_wallet.External.Laws.{first_of_both}
use fty_security_wallet.Secw.Document.{Document}
use fty_security_wallet.Secw.Portfolio.{Portfolio, new_portfolio, store, get_list_documents}
use fty_security_wallet.Secw.Portfolio.Consistency.{IsConsistent}

-- The two maps are in order.
pub record IsInOrder (p : Portfolio) : Type 0 where
  pub documents : IsAscending p.documents
  pub names : IsAscending p.map_name_documents

unfoldable pub store_all : List Document → Portfolio → Portfolio
unfolding store
store_all [] p = p
store_all (doc ∷ docs) p = store_all docs (store doc p)

pub store-IsInOrder : (doc : Document) (p : Portfolio) → IsInOrder p → IsInOrder (store doc p)
unfolding store
store-IsInOrder doc p ordered = record {
  documents = insert-IsAscending doc.id doc p.documents ordered.documents;
  names = insert-IsAscending doc.name doc p.map_name_documents ordered.names;
}

store_all-IsInOrder :
    (docs : List Document) (p : Portfolio) → IsInOrder p → IsInOrder (store_all docs p)
unfolding store_all
store_all-IsInOrder [] p ordered = ordered
store_all-IsInOrder (doc ∷ docs) p ordered =
    store_all-IsInOrder docs (store doc p) (store-IsInOrder doc p ordered)

name-store_all : (docs : List Document) (p : Portfolio) → (store_all docs p).name ≡ p.name
unfolding store_all store
name-store_all [] p = refl
name-store_all (doc ∷ docs) p = name-store_all docs (store doc p)

-- The last document of a list with a name.
last_named : String → List Document → Option Document
last_named name [] = none
last_named name (doc ∷ docs) =
    first_of_both (last_named name docs) (if doc.name == name then some doc else none)

lookup-store_all_name :
    (name : String) (docs : List Document) (p : Portfolio)
    → StringMap.lookup name (store_all docs p).map_name_documents
      ≡ first_of_both (last_named name docs) (StringMap.lookup name p.map_name_documents)
unfolding store_all store last_named
lookup-store_all_name name [] p = refl
lookup-store_all_name name (doc ∷ docs) p =
    lookup-store_all_name name docs (store doc p)
    ∙ rw (StringMap.lookup-insert doc.name name doc p.map_name_documents)
        (either (last_named name docs) (doc.name == name))
  where
    either :
        (o : Option Document) (b : Bool)
        → first_of_both o (if b then some doc else StringMap.lookup name p.map_name_documents)
          ≡ first_of_both
              (first_of_both o (if b then some doc else none))
              (StringMap.lookup name p.map_name_documents)
    either (some d) b = refl
    either none true = refl
    either none false = refl

-- Each document of a map stands under its own id.
abbrev pub IsById : StringMap Document → Type 0
IsById m = (id : String) (doc : Document) → StringMap.lookup id m ≡ some doc → doc.id ≡ id

IsById-tail :
    (k : String) (d : Document) (m : StringMap Document)
    → IsBelow k m
    → IsById ((k, d) ∷ m)
    → IsById m
unfolding StringMap.lookup
IsById-tail k d m below by_id id doc h = elim (Bool-cases (k == id)) [
  | inr other ↦ by_id id doc (rw other h)
  | inl here ↦
      absurd (cc (h, lookup_below k m below, ap (λ i. StringMap.lookup i m) ((eq_iff k id).0 here)))
]

lookup-store_all :
    (id : String) (m : StringMap Document) (p : Portfolio)
    → IsAscending m
    → IsById m
    → StringMap.lookup id (store_all (StringMap.values m) p).documents
      ≡ first_of_both (StringMap.lookup id m) (StringMap.lookup id p.documents)
unfolding store_all store StringMap.lookup StringMap.values
lookup-store_all id [] p up by_id = refl
lookup-store_all id ((k, d) ∷ m) p up by_id =
    let key : d.id ≡ k = by_id k d (rw (eq_refl k)) in
    let step =
      lookup-store_all id m (store d p) up.1 (IsById-tail k d m up.0 by_id)
      ∙ ap (λ o. first_of_both (StringMap.lookup id m) o)
          (StringMap.lookup-insert d.id id d p.documents
            ∙ ap (λ j. if j == id then some d else StringMap.lookup id p.documents) key) in
    elim (Bool-cases (k == id)) [
      | inr other ↦ rw other (rw other at step)
      | inl here ↦
          let gone : StringMap.lookup id m ≡ none =
            ap (λ i. StringMap.lookup i m) (sym ((eq_iff k id).0 here)) ∙ lookup_below k m up.0 in
          rw here (rw (here, gone) at step)
    ]

neither :
    (o : Option Document) (b : Bool) (d : Document)
    → first_of_both o (if b then some d else none) ≡ none
    → (o ≡ none) × (b ≡ false)
neither none false d h = (refl, refl)
neither none true d h = absurd (cc h)
neither (some e) b d h = absurd (cc h)

either_one :
    (o : Option Document) (b : Bool) (d doc : Document)
    → first_of_both o (if b then some d else none) ≡ some doc
    → (o ≡ some doc) ⊎ ((b ≡ true) × (d ≡ doc))
either_one (some e) b d doc h = inl h
either_one none true d doc h = inr (refl, cc h)
either_one none false d doc h = absurd (cc h)

-- A name that a document of the list has is found, and what is found is in the map.
last_named-there :
    (name id : String) (doc : Document) (m : StringMap Document)
    → StringMap.lookup id m ≡ some doc
    → doc.name ≡ name
    → last_named name (StringMap.values m) ≢ none
unfolding last_named StringMap.lookup StringMap.values
last_named-there name id doc [] h named gone = cc h
last_named-there name id doc ((k, d) ∷ m) h named gone =
    let (rest, unnamed) = neither (last_named name (StringMap.values m)) (d.name == name) d gone in
    elim (Bool-cases (k == id)) [
      | inr other ↦ last_named-there name id doc m (rw other at h) named rest
      | inl here ↦
          let same : d ≡ doc = cc (rw here at h) in
          let is_named : d.name ≡ name = ap (λ c. c.name) same ∙ named in
          absurd (cc (unnamed, (eq_iff d.name name).1 is_named))
    ]

last_named-found :
    (name : String) (doc : Document) (m : StringMap Document)
    → IsAscending m
    → last_named name (StringMap.values m) ≡ some doc
    → (doc.name ≡ name) × ((id : String) × (StringMap.lookup id m ≡ some doc))
unfolding last_named StringMap.lookup StringMap.values
last_named-found name doc [] up h = absurd (cc h)
last_named-found name doc ((k, d) ∷ m) up h =
    elim (either_one (last_named name (StringMap.values m)) (d.name == name) d doc h) [
      | inr (named, same) ↦ (
        ap (λ c. c.name) (sym same) ∙ (eq_iff d.name name).0 named,
        (k, rw (eq_refl k) (ap (λ c. some c) same)),
      )
      | inl later ↦
          let (named, (id, there)) = last_named-found name doc m up.1 later in
          (
            named,
            (
              id,
              elim (Bool-cases (k == id)) [
                | inr other ↦ rw other there
                | inl here ↦ absurd (
                    cc (
                      there,
                      ap (λ i. StringMap.lookup i m) (sym ((eq_iff k id).0 here)),
                      lookup_below k m up.0,
                    ))
              ],
            ),
          )
    ]

first_or_none : (o : Option Document) → first_of_both o none ≡ o
first_or_none none = refl
first_or_none (some d) = refl

last_named_lem :
    (name : String) (p : Portfolio)
    → IsInOrder p
    → IsConsistent p
    → last_named name (StringMap.values p.documents) ≡ StringMap.lookup name p.map_name_documents
last_named_lem name p ordered fine =
    elim (Option-cases (last_named name (StringMap.values p.documents))) [
      | inr (d, found) ↦
          let (named, (id, there)) = last_named-found name d p.documents ordered.documents found in
          found
          ∙ sym (fine.by_id id d there).1
          ∙ ap (λ n. StringMap.lookup n p.map_name_documents) named
      | inl gone ↦ elim (Option-cases (StringMap.lookup name p.map_name_documents)) [
        | inl absent ↦ gone ∙ sym absent
        | inr (d, there) ↦
            let (named, stored) = fine.by_name name d there in
            absurd (last_named-there name d.id d p.documents stored named gone)
      ]
    ]

-- A portfolio with its maps in order, each a map of the same documents, is what its own documents
-- fill a new portfolio of its name with.
pub store_all-get_list_documents :
    (p : Portfolio)
    → IsInOrder p
    → IsConsistent p
    → store_all (get_list_documents p) (new_portfolio p.name) ≡ p
unfolding get_list_documents new_portfolio StringMap.lookup
store_all-get_list_documents p ordered fine =
    let q = store_all (StringMap.values p.documents) (new_portfolio p.name) in
    let q_ordered =
      store_all-IsInOrder (StringMap.values p.documents) (new_portfolio p.name)
        (record { documents = tt; names = tt }) in
    let documents : q.documents ≡ p.documents =
      map_ext q.documents p.documents q_ordered.documents ordered.documents λ id.
        lookup-store_all id p.documents (new_portfolio p.name) ordered.documents
          (λ id doc h. (fine.by_id id doc h).0)
        ∙ first_or_none (StringMap.lookup id p.documents) in
    let names : q.map_name_documents ≡ p.map_name_documents =
      map_ext q.map_name_documents p.map_name_documents q_ordered.names ordered.names λ name.
        lookup-store_all_name name (StringMap.values p.documents) (new_portfolio p.name)
        ∙ first_or_none (last_named name (StringMap.values p.documents))
        ∙ last_named_lem name p ordered fine in
    let name : q.name ≡ p.name =
      name-store_all (StringMap.values p.documents) (new_portfolio p.name) in
    λ i. record { name = name i; documents = documents i; map_name_documents = names i }
