-- ===== src/Secw/Document/Header.antt =====
-- What the reader of a document takes of the header of a node (lib/src/secw_document.cc).
use fty_security_wallet.Base.{
  String, Option, some, none, List, ok, returns, ◌≡◌, ap, sym, ◌∙◌, not, ◌==◌, eq_iff, >>=-eq-ok,
  guarded-eq-ok, or_throw, or_throw-eq-ok, ok-injective, Bool-cases, Option-cases, inl, inr,
}
use fty_security_wallet.Base.StringSet
use fty_security_wallet.External.{External, read_string, read_strings}
use fty_security_wallet.Secw.Error.{standard}
use fty_security_wallet.Secw.Body.{factory, type_of, update_public, update_private}
use fty_security_wallet.Secw.Document.{
  Document, id_entry, name_entry, usages_entry, update_header, select_document, fill_private,
  read_document,
}
use fty_security_wallet.Secw.Document.Fitness.{as_secw-eq-ok}

module _ ⦃e : External⦄ where
  open e use {Si, get_member, find_member}

  -- The identifier, the name and the usages of the document are those of the node.
  pub record IsHeaded (si : Si) (doc : Document) : Type 0 where
    pub id : read_string id_entry si ≡ returns doc.id
    pub name : read_string name_entry si ≡ returns doc.name
    pub usages : List String
    pub listed : read_strings usages_entry si ≡ returns usages
    pub gathered : doc.usages ≡ StringSet.of_list usages

  id-select_document :
      (existing : Option Document) (type id : String) (selected : Document)
      → select_document existing type id ≡ ok selected
      → selected.id ≡ id
  unfolding select_document
  id-select_document none type id selected h = elim (Option-cases (factory type)) [
    | inl unknown ↦ absurd (cc (rw (unknown, select_document) at h))
    | inr (body, made) ↦ ap (λ d. d.id) (sym (ok-injective (rw (made, select_document) at h)))
  ]
  id-select_document (some doc) type id selected h =
      let (_, h1) = guarded-eq-ok (not (type_of doc.body == type)) _ _ h in
      let (same, h2) = guarded-eq-ok (not (doc.id == id)) _ _ h1 in
      let is : doc.id ≡ id = elim (Bool-cases (doc.id == id)) [
        | inl same_id ↦ (eq_iff doc.id id).0 same_id
        | inr other_id ↦ absurd (cc (rw other_id at same))
      ] in
      ap (λ d. d.id) (sym (ok-injective h2)) ∙ is

  header-fill_private :
      (existing : Option Document) (doc filled : Document) (entry : Option Si)
      → fill_private existing doc entry ≡ ok filled
      → (doc.id ≡ filled.id) × (doc.name ≡ filled.name) × (doc.usages ≡ filled.usages)
  unfolding fill_private
  header-fill_private (some _) doc filled (some entry) h =
      let (body, _, h1) = >>=-eq-ok (update_private doc.body entry) _ h in
      let made = ok-injective h1 in
      (ap (λ d. d.id) made, ap (λ d. d.name) made, ap (λ d. d.usages) made)
  header-fill_private none doc filled (some entry) h =
      let (body, _, h1) = >>=-eq-ok (update_private doc.body entry) _ h in
      let made = ok-injective h1 in
      (ap (λ d. d.id) made, ap (λ d. d.name) made, ap (λ d. d.usages) made)
  header-fill_private (some _) doc filled none h =
      let made = ok-injective h in
      (ap (λ d. d.id) made, ap (λ d. d.name) made, ap (λ d. d.usages) made)
  header-fill_private none doc filled none h =
      let made = ok-injective h in
      (ap (λ d. d.id) made, ap (λ d. d.name) made, ap (λ d. d.usages) made)

  -- With a document to override or without one.
  pub read_document-IsHeaded :
      (existing : Option Document) (si : Si) (doc : Document)
      → read_document existing si ≡ ok doc
      → IsHeaded si doc
  unfolding read_document update_header
  read_document-IsHeaded existing si doc h =
      let h0 = as_secw-eq-ok _ doc h in
      let (type, _, h1) = >>=-eq-ok (or_throw standard (read_string _ si)) _ h0 in
      let (id, identified, h2) = >>=-eq-ok (or_throw standard (read_string id_entry si)) _ h1 in
      let (part, _, h3) = >>=-eq-ok (or_throw standard (get_member _ si)) _ h2 in
      let (selected, chosen, h4) = >>=-eq-ok (select_document existing type id) _ h3 in
      let (headed, header, h5) = >>=-eq-ok (update_header selected si) _ h4 in
      let (body, _, h6) = >>=-eq-ok (update_public headed.body part) _ h5 in
      let (name, named, k1) = >>=-eq-ok (or_throw _ (read_string name_entry si)) _ header in
      let (tags, _, k2) = >>=-eq-ok (or_throw _ (read_strings _ si)) _ k1 in
      let (usages, used, k3) = >>=-eq-ok (or_throw _ (read_strings usages_entry si)) _ k2 in
      let made = ok-injective k3 in
      let (id', name', usages') =
        header-fill_private existing (record headed { body = body }) doc (find_member _ si) h6 in
      record {
        id =
            or_throw-eq-ok standard (read_string id_entry si) identified
            ∙ ap (λ t. returns t)
                (sym (id-select_document existing type id selected chosen)
                  ∙ ap (λ d. d.id) made
                  ∙ id');
        name =
            or_throw-eq-ok _ (read_string name_entry si) named
            ∙ ap (λ t. returns t) (ap (λ d. d.name) made ∙ name');
        usages = usages;
        listed = or_throw-eq-ok _ (read_strings usages_entry si) used;
        gathered = sym (ap (λ d. d.usages) made ∙ usages');
      }

  -- Two documents that are read from one node, one over another document, share these.
  pub IsHeaded-unique :
      (si : Si) (doc other : Document)
      → IsHeaded si doc
      → IsHeaded si other
      → (doc.id ≡ other.id) × (doc.name ≡ other.name) × (doc.usages ≡ other.usages)
  IsHeaded-unique si doc other h k =
      (cc (h.id, k.id), cc (h.name, k.name), cc (h.listed, k.listed, h.gathered, k.gathered))
