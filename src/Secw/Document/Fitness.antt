-- ===== src/Secw/Document/Fitness.antt =====
-- What holds of every document that the server stores: it was read and it is valid
-- (lib/src/secw_document.cc).
use fty_security_wallet.Base.{
  Option, some, none, Result, ok, err, hang, ◌≡◌, >>=-eq-ok, subst, ok-injective, or_throw,
}
use fty_security_wallet.Base.StringSet.{of_list-IsSorted}
use fty_security_wallet.External.{External, read_string, read_strings}
use fty_security_wallet.Secw.Error.{Exn, secw, standard}
use fty_security_wallet.Secw.Body.{update_public, update_private}
use fty_security_wallet.Secw.Document.{
  Document, as_secw, update_header, select_document, fill_private, read_document, validate,
}
use fty_security_wallet.Secw.Document.RoundTrip.{IsOrdered}

pub as_secw-eq-ok : {A : Type 0} (r : Result Exn A) (a : A) → as_secw r ≡ ok a → r ≡ ok a
as_secw-eq-ok (ok b) a h = h
as_secw-eq-ok (err (secw x)) a h = absurd (cc h)
as_secw-eq-ok (err (standard m)) a h = absurd (cc h)
as_secw-eq-ok hang a h = absurd (cc h)

module _ ⦃e : External⦄ where
  open e use {Si, get_member, find_member}

  -- A document with its sets in order that `validate` accepts.
  pub record IsFit (doc : Document) : Type 0 where
    pub ordered : IsOrdered doc
    pub valid : validate doc ≡ ok tt

  update_header-IsOrdered :
      (doc headed : Document) (si : Si) → update_header doc si ≡ ok headed → IsOrdered headed
  unfolding update_header
  update_header-IsOrdered doc headed si h =
      let (name, _, h1) = >>=-eq-ok (or_throw _ (read_string _ si)) _ h in
      let (tags, _, h2) = >>=-eq-ok (or_throw _ (read_strings _ si)) _ h1 in
      let (usages, _, h3) = >>=-eq-ok (or_throw _ (read_strings _ si)) _ h2 in
      let made = ok-injective h3 in
      subst IsOrdered made
        (record { tags_sorted = of_list-IsSorted tags; usages_sorted = of_list-IsSorted usages })

  fill_private-IsOrdered :
      (existing : Option Document) (doc filled : Document) (entry : Option Si)
      → IsOrdered doc
      → fill_private existing doc entry ≡ ok filled
      → IsOrdered filled
  unfolding fill_private
  fill_private-IsOrdered (some _) doc filled (some entry) up h =
      let (body, _, h1) = >>=-eq-ok (update_private doc.body entry) _ h in
      subst IsOrdered (ok-injective h1)
        (record { tags_sorted = up.tags_sorted; usages_sorted = up.usages_sorted })
  fill_private-IsOrdered none doc filled (some entry) up h =
      let (body, _, h1) = >>=-eq-ok (update_private doc.body entry) _ h in
      subst IsOrdered (ok-injective h1)
        (record { tags_sorted = up.tags_sorted; usages_sorted = up.usages_sorted })
  fill_private-IsOrdered (some _) doc filled none up h = subst IsOrdered (ok-injective h) up
  fill_private-IsOrdered none doc filled none up h =
      subst IsOrdered (ok-injective h)
        (record { tags_sorted = up.tags_sorted; usages_sorted = up.usages_sorted })

  -- The sets of a document that is read are in order.
  pub read_document-IsOrdered :
      (existing : Option Document) (si : Si) (doc : Document)
      → read_document existing si ≡ ok doc
      → IsOrdered doc
  unfolding read_document
  read_document-IsOrdered existing si doc h =
      let h0 = as_secw-eq-ok _ doc h in
      let (type, _, h1) = >>=-eq-ok (or_throw standard (read_string _ si)) _ h0 in
      let (id, _, h2) = >>=-eq-ok (or_throw standard (read_string _ si)) _ h1 in
      let (part, _, h3) = >>=-eq-ok (or_throw standard (get_member _ si)) _ h2 in
      let (selected, _, h4) = >>=-eq-ok (select_document existing type id) _ h3 in
      let (headed, header, h5) = >>=-eq-ok (update_header selected si) _ h4 in
      let (body, _, h6) = >>=-eq-ok (update_public headed.body part) _ h5 in
      let up = update_header-IsOrdered selected headed si header in
      fill_private-IsOrdered existing (record headed { body = body }) doc (find_member _ si)
        (record { tags_sorted = up.tags_sorted; usages_sorted = up.usages_sorted }) h6
