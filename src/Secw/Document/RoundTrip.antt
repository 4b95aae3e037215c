-- ===== src/Secw/Document/RoundTrip.antt =====
-- Reading what a document writes (lib/src/secw_document.cc).
use fty_security_wallet.Base.{◌≡◌, ◌∙◌, true, sym, none, ok}
use fty_security_wallet.Base.StringSet.{IsSorted, of_list-sorted}
use fty_security_wallet.External.{External}
use fty_security_wallet.External.Laws.{Laws}
use fty_security_wallet.Secw.Body.RoundTrip.{
  factory-type_of, update_public-public_info, update_private-private_info,
}
use fty_security_wallet.Secw.Document.{
  Document, info_without_secret, info_with_secret, update_header, select_document, fill_private,
  read_document,
}
use fty_security_wallet.Secw.Document.Views.{public_view}

-- The sets of a document are in order, as `std::set` keeps them.
pub record IsOrdered (doc : Document) : Type 0 where
  pub tags_sorted : IsSorted doc.tags
  pub usages_sorted : IsSorted doc.usages

module _ ⦃e : External⦄ (laws : Laws) where
  open laws use {
    find_member-empty, find_member-add, get_member_lem, to_string-of_string, to_strings-of_strings,
  }

  -- A document reads back from what it writes, with no document to override, as one that has its
  -- private data, whether it had or not: the writer writes a private part in any case.
  pub read_document-info_with_secret_marked :
      (doc : Document)
      → IsOrdered doc
      → read_document none (info_with_secret doc) ≡ ok (record doc { contain_private_data = true })
  unfolding read_document info_with_secret update_header select_document fill_private
  read_document-info_with_secret_marked doc ordered = simp (
    get_member_lem,
    find_member-add,
    find_member-empty,
    to_string-of_string,
    to_strings-of_strings,
    factory-type_of,
    of_list-sorted _ ordered.tags_sorted,
    of_list-sorted _ ordered.usages_sorted,
    update_public-public_info laws doc.body,
    update_private-private_info laws doc.body,
    read_document,
    select_document,
  )

  -- A document whose private data are there reads back from what it writes, with no document to
  -- override.
  pub read_document-info_with_secret :
      (doc : Document)
      → IsOrdered doc
      → doc.contain_private_data ≡ true
      → read_document none (info_with_secret doc) ≡ ok doc
  read_document-info_with_secret doc ordered has_private =
      read_document-info_with_secret_marked doc ordered
      ∙ (λ i. ok (record doc { contain_private_data = sym has_private i }))

  -- What a client without access to the secrets receives reads back as the document without its
  -- secrets, marked so.
  pub read_document-info_without_secret :
      (doc : Document)
      → IsOrdered doc
      → read_document none (info_without_secret doc) ≡ ok (public_view doc)
  unfolding read_document info_without_secret
  read_document-info_without_secret doc ordered = simp (
    get_member_lem,
    find_member-add,
    find_member-empty,
    to_string-of_string,
    to_strings-of_strings,
    factory-type_of,
    of_list-sorted _ ordered.tags_sorted,
    of_list-sorted _ ordered.usages_sorted,
    update_public-public_info laws doc.body,
    read_document,
    select_document,
  )
