-- ===== src/Secw/Document.antt =====
-- A document: the fields of class `Document` and its kind (lib/include/secw_document.h,
-- lib/src/secw_document.cc). `clone` copies, so a document is a value.
pub mod RoundTrip
pub mod Views
pub mod Fitness
pub mod Header
pub mod Text
use fty_security_wallet.Base.{
  String, Bool, true, false, Option, some, none, Attempt, returns, throws, Result, ok, err, hang,
  ◌>>=◌, ◌>>◌, or_throw, throw_if, ◌==◌, ◌^^◌, [], ◌||◌, not, if◌then◌else◌,
}
use fty_security_wallet.Base.StringSet
use fty_security_wallet.Base.StringSet.{StringSet}
use fty_security_wallet.External.{External, read_string, read_strings}
use fty_security_wallet.Secw.Error.{Exn, secw, standard, generic, throw_invalid_document_format}
use fty_security_wallet.Secw.Body.{
  Body, type_of, factory, public_info, private_info, update_public, update_private,
}
use fty_security_wallet.Secw.Body.Validation.{validate_body}

abbrev pub id_entry : String
id_entry = "secw_doc_id"

abbrev pub name_entry : String
name_entry = "secw_doc_name"

abbrev pub type_entry : String
type_entry = "secw_doc_type"

abbrev pub tags_entry : String
tags_entry = "secw_doc_tags"

abbrev pub usages_entry : String
usages_entry = "secw_doc_usages"

abbrev pub public_entry : String
public_entry = "secw_doc_public"

abbrev pub private_entry : String
private_entry = "secw_doc_private"

pub record Document : Type 0 where
  pub name : String
  pub id : String
  pub tags : StringSet
  pub usages : StringSet
  pub contain_private_data : Bool
  pub body : Body

pub add_tag : String → Document → Document
add_tag tag doc = record doc { tags = StringSet.insert tag doc.tags }

pub remove_tag : String → Document → Document
remove_tag tag doc =
    if StringSet.contains tag doc.tags
    then record doc { tags = StringSet.erase tag doc.tags }
    else doc

pub add_usage : String → Document → Document
add_usage usage doc = record doc { usages = StringSet.insert usage doc.usages }

pub remove_usage : String → Document → Document
remove_usage usage doc =
    if StringSet.contains usage doc.usages
    then record doc { usages = StringSet.erase usage doc.usages }
    else doc

-- what a factory makes, once `m_id` is set
pub new_document : String → Body → Document
new_document id body = record {
  name = "";
  id = id;
  tags = [];
  usages = [];
  contain_private_data = true;
  body = body;
}

-- The two outer handlers of the readers: a `SecwException` goes on, any other exception becomes
-- one with its message.
abbrev pub as_secw : {A : Type 0} → Result Exn A → Result Exn A
as_secw (ok a) = ok a
as_secw (err (secw x)) = err (secw x)
as_secw (err (standard message)) = err (secw (generic message))
as_secw hang = hang

module _ ⦃e : External⦄ where
  open e use {
    Si, empty_si, add_member, find_member, get_member, of_string, of_strings, to_json, out_of_range,
  }

  -- `fillSerializationInfoHeaderDoc`; every caller of the writers starts from an empty node
  unfoldable pub header_info : Document → Si
  header_info doc = add_member usages_entry (of_strings doc.usages) (
      add_member tags_entry (of_strings doc.tags) (
        add_member type_entry (of_string (type_of doc.body)) (
          add_member name_entry (of_string doc.name)
            (add_member id_entry (of_string doc.id) empty_si))))

  -- `fillSerializationInfoWithoutSecret`
  unfoldable pub info_without_secret : Document → Si
  unfolding header_info
  info_without_secret doc = add_member public_entry (public_info doc.body) (header_info doc)

  -- `fillSerializationInfoWithSecret`
  unfoldable pub info_with_secret : Document → Si
  unfolding header_info
  info_with_secret doc =
      add_member private_entry (private_info doc.body)
        (add_member public_entry (public_info doc.body) (header_info doc))

  -- `updateHeaderFromSerializationInfo`
  unfoldable pub update_header : Document → Si → Result Exn Document
  update_header doc si = do
    name ← or_throw (λ _. throw_invalid_document_format name_entry) (read_string name_entry si)
    tags ← or_throw (λ _. throw_invalid_document_format tags_entry) (read_strings tags_entry si)
    usages ←
        or_throw (λ _. throw_invalid_document_format usages_entry) (read_strings usages_entry si)
    ok (record doc {
      name = name;
      tags = StringSet.of_list tags;
      usages = StringSet.of_list usages;
    })

  -- The document to fill: an existing one of the same type and id, or a new one.
  unfoldable pub select_document : Option Document → String → String → Result Exn Document
  unfolding new_document
  select_document (some doc) type id = do
    throw_if (not (type_of doc.body == type)) (throw_invalid_document_format type_entry)
    throw_if (not (doc.id == id)) (throw_invalid_document_format id_entry)
    ok doc
  select_document none type id = elim (factory type) [
    | none ↦ err (standard out_of_range)
    | some body ↦ ok (new_document id body)
  ]

  -- The private part, if there is one; only a new document records whether there was.
  unfoldable pub fill_private : Option Document → Document → Option Si → Result Exn Document
  fill_private (some _) doc (some entry) = do
    body ← update_private doc.body entry
    ok (record doc { body = body })
  fill_private none doc (some entry) = do
    body ← update_private doc.body entry
    ok (record doc { body = body; contain_private_data = true })
  fill_private (some _) doc none = ok doc
  fill_private none doc none = ok (record doc { contain_private_data = false })

  -- `operator>>=` into a document pointer: `none` is the null pointer
  unfoldable pub read_document : Option Document → Si → Result Exn Document
  unfolding update_header select_document fill_private
  read_document existing si = as_secw do
    type ← or_throw standard (read_string type_entry si)
    id ← or_throw standard (read_string id_entry si)
    public_part ← or_throw standard (get_member public_entry si)
    selected ← select_document existing type id
    headed ← update_header selected si
    body ← update_public headed.body public_part
    fill_private existing (record headed { body = body }) (find_member private_entry si)

  -- `validate`
  unfoldable pub validate : Document → Result Exn (Unit {0})
  validate doc = validate_body doc.contain_private_data doc.body

  abbrev json_error : String → Exn
  json_error message = secw (generic ("Error while creating json " ^^ message))

  -- `isNonSecretEquals`
  unfoldable pub is_non_secret_equals : Document → Document → Result Exn Bool
  is_non_secret_equals doc other = do
    doc1 ← or_throw json_error (to_json (add_member public_entry (public_info doc.body) empty_si))
    doc2 ← or_throw json_error (to_json (add_member public_entry (public_info other.body) empty_si))
    ok (doc1 == doc2)

  unfoldable pub compare_secrets : Document → Document → Result Exn Bool
  compare_secrets doc other = do
    doc1 ← or_throw json_error (to_json (add_member private_entry (private_info doc.body) empty_si))
    doc2 ←
        or_throw json_error (to_json (add_member private_entry (private_info other.body) empty_si))
    ok (doc1 == doc2)

  -- `isSecretEquals`
  unfoldable pub is_secret_equals : Document → Document → Result Exn Bool
  unfolding compare_secrets
  is_secret_equals doc other =
      if not (type_of doc.body == type_of other.body)
      then ok false
      else if not doc.contain_private_data || not other.contain_private_data
      then ok false
      else compare_secrets doc other
