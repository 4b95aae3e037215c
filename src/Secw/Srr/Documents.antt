-- ===== src/Secw/Srr/Documents.antt =====
-- A document in a save: `fillSerializationInfoSRR` and `createFromSRR` of
-- lib/src/secw_document.cc.
pub mod RoundTrip
use fty_security_wallet.Base.{
  ℕ, String, true, false, some, none, not, ◌&&◌, Attempt, Result, ok, err, hang, ◌>>=◌, or_throw,
  is_empty, ◌==◌, if◌then◌else◌,
}
use fty_security_wallet.Base.Exec.{Exec}
use fty_security_wallet.Base.Exec.{pure, lift, ◌>>=◌ as ◌>>=ₛ◌}
use fty_security_wallet.External.{External, read_string}
use fty_security_wallet.External.Openssl.{Openssl}
use fty_security_wallet.Secw.Error.{Exn, secw, standard, generic}
use fty_security_wallet.Secw.Body.{Body, public_info, private_info, update_public, update_private}
use fty_security_wallet.Secw.Document.{
  Document, as_secw, header_info, update_header, select_document, type_entry, id_entry,
  public_entry, private_entry,
}
use fty_security_wallet.Secw.Helpers.{serialize, deserialize}
use fty_security_wallet.Secw.OpensslWrapper.{encrypt, decrypt}

module _ ⦃e : External⦄ ⦃o : Openssl⦄ where
  open e use {Si, empty_si, add_member, get_member, of_string}

  -- what stands in a save for a document whose private part is encrypted
  abbrev pub sealed_info : Document → String → Si
  sealed_info doc text =
      add_member private_entry
        (add_member "data" (of_string text) (add_member "format" (of_string "ENC") empty_si))
        (add_member public_entry (public_info doc.body) (header_info doc))

  -- `fillSerializationInfoSRR`, on an empty node
  unfoldable pub srr_info : Document → String → Exec ℕ Exn Si
  srr_info doc key = lift (serialize (private_info doc.body)) >>=ₛ λ plain.
      encrypt plain key >>=ₛ λ text. pure (sealed_info doc text)

  -- the private part by its format
  unfoldable pub read_private : String → Si → String → Body → Result Exn Body
  read_private format section key body =
      if format == "plaintext"
      then (do entry ← or_throw standard (get_member "data" section); update_private body entry)
      else if format == "ENC" && not (is_empty key)
      then (do
        text ← or_throw standard (read_string "data" section)
        plain ← decrypt text key
        entry ← deserialize plain
        update_private body entry)
      else err (secw (generic "Bad data format"))

  -- `createFromSRR`
  unfoldable pub create_from_srr : Si → String → Result Exn Document
  unfolding read_private
  create_from_srr si key = as_secw do
    type ← or_throw standard (read_string type_entry si)
    id ← or_throw standard (read_string id_entry si)
    public_part ← or_throw standard (get_member public_entry si)
    section ← or_throw standard (get_member private_entry si)
    made ← select_document none type id
    headed ← update_header made si
    body ← update_public headed.body public_part
    format ← or_throw standard (read_string "format" section)
    filled ← read_private format section key body
    ok (record headed { body = filled; contain_private_data = true })
