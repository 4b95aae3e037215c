-- ===== src/Secw/Srr/Documents/RoundTrip.antt =====
-- A document comes back out of a save (lib/src/secw_document.cc).
use fty_security_wallet.Base.{
  ℕ, String, true, false, ok, returns, ◌≡◌, sym, ap, ◌∙◌, is_empty, ok-injective,
}
use fty_security_wallet.Base.Exec.{continue-eq-ok, pure}
use fty_security_wallet.Base.StringSet.{of_list-sorted}
use fty_security_wallet.External.{External}
use fty_security_wallet.External.Laws.{Laws}
use fty_security_wallet.External.Openssl.{Openssl, OpensslLaws}
use fty_security_wallet.Secw.Body.{private_info}
use fty_security_wallet.Secw.Body.RoundTrip.{
  factory-type_of, update_public-public_info, update_private-private_info,
}
use fty_security_wallet.Secw.Document.{Document, header_info, update_header, select_document}
use fty_security_wallet.Secw.Document.RoundTrip.{IsOrdered}
use fty_security_wallet.Secw.Helpers.{serialize, deserialize, serialize-eq-ok}
use fty_security_wallet.Secw.OpensslWrapper.{encrypt, decrypt}
use fty_security_wallet.Secw.OpensslWrapper.RoundTrip.{decrypt-encrypt_ok}
use fty_security_wallet.Secw.Srr.Documents.{srr_info, sealed_info, read_private, create_from_srr}

module _ ⦃e : External⦄ ⦃o : Openssl⦄ (laws : Laws) (openssl_laws : OpensslLaws) where
  open e use {Si, to_json}
  open laws use {
    find_member-empty, find_member-add, get_member_lem, to_string-of_string, to_strings-of_strings,
    of_json-to_json,
  }

  create_from_srr-sealed_info :
      (doc : Document) (key plain text : String)
      → IsOrdered doc
      → doc.contain_private_data ≡ true
      → is_empty key ≡ false
      → to_json (private_info doc.body) ≡ returns plain
      → decrypt text key ≡ ok plain
      → create_from_srr (sealed_info doc text) key ≡ ok doc
  unfolding create_from_srr read_private header_info update_header select_document deserialize
  create_from_srr-sealed_info doc key plain text ordered has_private key_there written decrypted =
      simp
        (
          get_member_lem,
          find_member-add,
          find_member-empty,
          to_string-of_string,
          to_strings-of_strings,
          factory-type_of,
          of_list-sorted _ ordered.tags_sorted,
          of_list-sorted _ ordered.usages_sorted,
          update_public-public_info laws doc.body,
          update_private-private_info laws doc.body,
          select_document,
          key_there,
          decrypted,
          of_json-to_json (private_info doc.body) written,
          read_private,
          create_from_srr,
        )
        (λ i. ok (record doc { contain_private_data = sym has_private i }))

  -- A document with its private data that a save returns for comes back out of the save with the
  -- same key, the same document.
  pub create_from_srr-srr_info :
      (doc : Document) (key : String) (n m : ℕ) (si : Si)
      → IsOrdered doc
      → doc.contain_private_data ≡ true
      → is_empty key ≡ false
      → srr_info doc key n ≡ (ok si, m)
      → create_from_srr si key ≡ ok doc
  unfolding srr_info
  create_from_srr-srr_info doc key n m si ordered has_private key_there h =
      let (plain, serialized, h1) = continue-eq-ok (serialize (private_info doc.body)) _ n h in
      let (text, encrypted, h2) =
        continue-eq-ok (encrypt plain key n).0 (λ text. pure (sealed_info doc text))
          (encrypt plain key n).1 h1 in
      let made : sealed_info doc text ≡ si = ok-injective (ap (λ r. r.0) h2) in
      ap (λ s. create_from_srr s key) (sym made)
      ∙ create_from_srr-sealed_info doc key plain text ordered has_private key_there
          (serialize-eq-ok (private_info doc.body) plain serialized)
          (decrypt-encrypt_ok openssl_laws plain key text n encrypted)
