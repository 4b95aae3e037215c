-- ===== src/Secw/Srr/Portfolios.antt =====
-- A portfolio in a save: `serializePortfolioSRR` and `loadPortfolioFromSRR` of
-- lib/src/secw_portfolio.cc.
pub mod RoundTrip
use fty_security_wallet.Base.{
  ℕ, String, ◌^^◌, Bool, true, false, not, ◌&&◌, none, List, [], ◌∷◌, Attempt, returns, throws,
  Result, ok, err, hang, eqb, ◌==◌, if◌then◌else◌,
}
use fty_security_wallet.Base.Decimal.{decimal}
use fty_security_wallet.Base.Exec.{Exec, pure, ◌>>=◌}
use fty_security_wallet.External.{External, read_string, read_byte}
use fty_security_wallet.External.Openssl.{Openssl}
use fty_security_wallet.Secw.Error.{Exn, secw, impossible_to_load_portfolio}
use fty_security_wallet.Secw.Body.Keys
use fty_security_wallet.Secw.Body.{type_of}
use fty_security_wallet.Secw.Document.{Document, validate}
use fty_security_wallet.Secw.Portfolio.{Portfolio, store, get_list_documents, bad_portfolio}
use fty_security_wallet.Secw.Srr.Documents.{srr_info, create_from_srr}

-- a document that goes where it is not on the platform that made it
abbrev pub is_skipped : Bool → Document → Bool
is_skipped same_instance doc =
    not same_instance && type_of doc.body == Keys.internal_certificate_type

-- one round of the loop of `loadPortfolioSRRVersion1`, once the document is validated
abbrev pub keep_valid : Result Exn (Unit {0}) → Document → Portfolio → Portfolio
unfolding store
keep_valid (ok _) doc p = store doc p
keep_valid (err x) doc p = p
keep_valid hang doc p = p

module _ ⦃e : External⦄ where
  -- and once it is read: what is thrown is logged and the document left out
  unfoldable pub restore_document : Bool → Result Exn Document → Portfolio → Portfolio
  restore_document same_instance (ok doc) p =
      if is_skipped same_instance doc then p else keep_valid (validate doc) doc p
  restore_document same_instance (err x) p = p
  restore_document same_instance hang p = p

module _ ⦃e : External⦄ ⦃o : Openssl⦄ where
  open e use {Si, empty_si, add_member, get_member, elements, of_elements, of_string, of_number}

  unfoldable pub srr_infos : List Document → String → Exec ℕ Exn (List Si)
  srr_infos [] key = pure []
  srr_infos (doc ∷ docs) key =
      srr_info doc key >>= λ si. srr_infos docs key >>= λ rest. pure (si ∷ rest)

  -- what stands in a save for a portfolio
  abbrev pub portfolio_node : String → List Si → Si
  portfolio_node name documents =
      add_member "documents" (of_elements documents)
        (add_member "name" (of_string name) (add_member "version" (of_number 1) empty_si))

  -- `serializePortfolioSRR`, on an empty node
  unfoldable pub portfolio_srr_info : Portfolio → String → Exec ℕ Exn Si
  unfolding get_list_documents
  portfolio_srr_info p key =
      srr_infos (get_list_documents p) key >>= λ documents. pure (portfolio_node p.name documents)

  unfoldable pub restore_documents : Bool → String → List Si → Portfolio → Portfolio
  restore_documents same_instance key [] p = p
  restore_documents same_instance key (si ∷ rest) p =
      restore_documents same_instance key rest
        (restore_document same_instance (create_from_srr si key) p)

  -- `loadPortfolioSRRVersion1`
  unfoldable pub load_portfolio_srr_version1 : Si → String → Bool → Exec Portfolio Exn (Unit {0})
  load_portfolio_srr_version1 si key same_instance p = elim (read_string "name" si) [
    | throws _ ↦ (err (bad_portfolio p), p)
    | returns name ↦
        let named : Portfolio = record p { name = name } in
        elim (get_member "documents" si) [
          | throws _ ↦ (err (bad_portfolio named), named)
          | returns docs ↦ (ok tt, restore_documents same_instance key (elements docs) named)
        ]
  ]

  -- `loadPortfolioFromSRR`
  unfoldable pub load_portfolio_from_srr : Si → String → Bool → Exec Portfolio Exn (Unit {0})
  unfolding load_portfolio_srr_version1
  load_portfolio_from_srr si key same_instance p = elim (read_byte "version" si) [
    | throws _ ↦
        (err (secw (impossible_to_load_portfolio "Bad format of the serialization data")), p)
    | returns version ↦
        let cleared : Portfolio = record p { documents = []; map_name_documents = [] } in
        if eqb version 1 then load_portfolio_srr_version1 si key same_instance cleared else (
          err (
              secw (
                impossible_to_load_portfolio
                  ("Version " ^^ (decimal version ^^ " not supported")))),
          cleared,
        )
  ]
