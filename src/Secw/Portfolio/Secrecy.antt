-- ===== src/Secw/Portfolio/Secrecy.antt =====
-- Portfolios without the secrets of their documents, and what the look-ups and the writers that
-- leave secrets out make of them (lib/src/secw_portfolio.cc, lib/src/secw_document.cc).
use fty_security_wallet.Base.{
  String, Bool, List, [], ◌∷◌, map, select, ok, ◌>>=◌, ◌≡◌, refl, ap, ◌∙◌, Bool-cases, Option-cases,
  inl, inr,
}
use fty_security_wallet.Base.StringMap
use fty_security_wallet.Base.StringMap.{StringMap}
use fty_security_wallet.External.{External}
use fty_security_wallet.Secw.Body.{
  Body, snmpv3, snmpv1, user_and_password, external_certificate, internal_certificate, type_of,
  public_info,
}
use fty_security_wallet.Secw.Body.RoundTrip.{forget_private}
use fty_security_wallet.Secw.Document.{Document, header_info, info_without_secret}
use fty_security_wallet.Secw.Document.Views.{public_view}
use fty_security_wallet.Secw.Portfolio.{
  Portfolio, get_document, get_document_by_name, get_list_documents,
}

abbrev pub hide_portfolio : Portfolio → Portfolio
hide_portfolio p = record p {
  documents = StringMap.map_values public_view p.documents;
  map_name_documents = StringMap.map_values public_view p.map_name_documents;
}

pub get_document-hide_portfolio :
    (id : String) (p : Portfolio)
    → get_document id (hide_portfolio p) ≡ (get_document id p >>= λ doc. ok (public_view doc))
unfolding get_document
get_document-hide_portfolio id p = elim (Option-cases (StringMap.lookup id p.documents)) [
  | inl absent ↦
      rw (StringMap.lookup-map_values public_view id p.documents, get_document)
        (rw (absent, get_document) refl)
  | inr (doc, there) ↦
      rw (StringMap.lookup-map_values public_view id p.documents, get_document)
        (rw (there, get_document) refl)
]

pub get_document_by_name-hide_portfolio :
    (name : String) (p : Portfolio)
    → get_document_by_name name (hide_portfolio p)
      ≡ (get_document_by_name name p >>= λ doc. ok (public_view doc))
unfolding get_document_by_name
get_document_by_name-hide_portfolio name p =
    elim (Option-cases (StringMap.lookup name p.map_name_documents)) [
      | inl absent ↦
          rw
            (
              StringMap.lookup-map_values public_view name p.map_name_documents,
              get_document_by_name,
            )
            (rw (absent, get_document_by_name) refl)
      | inr (doc, there) ↦
          rw
            (
              StringMap.lookup-map_values public_view name p.map_name_documents,
              get_document_by_name,
            )
            (rw (there, get_document_by_name) refl)
    ]

pub get_list_documents-hide_portfolio :
    (p : Portfolio) → get_list_documents (hide_portfolio p) ≡ map public_view (get_list_documents p)
unfolding get_list_documents
get_list_documents-hide_portfolio p = StringMap.values-map_values public_view p.documents

type_of-forget_private : (b : Body) → type_of (forget_private b) ≡ type_of b
unfolding type_of
type_of-forget_private (snmpv3 s) = refl
type_of-forget_private (snmpv1 community) = refl
type_of-forget_private (user_and_password user password) = refl
type_of-forget_private (external_certificate pem) = refl
type_of-forget_private (internal_certificate pem key) = refl

-- A filter that does not look at secrets.
pub select-map :
    (f : Document → Document) (p q : Document → Bool) (docs : List Document)
    → ((doc : Document) → p (f doc) ≡ q doc)
    → select p (map f docs) ≡ map f (select q docs)
unfolding select
select-map f p q [] h = refl
select-map f p q (doc ∷ docs) h = elim (Bool-cases (q doc)) [
  | inl shown ↦ rw (h doc ∙ shown) (rw shown (ap (λ l. f doc ∷ l) (select-map f p q docs h)))
  | inr hidden ↦ rw (h doc ∙ hidden) (rw hidden (select-map f p q docs h))
]

module _ ⦃e : External⦄ where
  public_info-forget_private : (b : Body) → public_info (forget_private b) ≡ public_info b
  unfolding public_info
  public_info-forget_private (snmpv3 s) = refl
  public_info-forget_private (snmpv1 community) = refl
  public_info-forget_private (user_and_password user password) = refl
  public_info-forget_private (external_certificate pem) = refl
  public_info-forget_private (internal_certificate pem key) = refl

  pub info_without_secret-public_view :
      (doc : Document) → info_without_secret (public_view doc) ≡ info_without_secret doc
  unfolding info_without_secret
  info_without_secret-public_view doc =
      rw (public_info-forget_private doc.body, info_without_secret)
        (rw (type_of-forget_private doc.body, header_info) refl)

  pub map_info-public_view :
      (docs : List Document)
      → map info_without_secret (map public_view docs) ≡ map info_without_secret docs
  map_info-public_view [] = refl
  map_info-public_view (doc ∷ docs) =
      λ i. info_without_secret-public_view doc i ∷ map_info-public_view docs i
