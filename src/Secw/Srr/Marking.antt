-- ===== src/Secw/Srr/Marking.antt =====
-- What stands in a save does not tell whether a document is marked as having its private data
-- (lib/src/secw_document.cc, lib/src/secw_portfolio.cc, lib/src/secw_security_wallet.cc).
use fty_security_wallet.Base.{String, List, [], ◌∷◌, map, ◌≡◌, refl, ap, ◌∙◌}
use fty_security_wallet.Base.Exec.{pure, ◌>>=◌}
use fty_security_wallet.Base.StringMap
use fty_security_wallet.External.{External}
use fty_security_wallet.External.Openssl.{Openssl}
use fty_security_wallet.Secw.Document.{Document, header_info}
use fty_security_wallet.Secw.Portfolio.{Portfolio, get_list_documents}
use fty_security_wallet.Secw.Portfolio.Marking.{mark_portfolio}
use fty_security_wallet.Secw.Portfolio.Reloading.{marked}
use fty_security_wallet.Secw.Wallet.{SecurityWallet}
use fty_security_wallet.Secw.Srr.Documents.{srr_info}
use fty_security_wallet.Secw.Srr.Portfolios.{srr_infos, portfolio_node, portfolio_srr_info}
use fty_security_wallet.Secw.Srr.Wallet.{portfolio_srr_infos, get_srr_save_data}

-- the wallet with each document marked
abbrev pub mark_wallet : SecurityWallet → SecurityWallet
mark_wallet w = record w { portfolios = map mark_portfolio w.portfolios }

module _ ⦃e : External⦄ ⦃o : Openssl⦄ (key : String) where
  srr_infos-marked : (docs : List Document) → srr_infos (map marked docs) key ≡ srr_infos docs key
  unfolding srr_infos srr_info header_info
  srr_infos-marked [] = refl
  srr_infos-marked (doc ∷ docs) =
      ap (λ m. srr_info doc key >>= λ si. m >>= λ rest. pure (si ∷ rest)) (srr_infos-marked docs)

  pub portfolio_srr_info-mark_portfolio :
      (p : Portfolio) → portfolio_srr_info (mark_portfolio p) key ≡ portfolio_srr_info p key
  unfolding portfolio_srr_info get_list_documents
  portfolio_srr_info-mark_portfolio p =
      ap (λ m. m >>= λ documents. pure (portfolio_node p.name documents))
        (ap (λ docs. srr_infos docs key) (StringMap.values-map_values marked p.documents)
          ∙ srr_infos-marked (StringMap.values p.documents))

  portfolio_srr_infos-marked :
      (ps : List Portfolio)
      → portfolio_srr_infos (map mark_portfolio ps) key ≡ portfolio_srr_infos ps key
  unfolding portfolio_srr_infos
  portfolio_srr_infos-marked [] = refl
  portfolio_srr_infos-marked (p ∷ ps) = λ i. portfolio_srr_info-mark_portfolio p i >>= λ si.
      portfolio_srr_infos-marked ps i >>= λ rest. pure (si ∷ rest)

  pub get_srr_save_data-mark_wallet :
      (release : String) (w : SecurityWallet)
      → get_srr_save_data release key (mark_wallet w) ≡ get_srr_save_data release key w
  unfolding get_srr_save_data
  get_srr_save_data-mark_wallet release w =
      rw (portfolio_srr_infos-marked w.portfolios, get_srr_save_data) refl
