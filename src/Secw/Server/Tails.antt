-- ===== src/Secw/Server/Tails.antt =====
-- What the handlers that change the wallet do after the save, which spares what was saved
-- (lib/src/secw_security_wallet_server.cc).
use fty_security_wallet.Base.{ℕ, String, ok, ◌≡◌, refl, sym, ap, ◌∙◌, ok-injective}
use fty_security_wallet.Base.Exec.{continue-eq-ok, pure, gets, lift, ◌>>=◌, ◌>>◌}
use fty_security_wallet.External.{External}
use fty_security_wallet.Secw.Document.{Document}
use fty_security_wallet.Secw.Portfolio.{Portfolio, get_document}
use fty_security_wallet.Secw.Wallet.{get_portfolio, wallet_info}
use fty_security_wallet.Secw.Server.{World, Handler}
use fty_security_wallet.Secw.Server.Notifications.{
  send_notification_on_create, send_notification_on_delete, send_notification_on_update,
  create_message, delete_message, update_message,
}
use fty_security_wallet.Secw.Server.Writes.{set_portfolio, save}
use fty_security_wallet.Secw.Server.Saving.{
  Spares, publish-Spares, continue-Spares, >>=-Spares, IsSaved, save-then,
}

module _ ⦃e : External⦄ where
  open e use {to_json_beautified, write_file}

  pub delete_tail-Spares :
      (name : String) (doc : Document)
      → Spares {A = String} (send_notification_on_delete name doc >> pure "OK")
  unfolding send_notification_on_delete
  delete_tail-Spares name doc =
      >>=-Spares _ _ (publish-Spares (delete_message name doc)) (λ _ s. (refl, refl))

  pub update_tail-Spares :
      (name : String) (old new : Document)
      → Spares {A = String} (send_notification_on_update name old new >> pure "OK")
  unfolding send_notification_on_update
  update_tail-Spares name old new =
      >>=-Spares _ _ (publish-Spares (update_message name old new)) (λ _ s. (refl, refl))

  -- what a create does once the document is saved
  abbrev pub create_tail : String → String → Handler String
  create_tail portfolio_name id = do
    changed ← gets (λ world. get_portfolio portfolio_name world.wallet)
    portfolio' ← lift changed
    created ← lift (get_document id portfolio')
    send_notification_on_create portfolio_name created
    pure id

  pub create_tail-Spares : (portfolio_name id : String) → Spares (create_tail portfolio_name id)
  unfolding send_notification_on_create
  create_tail-Spares portfolio_name id s =
      continue-Spares (get_portfolio portfolio_name s.wallet) _
        (λ p. continue-Spares (get_document id p) _ (λ doc.
          >>=-Spares _ _ (publish-Spares (create_message portfolio_name doc))
            (λ _ s. (refl, refl))))
        s

  create_tail-returns :
      (portfolio_name id reply : String) (s t : World)
      → create_tail portfolio_name id s ≡ (ok reply, t)
      → id ≡ reply
  create_tail-returns portfolio_name id reply s t h =
      let (p, _, h1) = continue-eq-ok (get_portfolio portfolio_name s.wallet) _ s h in
      let (doc, _, h2) = continue-eq-ok (get_document id p) _ s h1 in
      let (_, _, h3) = continue-eq-ok (send_notification_on_create portfolio_name doc s).0 _ _ h2 in
      ok-injective (ap (λ r. r.0) h3)

  -- the save and the rest of a create, from the portfolio that the document went into
  pub IsSaved-create :
      (portfolio_name new_id id : String) (q : Portfolio) (draws : ℕ) (s t : World)
      → (save >> create_tail portfolio_name new_id)
          (record (set_portfolio portfolio_name q s) { draws = draws })
        ≡ (ok id, t)
      → (new_id ≡ id) × IsSaved portfolio_name q s t
  unfolding set_portfolio
  IsSaved-create portfolio_name new_id id q draws s t h =
      let s' = record (set_portfolio portfolio_name q s) { draws = draws } in
      let (wallet, (text, written, database)) =
        save-then (create_tail portfolio_name new_id) s' t id
          (create_tail-Spares portfolio_name new_id) h in
      let (u, _, h1) =
        continue-eq-ok (save s').0 (λ _. create_tail portfolio_name new_id) (save s').1 h in
      (
        create_tail-returns portfolio_name new_id id (save s').1 t h1,
        record {
          portfolios = ap (λ w. w.portfolios) wallet;
          configurations = ap (λ w. w.configurations) wallet;
          text = text;
          written = ap (λ w. to_json_beautified (wallet_info w.portfolios)) wallet ∙ written;
          database =
              database ∙ ap (λ w. write_file s.database (wallet_info w.portfolios)) (sym wallet);
        },
      )
