-- ===== src/Secw/Server/Keeping.antt =====
-- What the methods of a portfolio keep, every request keeps of every portfolio
-- (lib/src/secw_security_wallet_server.cc).
use fty_security_wallet.Base.{
  ℕ, String, Option, some, none, List, [], ◌∷◌, All, Result, ok, err, hang, ◌≡◌, refl, sym, subst,
  ◌==◌, ◌||◌, Bool-cases, inl, inr,
}
use fty_security_wallet.Base.Exec.{continue-keeps, pure, ◌>>◌}
use fty_security_wallet.External.{External}
use fty_security_wallet.Secw.Error.{Exn}
use fty_security_wallet.Secw.Document.{Document, read_document, validate}
use fty_security_wallet.Secw.Portfolio
use fty_security_wallet.Secw.Portfolio.{Portfolio, get_document}
use fty_security_wallet.Secw.Document.Fitness.{IsFit, read_document-IsOrdered}
use fty_security_wallet.Secw.Helpers.{deserialize}
use fty_security_wallet.Secw.Configuration.{difference_between_2_usages_id_set}
use fty_security_wallet.Secw.Wallet.Lookup.{All-get_portfolio, All-put_portfolio}
use fty_security_wallet.Secw.Wallet.{get_portfolio}
use fty_security_wallet.Secw.Server.{World, Handler}
use fty_security_wallet.Secw.Server.Rights.{check_usages, producer_usages}
use fty_security_wallet.Secw.Server.Notifications.{
  send_notification_on_delete, send_notification_on_update,
}
use fty_security_wallet.Secw.Server.Writes.{
  set_portfolio, change_portfolio, add_to_portfolio, write_database, save, handle_create,
  handle_delete, handle_update,
}
use fty_security_wallet.Secw.Server.Requests.{
  create, delete, update, Command, command_of, run_command, run_named, replying, handle_request,
}
use fty_security_wallet.Secw.Server.Tails.{
  create_tail, create_tail-Spares, delete_tail-Spares, update_tail-Spares,
}
use fty_security_wallet.Secw.Server.Saving.{Spares}

-- A property of portfolios that their methods keep, for documents that are read and valid.
pub record Keeps ⦃e : External⦄ (P : Portfolio → Type 0) : Type 0 where
  pub add_keeps :
      (doc : Document) (p : Portfolio) (n : ℕ) → IsFit doc → P p → P (Portfolio.add doc (p, n)).1.0
  pub remove_keeps : (id : String) (p q : Portfolio) → P p → Portfolio.remove id p ≡ ok q → P q
  pub update_keeps :
      (doc : Document) (p q : Portfolio) → IsFit doc → P p → Portfolio.update doc p ≡ ok q → P q

-- the property of every portfolio of a server
abbrev pub Holds : (Portfolio → Type 0) → World → Type 0
Holds P world = All P world.wallet.portfolios

module _ (P : Portfolio → Type 0) where
  Spares-keeps :
      {A : Type 0} (m : Handler A) (s : World) → Spares m → (Holds P) s → (Holds P) (m s).1
  Spares-keeps m s spares all = subst (λ w. All P w.portfolios) (sym (spares s).0) all

  set_portfolio-keeps :
      (name : String) (q : Portfolio) (s : World)
      → P q
      → (Holds P) s
      → (Holds P) (set_portfolio name q s)
  unfolding set_portfolio
  set_portfolio-keeps name q s fine all = All-put_portfolio P name q s.wallet.portfolios fine all

  change_portfolio-keeps :
      (name : String) (r : Result Exn Portfolio) (s : World)
      → ((q : Portfolio) → r ≡ ok q → P q)
      → (Holds P) s
      → (Holds P) (change_portfolio name r s).1
  unfolding change_portfolio
  change_portfolio-keeps name (ok q) s fine all = set_portfolio-keeps name q s (fine q refl) all
  change_portfolio-keeps name (err x) s fine all = all
  change_portfolio-keeps name hang s fine all = all

module _ ⦃e : External⦄ (P : Portfolio → Type 0) (keeps : Keeps P) where
  open e use {to_json_beautified}
  open keeps use {add_keeps, remove_keeps, update_keeps}

  save-wallet : (s : World) → (save s).1.wallet ≡ s.wallet
  unfolding save write_database
  save-wallet s = refl

  -- A save with steps behind it that spare the wallet, whatever they throw.
  saving-keeps :
      {A : Type 0} (f : Handler A) (s : World)
      → Spares f
      → (Holds P) s
      → (Holds P) ((save >> f) s).1
  saving-keeps f s spares all =
      let saved : (Holds P) (save s).1 =
        subst (λ w. All P w.portfolios) (sym (save-wallet s)) all in
      continue-keeps (Holds P) (save s).0 (λ _. f) (save s).1 saved
        (λ _ _. Spares-keeps P f (save s).1 spares saved)

  handle_delete-keeps :
      (sender : String) (params : List String) (s : World)
      → (Holds P) s
      → (Holds P) (handle_delete sender params s).1
  unfolding handle_delete
  handle_delete-keeps sender [] s all = all
  handle_delete-keeps sender (x ∷ []) s all = all
  handle_delete-keeps sender (portfolio_name ∷ id ∷ rest) s all =
      continue-keeps (Holds P) (producer_usages portfolio_name sender s.wallet) _ s all λ allowed _.
        continue-keeps (Holds P) (get_portfolio portfolio_name s.wallet) _ s all λ p found.
          continue-keeps (Holds P) (get_document id p) _ s all λ doc _.
            continue-keeps (Holds P) (check_usages allowed doc.usages) _ s all λ _ _.
              let fine = All-get_portfolio P portfolio_name s.wallet p all found in
              let changed = change_portfolio portfolio_name (Portfolio.remove id p) s in
              let kept =
                change_portfolio-keeps P portfolio_name (Portfolio.remove id p) s
                  (λ q h. remove_keeps id p q fine h) all in
              continue-keeps (Holds P) changed.0 _ changed.1 kept λ _ _.
                saving-keeps (send_notification_on_delete portfolio_name doc >> pure "OK") changed.1
                  (delete_tail-Spares portfolio_name doc) kept

  handle_update-keeps :
      (sender : String) (params : List String) (s : World)
      → (Holds P) s
      → (Holds P) (handle_update sender params s).1
  unfolding handle_update
  handle_update-keeps sender [] s all = all
  handle_update-keeps sender (x ∷ []) s all = all
  handle_update-keeps sender (portfolio_name ∷ document ∷ rest) s all =
      continue-keeps (Holds P) (producer_usages portfolio_name sender s.wallet) _ s all λ allowed _.
        continue-keeps (Holds P) (get_portfolio portfolio_name s.wallet) _ s all λ p found.
          continue-keeps (Holds P) (deserialize document) _ s all λ si _.
            continue-keeps (Holds P) (read_document none si) _ s all λ doc _.
              continue-keeps (Holds P) (get_document doc.id p) _ s all λ existing _.
                let diff = difference_between_2_usages_id_set doc.usages existing.usages in
                continue-keeps (Holds P) (check_usages allowed diff) _ s all λ _ _.
                  continue-keeps (Holds P) (read_document (some existing) si) _ s all
                    λ updated read. continue-keeps (Holds P) (validate updated) _ s all λ _ valid.
                      let fine = All-get_portfolio P portfolio_name s.wallet p all found in
                      let changed =
                        change_portfolio portfolio_name (Portfolio.update updated p) s in
                      let kept =
                        change_portfolio-keeps P portfolio_name (Portfolio.update updated p) s
                          (λ q h.
                            update_keeps updated p q
                              (record {
                                ordered = read_document-IsOrdered (some existing) si updated read;
                                valid = valid;
                              })
                              fine h)
                          all in
                      continue-keeps (Holds P) changed.0 _ changed.1 kept λ _ _.
                        saving-keeps
                          (send_notification_on_update portfolio_name existing doc >> pure "OK")
                          changed.1 (update_tail-Spares portfolio_name existing doc) kept

  handle_create-keeps :
      (sender : String) (params : List String) (s : World)
      → (Holds P) s
      → (Holds P) (handle_create sender params s).1
  unfolding handle_create add_to_portfolio set_portfolio
  handle_create-keeps sender [] s all = all
  handle_create-keeps sender (x ∷ []) s all = all
  handle_create-keeps sender (portfolio_name ∷ document ∷ rest) s all =
      continue-keeps (Holds P) (producer_usages portfolio_name sender s.wallet) _ s all λ allowed _.
        continue-keeps (Holds P) (get_portfolio portfolio_name s.wallet) _ s all λ p found.
          continue-keeps (Holds P) (deserialize document) _ s all λ si _.
            continue-keeps (Holds P) (read_document none si) _ s all λ doc read.
              continue-keeps (Holds P) (validate doc) _ s all λ _ valid.
                continue-keeps (Holds P) (check_usages allowed doc.usages) _ s all λ _ _.
                  let fine =
                    add_keeps doc p s.draws
                      (record { ordered = read_document-IsOrdered none si doc read; valid = valid })
                      (All-get_portfolio P portfolio_name s.wallet p all found) in
                  let (added, (q, draws)) = Portfolio.add doc (p, s.draws) in
                  let changed = record (set_portfolio portfolio_name q s) { draws = draws } in
                  let kept = set_portfolio-keeps P portfolio_name q s fine all in
                  continue-keeps (Holds P) added _ changed kept λ id _.
                    saving-keeps (create_tail portfolio_name id) changed
                      (create_tail-Spares portfolio_name id) kept

  run_command-keeps :
      (command : Command) (sender : String) (params : List String) (s : World)
      → (Holds P) s
      → (Holds P) (run_command command sender params s).1
  unfolding run_command
  run_command-keeps create sender params s all = handle_create-keeps sender params s all
  run_command-keeps delete sender params s all = handle_delete-keeps sender params s all
  run_command-keeps update sender params s all = handle_update-keeps sender params s all
  run_command-keeps _ sender params s all = all

  run_named-keeps :
      (cmd : String) (o : Option Command) (sender : String) (params : List String) (s : World)
      → (Holds P) s
      → (Holds P) (run_named cmd o sender params s).1
  unfolding run_named
  run_named-keeps cmd (some command) sender params s all =
      run_command-keeps command sender params s all
  run_named-keeps cmd none sender params s all = all

  -- Whatever the request is, whoever sends it and whatever it throws.
  pub handle_request-keeps :
      (sender : String) (frames : List String) (s : World)
      → (Holds P) s
      → (Holds P) (handle_request sender frames s).1
  unfolding handle_request replying
  handle_request-keeps sender [] s all = all
  handle_request-keeps sender (cmd ∷ params) s all =
      elim (Bool-cases (cmd == "ERROR" || cmd == "OK")) [
        | inl acknowledged ↦ rw acknowledged all
        | inr request ↦ rw request (run_named-keeps cmd (command_of cmd) sender params s all)
      ]
