-- ===== src/Secw/Server/Writes.antt =====
-- The handlers that change the wallet: create, delete and update. Each checks the rights of the
-- sender, changes the portfolio in memory, saves the database and notifies.
use fty_security_wallet.Base.{
  String, some, none, List, ◌∷◌, Attempt, returns, throws, Result, ok, err, hang,
}
use fty_security_wallet.Base.Exec.{pure, raise, lift, gets, ◌>>=◌, ◌>>◌}
use fty_security_wallet.External.{External}
use fty_security_wallet.Secw.Error.{Exn, secw, standard, bad_command_argument}
use fty_security_wallet.Secw.Document.{Document, read_document, validate}
use fty_security_wallet.Secw.Portfolio
use fty_security_wallet.Secw.Portfolio.{Portfolio, get_document}
use fty_security_wallet.Secw.Helpers.{deserialize}
use fty_security_wallet.Secw.Configuration.{difference_between_2_usages_id_set}
use fty_security_wallet.Secw.Wallet.{get_portfolio, put_portfolio, wallet_info}
use fty_security_wallet.Secw.Server.{World, Handler}
use fty_security_wallet.Secw.Server.Rights.{check_usages, producer_usages}
use fty_security_wallet.Secw.Server.Notifications.{
  send_notification_on_create, send_notification_on_delete, send_notification_on_update,
}

-- A portfolio changed through the reference that `getPortfolio(name)` returned.
unfoldable pub set_portfolio : String → Portfolio → World → World
set_portfolio name p world = record world {
  wallet = record world.wallet { portfolios = put_portfolio name p world.wallet.portfolios };
}

-- a method of `Portfolio` that throws before it writes
unfoldable pub change_portfolio : String → Result Exn Portfolio → Handler (Unit {0})
unfolding set_portfolio
change_portfolio name (ok p) world = (ok tt, set_portfolio name p world)
change_portfolio name (err x) world = (err x, world)
change_portfolio name hang world = (hang, world)

module _ ⦃e : External⦄ where
  open e use {Si, to_json_beautified, write_file}

  -- `portfolio.add(doc)`
  unfoldable pub add_to_portfolio : String → Portfolio → Document → Handler String
  unfolding set_portfolio
  add_to_portfolio name p doc world =
      let (r, (q, draws)) = Portfolio.add doc (p, world.draws) in
      (r, record (set_portfolio name q world) { draws = draws })

  -- what the serializer throws
  abbrev pub serialized : Attempt String → Result Exn (Unit {0})
  serialized (returns text) = ok tt
  serialized (throws message) = err (standard message)

  -- the end of `SecurityWallet::save`: the tree goes through the serializer into a stream on the
  -- file
  unfoldable pub write_database : Si → Handler (Unit {0})
  write_database si world =
      (serialized (to_json_beautified si), record world { database = write_file world.database si })

  -- `SecurityWallet::save`
  unfoldable pub save : Handler (Unit {0})
  unfolding write_database
  save world = write_database (wallet_info world.wallet.portfolios) world

  unfoldable pub handle_create : String → List String → Handler String
  unfolding add_to_portfolio
  handle_create sender (portfolio_name ∷ document ∷ rest) = do
    w ← gets (λ world. world.wallet)
    allowed ← lift (producer_usages portfolio_name sender w)
    portfolio ← lift (get_portfolio portfolio_name w)
    si ← lift (deserialize document)
    doc ← lift (read_document none si)
    lift (validate doc)
    lift (check_usages allowed doc.usages)
    new_id ← add_to_portfolio portfolio_name portfolio doc
    save
    changed ← gets (λ world. get_portfolio portfolio_name world.wallet)
    portfolio' ← lift changed
    created ← lift (get_document new_id portfolio')
    send_notification_on_create portfolio_name created
    pure new_id
  handle_create sender _ = raise (secw (bad_command_argument "Command need 2 arguments"))

  unfoldable pub handle_delete : String → List String → Handler String
  unfolding change_portfolio
  handle_delete sender (portfolio_name ∷ id ∷ rest) = do
    w ← gets (λ world. world.wallet)
    allowed ← lift (producer_usages portfolio_name sender w)
    portfolio ← lift (get_portfolio portfolio_name w)
    doc ← lift (get_document id portfolio)
    lift (check_usages allowed doc.usages)
    change_portfolio portfolio_name (Portfolio.remove id portfolio)
    save
    send_notification_on_delete portfolio_name doc
    pure "OK"
  handle_delete sender _ = raise (secw (bad_command_argument "Command need 2 arguments"))

  unfoldable pub handle_update : String → List String → Handler String
  unfolding change_portfolio
  handle_update sender (portfolio_name ∷ document ∷ rest) = do
    w ← gets (λ world. world.wallet)
    allowed ← lift (producer_usages portfolio_name sender w)
    portfolio ← lift (get_portfolio portfolio_name w)
    si ← lift (deserialize document)
    doc ← lift (read_document none si)
    existing ← lift (get_document doc.id portfolio)
    let diff = difference_between_2_usages_id_set doc.usages existing.usages
    lift (check_usages allowed diff)
    updated ← lift (read_document (some existing) si)
    lift (validate updated)
    change_portfolio portfolio_name (Portfolio.update updated portfolio)
    save
    send_notification_on_update portfolio_name existing doc
    pure "OK"
  handle_update sender _ = raise (secw (bad_command_argument "Command need 2 arguments"))
