-- ===== src/Secw/Server/Invariant.antt =====
-- What every request leaves as it is of the portfolios (lib/src/secw_security_wallet_server.cc,
-- lib/src/secw_portfolio.cc).
use fty_security_wallet.Base.{String, List, [], ◌∷◌, All}
use fty_security_wallet.External.{External}
use fty_security_wallet.Secw.Portfolio.Consistency.{
  IsConsistent, add-IsConsistent, remove-IsConsistent, update-IsConsistent,
}
use fty_security_wallet.Secw.Portfolio.Soundness.{
  IsSound, add-IsSound, remove-IsSound, update-IsSound,
}
use fty_security_wallet.Secw.Server.{World}
use fty_security_wallet.Secw.Server.Requests.{handle_request}
use fty_security_wallet.Secw.Server.Keeping.{Keeps, handle_request-keeps}

abbrev pub AreConsistent : World → Type 0
AreConsistent world = All IsConsistent world.wallet.portfolios

module _ ⦃e : External⦄ where
  abbrev pub AreSound : World → Type 0
  AreSound world = All IsSound world.wallet.portfolios

  IsConsistent-keeps : Keeps IsConsistent
  IsConsistent-keeps = record {
    add_keeps = λ doc p n _ fine. add-IsConsistent doc p n fine;
    remove_keeps = remove-IsConsistent;
    update_keeps = λ doc p q _ fine h. update-IsConsistent doc p q fine h;
  }

  IsSound-keeps : Keeps IsSound
  IsSound-keeps = record {
    add_keeps = add-IsSound;
    remove_keeps = remove-IsSound;
    update_keeps = update-IsSound;
  }

  -- Whatever a request is, whoever sends it and whatever it throws, if every portfolio holds the
  -- same documents under their identifiers and under their names before, every portfolio does after.
  pub handle_request-AreConsistent :
      (sender : String) (frames : List String) (s : World)
      → AreConsistent s
      → AreConsistent (handle_request sender frames s).1
  handle_request-AreConsistent sender frames s all =
      handle_request-keeps IsConsistent IsConsistent-keeps sender frames s all

  -- A server that answers requests one after the other, from whichever senders.
  unfoldable pub serve : List (String × List String) → World → World
  serve [] s = s
  serve ((sender, frames) ∷ rest) s = serve rest (handle_request sender frames s).1

  -- Whatever the requests are, whoever sends them and whatever they throw, if every portfolio is
  -- sound before, every portfolio is after: its two maps are in order and index the same documents,
  -- each of which has its sets in order and passes `validate`.
  pub serve-AreSound :
      (requests : List (String × List String)) (s : World)
      → AreSound s
      → AreSound (serve requests s)
  unfolding serve
  serve-AreSound [] s all = all
  serve-AreSound ((sender, frames) ∷ rest) s all =
      serve-AreSound rest (handle_request sender frames s).1
        (handle_request-keeps IsSound IsSound-keeps sender frames s all)
