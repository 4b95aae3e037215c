-- ===== src/Secw/Server.antt =====
-- Class `SecurityWalletServer` (lib/src/secw_security_wallet_server.h,
-- lib/src/secw_security_wallet_server.cc). `handleRequest` holds the server's lock from end to end,
-- so requests run one after the other, each as a function of the state below.
pub mod Reads
pub mod Rights
pub mod Notifications
pub mod Writes
pub mod Requests
pub mod Access
pub mod Keeping
pub mod Invariant
pub mod Restart
pub mod Saving
pub mod Tails
pub mod Effects
pub mod Secrecy
use fty_security_wallet.Base.{ℕ, String, Option, some, none, List, Bool, true, false, [], ◌∷◌}
use fty_security_wallet.Base.Exec.{Exec}
use fty_security_wallet.Base.StringSet.{StringSet}
use fty_security_wallet.Secw.Error.{Exn}
use fty_security_wallet.Secw.Wallet.{SecurityWallet}

pub record World : Type 0 where
  -- `m_activeWallet`
  pub wallet : SecurityWallet
  -- the database file; `none` if it does not exist
  pub database : Option String
  -- the messages handed to the stream publisher, the last one first
  pub published : List String
  -- the number of the next identifier of the generator
  pub draws : ℕ

-- `size() == 0` of a set
abbrev pub has_none : StringSet → Bool
has_none [] = true
has_none (x ∷ xs) = false

-- A handler that changes the server.
abbrev pub Handler : Type 0 → Type 0
Handler A = Exec World Exn A
