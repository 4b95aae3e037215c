-- ===== src/Secw/Srr/Requests.antt =====
-- The two requests of the save and restore feature: `handleSave` and `handleRestore` of
-- lib/src/secw_security_wallet_server.cc, each under the lock of the server. The messages of
-- fty_srr_dto are records of what the code sets and reads; a map of names is one here too.
pub mod RoundTrip
use fty_security_wallet.Base.{ℕ, String, List, [], ◌∷◌, Result, ok, err, hang, ◌==◌, if◌then◌else◌}
use fty_security_wallet.Base.{Option}
use fty_security_wallet.Base.Exec.{Exec, pure, lift, ◌>>=◌}
use fty_security_wallet.Base.StringMap
use fty_security_wallet.Base.StringMap.{StringMap}
use fty_security_wallet.External.{External}
use fty_security_wallet.External.Openssl.{Openssl}
use fty_security_wallet.Secw.Error.{Exn, what}
use fty_security_wallet.Secw.Helpers.{serialize, deserialize}
use fty_security_wallet.Secw.Wallet.{SecurityWallet}
use fty_security_wallet.Secw.Server.{World, Handler}
use fty_security_wallet.Secw.Srr.Wallet.{get_srr_save_data, restore_srr_data}

-- `ACTIVE_VERSION`
abbrev pub active_version : String
active_version = "1.0"

pub data Status : Type 0 where
  success : Status
  -- with the error
  failed : String → Status

pub record Feature : Type 0 where
  pub version : String
  pub content : String

pub record FeatureAndStatus : Type 0 where
  pub feature : Feature
  pub status : Status

-- a message with nothing set
abbrev empty_feature : Feature
empty_feature = record { version = ""; content = "" }

-- the `try` of a save, and of a restore: an exception becomes the error
abbrev pub saved : Result Exn String → Result Exn FeatureAndStatus
saved (ok text) =
    ok (record { feature = record { version = active_version; content = text }; status = success })
saved (err x) = ok (record {
  feature = record { version = active_version; content = "" };
  status = failed (what x);
})
saved hang = hang

abbrev pub tried : Result Exn (Unit {0}) → Result Exn Status
tried (ok _) = ok success
tried (err x) = ok (failed (what x))
tried hang = hang

module _ ⦃e : External⦄ ⦃o : Openssl⦄ where
  -- the data of the wallet
  unfoldable pub save_text : String → String → SecurityWallet → Exec ℕ Exn String
  save_text release passphrase w =
      get_srr_save_data release passphrase w >>= λ si. lift (serialize si)

  -- one round of `handleSave`
  unfoldable pub save_feature :
      String → String → SecurityWallet → String → Exec ℕ Exn FeatureAndStatus
  unfolding save_text
  save_feature release passphrase w name n =
      if name == "security-wallet"
      then (let (r, n') = save_text release passphrase w n in (saved r, n'))
      else (ok (record { feature = empty_feature; status = failed "Feature is not supported!" }), n)

  unfoldable pub save_features :
      String
      → String
      → SecurityWallet
      → StringMap FeatureAndStatus
      → List String
      → Exec ℕ Exn (StringMap FeatureAndStatus)
  save_features release passphrase w responses [] = pure responses
  save_features release passphrase w responses (name ∷ names) =
      save_feature release passphrase w name >>= λ response.
      save_features release passphrase w (StringMap.insert name response responses) names

  -- `handleSave`
  unfoldable pub handle_save :
      String → String → SecurityWallet → List String → Exec ℕ Exn (StringMap FeatureAndStatus)
  unfolding save_features
  handle_save release passphrase w = save_features release passphrase w []

  unfoldable pub restore_text :
      Option String → SecurityWallet → String → String → Feature → Handler (Unit {0})
  restore_text configuration left release passphrase feature =
      lift (deserialize feature.content) >>= λ si.
      restore_srr_data configuration left release si passphrase feature.version

  -- one round of `handleRestore`
  unfoldable pub restore_feature :
      Option String → SecurityWallet → String → String → String → Feature → Handler Status
  unfolding restore_text
  restore_feature configuration left release passphrase name feature world =
      if name == "security-wallet"
      then (let (r, after) = restore_text configuration left release passphrase feature world in
          (tried r, after))
      else (ok (failed "Feature is not supported!"), world)

  unfoldable pub restore_features :
      Option String
      → SecurityWallet
      → String
      → String
      → StringMap Status
      → List (String × Feature)
      → Handler (StringMap Status)
  restore_features configuration left release passphrase statuses [] = pure statuses
  restore_features configuration left release passphrase statuses ((name, feature) ∷ items) =
      restore_feature configuration left release passphrase name feature >>= λ status.
      restore_features configuration left release passphrase (StringMap.insert name status statuses)
        items

  -- `handleRestore`, on the features in the order in which the map of the query gives them
  unfoldable pub handle_restore :
      Option String
      → SecurityWallet
      → String
      → String
      → List (String × Feature)
      → Handler (StringMap Status)
  unfolding restore_features
  handle_restore configuration left release passphrase =
      restore_features configuration left release passphrase []
