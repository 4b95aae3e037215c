-- ===== src/Secw/Srr/Wallet/Checked.antt =====
-- A restore changes nothing where the passphrase is not the one of the save
-- (lib/src/secw_security_wallet.cc).
use Prim.Native.String.{len}
use fty_security_wallet.Base.{
  String, Bool, true, false, Option, returns, throws, Attempt, Result, ok, err, hang, >>=-eq-ok,
  guarded-eq-ok, ◌≡◌, refl, sym, ap, ◌∙◌, ◌⊎◌, not, ltb, ◌==◌, eq_iff, inl, inr, or_throw,
}
use fty_security_wallet.Base.Exec.{continue}
use fty_security_wallet.External.{External, read_string}
use fty_security_wallet.External.Openssl.{Openssl}
use fty_security_wallet.Secw.Error.{Exn, standard}
use fty_security_wallet.Secw.OpensslWrapper.{decrypt}
use fty_security_wallet.Secw.Wallet.{SecurityWallet}
use fty_security_wallet.Secw.Server.{World}
use fty_security_wallet.Secw.Srr.Checks.{check_save}
use fty_security_wallet.Secw.Srr.Wallet.{restore_srr_data}

ends :
    {A : Type 0} (r : Result Exn A) (f : A → World → Result Exn (Unit {0}) × World) (s : World)
    → ((continue r f s).1 ≡ s) ⊎ ((a : A) × (r ≡ ok a))
ends (ok a) f s = inr (a, refl)
ends (err x) f s = inl refl
ends hang f s = inl refl

module _ ⦃e : External⦄ ⦃o : Openssl⦄ where
  open e use {Si, to_json_beautified}

  or_throw-eq-ok : {A : Type 0} (t : Attempt A) (a : A) → or_throw standard t ≡ ok a → t ≡ returns a
  or_throw-eq-ok (returns b) a h = cc h
  or_throw-eq-ok (throws what) a h = absurd (cc h)

  not-false : (b : Bool) → not b ≡ false → b ≡ true
  not-false true h = refl
  not-false false h = absurd (cc h)

  checked :
      (release : String) (si : Si) (passphrase version : String) (same : Bool)
      → check_save release si passphrase version ≡ ok same
      → (version ≡ "1.0")
        × (received : String) × (read_string "check_passphrase" si ≡ returns received)
        × (decrypt received passphrase ≡ ok passphrase)
  unfolding check_save
  checked release si passphrase version same h =
      let (wrong_version, h1) = guarded-eq-ok (not (version == "1.0")) _ _ h in
      let (short, h2) = guarded-eq-ok (ltb (len passphrase) 8) _ _ h1 in
      let (received, found, h3) =
        >>=-eq-ok (or_throw standard (read_string "check_passphrase" si)) _ h2 in
      let (opened, decrypted, h4) = >>=-eq-ok (decrypt received passphrase) _ h3 in
      let (wrong, h5) = guarded-eq-ok (not (passphrase == opened)) _ _ h4 in
      let same_text : passphrase ≡ opened =
        (eq_iff passphrase opened).0 (not-false (passphrase == opened) wrong) in
      (
        (eq_iff version "1.0").0 (not-false (version == "1.0") wrong_version),
        received,
        or_throw-eq-ok (read_string "check_passphrase" si) received found,
        decrypted ∙ ap (λ t. ok t) (sym same_text),
      )

  -- A restore leaves the server as it is, in memory and in the file, unless the version is the known
  -- one and the passphrase is the one that the save was made with: the check of the save decrypts
  -- with it to it.
  pub restore_srr_data_checked :
      (configuration : Option String) (left : SecurityWallet) (release : String) (si : Si)
      (passphrase version : String) (s : World)
      → ((restore_srr_data configuration left release si passphrase version s).1 ≡ s)
        ⊎ ((version ≡ "1.0")
            × (received : String) × (read_string "check_passphrase" si ≡ returns received)
            × (decrypt received passphrase ≡ ok passphrase))
  unfolding restore_srr_data
  restore_srr_data_checked configuration left release si passphrase version s =
      elim (ends (check_save release si passphrase version) _ s) [
        | inl same ↦ inl same
        | inr (same, passed) ↦ inr (checked release si passphrase version same passed)
      ]
