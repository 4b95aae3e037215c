-- ===== src/Secw/Server/Saving.antt =====
-- What a change of a portfolio leaves in memory and in the database file
-- (lib/src/secw_security_wallet_server.cc).
use fty_security_wallet.Base.{
  String, returns, Result, ok, err, hang, ◌≡◌, refl, ap, sym, ◌∙◌, Attempt-cases, inl, inr, ◌==◌,
  if◌then◌else◌, arith,
}
use fty_security_wallet.Base.Exec.{continue, continue-eq-ok, ◌>>=◌, ◌>>◌}
use fty_security_wallet.External.{External}
use fty_security_wallet.Secw.Error.{Exn}
use fty_security_wallet.Secw.Portfolio.{Portfolio}
use fty_security_wallet.Secw.Wallet.{get_portfolio, put_portfolio, wallet_info}
use fty_security_wallet.Secw.Wallet.Lookup.{get_portfolio-put_portfolio}
use fty_security_wallet.Secw.Server.{World, Handler}
use fty_security_wallet.Secw.Server.Notifications.{publish}
use fty_security_wallet.Secw.Server.Writes.{
  set_portfolio, change_portfolio, serialized, write_database, save,
}

-- A step that leaves the wallet and the database file alone, whatever else it does.
abbrev pub Spares : {A : Type 0} → Handler A → Type 0
Spares m = (s : World) → ((m s).1.wallet ≡ s.wallet) × ((m s).1.database ≡ s.database)

pub publish-Spares : (message : Result Exn String) → Spares (publish message)
unfolding publish
publish-Spares message s = ground arith

pub continue-Spares :
    {A B : Type 0} (r : Result Exn A) (f : A → Handler B)
    → ((a : A) → Spares (f a))
    → Spares (continue r f)
continue-Spares (ok a) f h s = h a s
continue-Spares (err x) f h s = (refl, refl)
continue-Spares hang f h s = (refl, refl)

pub >>=-Spares :
    {A B : Type 0} (m : Handler A) (f : A → Handler B)
    → Spares m
    → ((a : A) → Spares (f a))
    → Spares (m >>= f)
>>=-Spares m f hm hf s =
    let after = continue-Spares (m s).0 f hf (m s).1 in (after.0 ∙ (hm s).0, after.1 ∙ (hm s).1)

module _ ⦃e : External⦄ where
  open e use {to_json_beautified, write_file}

  -- The portfolios in memory, and what was written of them to the database file, after a change of
  -- one portfolio. The serializer had a text for them; a stream that cannot write it says nothing.
  pub record IsSaved (portfolio_name : String) (q : Portfolio) (before after : World) : Type 0 where
    pub portfolios :
        after.wallet.portfolios ≡ put_portfolio portfolio_name q before.wallet.portfolios
    pub configurations : after.wallet.configurations ≡ before.wallet.configurations
    pub text : String
    pub written : to_json_beautified (wallet_info after.wallet.portfolios) ≡ returns text
    pub database : after.database ≡ write_file before.database (wallet_info after.wallet.portfolios)

  save-eq-ok :
      (s : World) (u : Unit {0})
      → (save s).0 ≡ ok u
      → (text : String) × (to_json_beautified (wallet_info s.wallet.portfolios) ≡ returns text)
        × ((save s).1
            ≡ record s { database = write_file s.database (wallet_info s.wallet.portfolios) })
  unfolding save write_database
  save-eq-ok s u h = elim (Attempt-cases (to_json_beautified (wallet_info s.wallet.portfolios))) [
    | inl (text, written) ↦ (text, written, refl)
    | inr (message, broken) ↦ absurd (cc (rw (broken, serialized) at h))
  ]

  -- A save that returns, with steps behind it that spare what was saved.
  pub save-then :
      {A : Type 0} (f : Handler A) (s t : World) (a : A)
      → Spares f
      → (save >> f) s ≡ (ok a, t)
      → (t.wallet ≡ s.wallet)
        × ((text : String) × (to_json_beautified (wallet_info s.wallet.portfolios) ≡ returns text)
            × (t.database ≡ write_file s.database (wallet_info s.wallet.portfolios)))
  save-then f s t a spares h =
      let (u, saved, h1) = continue-eq-ok (save s).0 (λ _. f) (save s).1 h in
      let (text, written, after) = save-eq-ok s u saved in
      let ends : (f (save s).1).1 ≡ t = ap (λ p. p.1) h1 in
      (
        ap (λ w. w.wallet) (sym ends) ∙ (spares (save s).1).0 ∙ ap (λ w. w.wallet) after,
        (
          text,
          written,
          ap (λ w. w.database) (sym ends) ∙ (spares (save s).1).1 ∙ ap (λ w. w.database) after,
        ),
      )

  pub IsSaved-change :
      {A : Type 0} (portfolio_name : String) (q : Portfolio) (f : Handler A) (s t : World) (a : A)
      → Spares f
      → (save >> f) (set_portfolio portfolio_name q s) ≡ (ok a, t)
      → IsSaved portfolio_name q s t
  unfolding set_portfolio
  IsSaved-change portfolio_name q f s t a spares h =
      let (wallet, saved) = save-then f (set_portfolio portfolio_name q s) t a spares h in
      record {
        portfolios = ap (λ w. w.portfolios) wallet;
        configurations = ap (λ w. w.configurations) wallet;
        text = saved.0;
        written = ap (λ w. to_json_beautified (wallet_info w.portfolios)) wallet ∙ saved.1;
        database =
            saved.2 ∙ ap (λ w. write_file s.database (wallet_info w.portfolios)) (sym wallet);
      }

  pub changed :
      {A : Type 0} (portfolio_name : String) (r : Result Exn Portfolio) (f : Handler A)
      (s t : World) (a : A)
      → (change_portfolio portfolio_name r >> f) s ≡ (ok a, t)
      → (q : Portfolio) × (r ≡ ok q) × (f (set_portfolio portfolio_name q s) ≡ (ok a, t))
  unfolding change_portfolio
  changed portfolio_name (ok q) f s t a h = (q, refl, h)
  changed portfolio_name (err x) f s t a h = absurd (cc (ap (λ p. p.0) h))
  changed portfolio_name hang f s t a h = absurd (cc (ap (λ p. p.0) h))

-- The portfolio is what is found under its name in memory, and what is found under any other name
-- is what was.
pub record IsPut (name : String) (q : Portfolio) (before after : World) : Type 0 where
  pub looked_up :
      (other : String)
      → get_portfolio other after.wallet
        ≡ (if name == other then ok q else get_portfolio other before.wallet)

pub IsSaved-IsPut :
    ⦃e : External⦄ (name : String) (p q : Portfolio) (s t : World)
    → get_portfolio name s.wallet ≡ ok p
    → q.name ≡ p.name
    → IsSaved name q s t
    → IsPut name q s t
IsSaved-IsPut name p q s t found named saved = record {
  looked_up = λ other.
      get_portfolio-put_portfolio name other s.wallet t.wallet p q found named saved.portfolios;
}
