-- ===== src/Secw/Wallet/Loading.antt =====
-- What holds of a wallet after it is loaded (lib/src/secw_security_wallet.cc).
use fty_security_wallet.Base.{
  String, ◌≡◌, Option, some, none, List, [], ◌∷◌, ◌++◌, ◌==◌, eq_iff, eq_refl, arith, Bool-cases,
  Option-cases, inl, inr, true, ok, >>=-eq-ok, ok-injective, subst,
}
use fty_security_wallet.Base.StringMap
use fty_security_wallet.External.{External}
use fty_security_wallet.Secw.Portfolio.{Portfolio, new_portfolio}
use fty_security_wallet.Secw.Configuration.{PortfolioConfiguration}
use fty_security_wallet.Secw.Wallet.{
  SecurityWallet, find_portfolio, get_portfolio, add_missing, reload, load_configuration_file,
  load_database_file,
}

-- A portfolio added at the end hides none of those before it.
find_portfolio-append :
    (name : String) (ps qs : List Portfolio) (p : Portfolio)
    → find_portfolio name ps ≡ some p
    → find_portfolio name (ps ++ qs) ≡ some p
unfolding find_portfolio
find_portfolio-append name [] qs p h = cc
find_portfolio-append name (r ∷ ps) qs p h = ground (arith, find_portfolio-append name ps qs p)

find_portfolio-append_new :
    (name : String) (ps : List Portfolio)
    → find_portfolio name ps ≡ none
    → find_portfolio name (ps ++ new_portfolio name ∷ []) ≡ some (new_portfolio name)
unfolding find_portfolio new_portfolio
find_portfolio-append_new name [] h = rw (eq_refl name)
find_portfolio-append_new name (r ∷ ps) h = ground (arith, find_portfolio-append_new name ps)

add_missing-keeps :
    (name : String) (names : List String) (ps : List Portfolio) (p : Portfolio)
    → find_portfolio name ps ≡ some p
    → find_portfolio name (add_missing names ps) ≡ some p
unfolding add_missing
add_missing-keeps name [] ps p h = h
add_missing-keeps name (n ∷ names) ps p h = elim (Option-cases (find_portfolio n ps)) [
  | inl absent ↦
      rw (absent, add_missing)
        (add_missing-keeps name names _ p
          (find_portfolio-append name ps (new_portfolio n ∷ []) p h))
  | inr (q, present) ↦ rw (present, add_missing) (add_missing-keeps name names ps p h)
]

add_missing-covers :
    {C : Type 0} (name : String) (config : C) (configs : StringMap.StringMap C)
    (ps : List Portfolio)
    → StringMap.lookup name configs ≡ some config
    → (p : Portfolio) × (find_portfolio name (add_missing (StringMap.keys configs) ps) ≡ some p)
unfolding add_missing StringMap.keys StringMap.lookup
add_missing-covers name config [] ps h = absurd (cc)
add_missing-covers name config ((n, c) ∷ configs) ps h = elim (Bool-cases (n == name)) [
  | inl same ↦
      let n≡name = (eq_iff n name).0 same in
      elim (Option-cases (find_portfolio n ps)) [
        | inl absent ↦ (
          new_portfolio n,
          rw (absent, add_missing)
              (add_missing-keeps name (StringMap.keys configs) _ _ (
                subst (λ k. find_portfolio k (ps ++ new_portfolio n ∷ []) ≡ some (new_portfolio n))
                  n≡name (find_portfolio-append_new n ps absent))),
        )
        | inr (q, present) ↦ (
          q,
          rw (present, add_missing)
              (add_missing-keeps name (StringMap.keys configs) ps q
                (subst (λ k. find_portfolio k ps ≡ some q) n≡name present)),
        )
      ]
  | inr other ↦ elim (Option-cases (find_portfolio n ps)) [
    | inl absent ↦
        rw (absent, add_missing) (add_missing-covers name config configs _ (rw other at h))
    | inr (q, present) ↦
        rw (present, add_missing) (add_missing-covers name config configs ps (rw other at h))
  ]
]

built-covers :
    (configs : StringMap.StringMap PortfolioConfiguration) (ps : List Portfolio) (name : String)
    → StringMap.member name configs ≡ true
    → (p : Portfolio) × (get_portfolio name (record {
      configurations = configs;
      portfolios = add_missing (StringMap.keys configs) ps;
    })
        ≡ ok p)
unfolding get_portfolio StringMap.member
built-covers configs ps name known = elim (Option-cases (StringMap.lookup name configs)) [
  | inl absent ↦ cc (rw (absent, StringMap.member) at known)
  | inr (config, there) ↦
      let (p, found) = add_missing-covers name config configs ps there in
      (p, rw (found, get_portfolio))
]

module _ ⦃e : External⦄ where
  -- After a successful reload every configured name has its portfolio: a request that passes the
  -- look-up of the configuration cannot fail at that of the portfolio.
  pub get_portfolio-reload :
      (configuration database : Option String) (w : SecurityWallet) (name : String)
      → reload configuration database ≡ ok w
      → StringMap.member name w.configurations ≡ true
      → (p : Portfolio) × (get_portfolio name w ≡ ok p)
  unfolding reload get_portfolio
  get_portfolio-reload configuration database w name h known =
      let (configs, _, h1) = >>=-eq-ok (load_configuration_file configuration) _ h in
      let (portfolios, _, h2) = >>=-eq-ok (load_database_file database) _ h1 in
      let loaded = ok-injective h2 in
      subst
        (λ v.
          StringMap.member name v.configurations ≡ true
          → (p : Portfolio) × (get_portfolio name v ≡ ok p))
        loaded (built-covers configs portfolios name) known
