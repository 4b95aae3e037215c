-- ===== src/Secw/Wallet/Lookup.antt =====
-- What holds of every portfolio, when one is found or written back (lib/src/secw_security_wallet.cc).
use fty_security_wallet.Base.{
  All, ok, ok-injective, subst, ap, ◌∙◌, Bool-cases, Option-cases, inl, inr, String, ◌≡◌, some,
  List, [], ◌∷◌, ◌==◌, eq_iff, sym, refl, arith, if◌then◌else◌,
}
use fty_security_wallet.Secw.Portfolio.{Portfolio}
use fty_security_wallet.Secw.Wallet.{SecurityWallet, get_portfolio, find_portfolio, put_portfolio}

module _ (P : Portfolio → Type 0) where
  All-find_portfolio :
      (name : String) (ps : List Portfolio) (p : Portfolio)
      → All P ps
      → find_portfolio name ps ≡ some p
      → P p
  unfolding find_portfolio
  All-find_portfolio name [] p all h = absurd (cc h)
  All-find_portfolio name (q ∷ ps) p all h = elim (Bool-cases (q.name == name)) [
    | inl here ↦ subst P (cc (rw here at h)) (all.0)
    | inr later ↦ All-find_portfolio name ps p (all.1) (rw later at h)
  ]

  -- What holds of every portfolio holds of the one that `getPortfolio` returns.
  pub All-get_portfolio :
      (name : String) (w : SecurityWallet) (p : Portfolio)
      → All P w.portfolios
      → get_portfolio name w ≡ ok p
      → P p
  unfolding get_portfolio
  All-get_portfolio name w p all h = elim (Option-cases (find_portfolio name w.portfolios)) [
    | inl none_there ↦ absurd (cc (rw (none_there, get_portfolio) at h))
    | inr (q, there) ↦
        All-find_portfolio name w.portfolios p all
          (there ∙ ap (λ q. some q) (ok-injective (rw (there, get_portfolio) at h)))
  ]

  pub All-put_portfolio :
      (name : String) (q : Portfolio) (ps : List Portfolio)
      → P q
      → All P ps
      → All P (put_portfolio name q ps)
  unfolding put_portfolio
  All-put_portfolio name q [] fine all = all
  All-put_portfolio name q (p ∷ ps) fine all = elim (Bool-cases (p.name == name)) [
    | inl here ↦ rw here (fine, all.1)
    | inr later ↦ rw later (all.0, All-put_portfolio name q ps fine (all.1))
  ]

-- The portfolio that is found under a name has it.
name-find_portfolio :
    (name : String) (ps : List Portfolio) (p : Portfolio)
    → find_portfolio name ps ≡ some p
    → p.name ≡ name
unfolding find_portfolio
name-find_portfolio name [] p h = absurd (cc h)
name-find_portfolio name (q ∷ ps) p h = elim (Bool-cases (q.name == name)) [
  | inl here ↦
      let same : q ≡ p = cc (rw here at h) in
      ap (λ r. r.name) (sym same) ∙ (eq_iff q.name name).0 here
  | inr later ↦ name-find_portfolio name ps p (rw later at h)
]

find_portfolio-put_portfolio :
    (name other : String) (q p : Portfolio) (ps : List Portfolio)
    → q.name ≡ name
    → find_portfolio name ps ≡ some p
    → find_portfolio other (put_portfolio name q ps)
      ≡ (if name == other then some q else find_portfolio other ps)
unfolding find_portfolio put_portfolio
find_portfolio-put_portfolio name other q p [] named h = absurd (cc h)
find_portfolio-put_portfolio name other q p (r ∷ ps) named h = elim (Bool-cases (r.name == name)) [
  | inl here ↦ rw here (
      ground
        (arith, eq_iff r.name name, eq_iff q.name other, eq_iff name other, eq_iff r.name other))
  | inr later ↦
      let rest = find_portfolio-put_portfolio name other q p ps named (rw later at h) in
      rw later (ground (arith, rest, eq_iff r.name name, eq_iff name other, eq_iff r.name other))
]

-- What `getPortfolio` returns of an optional portfolio.
found-get_portfolio :
    (name other : String) (w v : SecurityWallet) (q : Portfolio)
    → find_portfolio other v.portfolios
      ≡ (if name == other then some q else find_portfolio other w.portfolios)
    → get_portfolio other v ≡ (if name == other then ok q else get_portfolio other w)
unfolding get_portfolio
found-get_portfolio name other w v q h = elim (Bool-cases (name == other)) [
  | inl here ↦ rw here (rw (rw here at h, get_portfolio) refl)
  | inr there ↦ rw there (rw (rw there at h, get_portfolio) refl)
]

-- A portfolio of the same name that is written back is found under its name, and the others are
-- what they were.
pub get_portfolio-put_portfolio :
    (name other : String) (w v : SecurityWallet) (p q : Portfolio)
    → get_portfolio name w ≡ ok p
    → q.name ≡ p.name
    → v.portfolios ≡ put_portfolio name q w.portfolios
    → get_portfolio other v ≡ (if name == other then ok q else get_portfolio other w)
unfolding get_portfolio
get_portfolio-put_portfolio name other w v p q h named put =
    elim (Option-cases (find_portfolio name w.portfolios)) [
      | inl none_there ↦ absurd (cc (rw (none_there, get_portfolio) at h))
      | inr (r, there) ↦
          let same : r ≡ p = ok-injective (rw (there, get_portfolio) at h) in
          let name_kept : q.name ≡ name =
            named ∙ ap (λ t. t.name) (sym same) ∙ name-find_portfolio name w.portfolios r there in
          found-get_portfolio name other w v q (
            ap (λ ps. find_portfolio other ps) put
            ∙ find_portfolio-put_portfolio name other q r w.portfolios name_kept there)
    ]
