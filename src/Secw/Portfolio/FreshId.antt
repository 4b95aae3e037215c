-- ===== src/Secw/Portfolio/FreshId.antt =====
-- The loop of `Portfolio::add` that looks for an unused identifier (lib/src/secw_portfolio.cc).
use fty_security_wallet.Base.{
  ℕ, zero, suc, ◌+◌, ◌<◌, String, some, ◌≡◌, refl, length, Bool-cases, inl, inr, false, ◌==◌,
  eq_iff, arith, ◌∙◌, sym,
}
use fty_security_wallet.Base.StringMap
use fty_security_wallet.Base.StringMap.{StringMap}
use fty_security_wallet.External.{External}
use fty_security_wallet.Secw.Document.{Document}
use fty_security_wallet.Secw.Portfolio.{fresh_id}

module _ ⦃e : External⦄ where
  open e use {uuid}

  -- The generator never makes an identifier twice.
  abbrev pub IsInjective : Type 0
  IsInjective = (m n : ℕ) → uuid m ≡ uuid n → m ≡ n

  pub fresh_id-new :
      (fuel n : ℕ) (docs : StringMap Document) (id : String) (n' : ℕ)
      → fresh_id fuel n docs ≡ some (id, n')
      → StringMap.member id docs ≡ false
  unfolding fresh_id
  fresh_id-new zero n docs id n' h = cc
  fresh_id-new (suc fuel) n docs id n' h = ground (arith, fresh_id-new fuel (n + 1) docs id n')

  module _ (injective : IsInjective) where
    uuid_ne : (k n : ℕ) → k < n → (uuid k == uuid n) ≡ false
    uuid_ne k n h = elim (Bool-cases (uuid k == uuid n)) [
      | inl same ↦ let k≡n = injective k n ((eq_iff _ _).0 same) in absurd (omega arith)
      | inr other ↦ other
    ]

    -- An identifier that was drawn before is not met again.
    fresh_id-erase :
        (fuel n k : ℕ) (docs : StringMap Document)
        → k < n
        → fresh_id fuel n (StringMap.erase (uuid k) docs) ≡ fresh_id fuel n docs
    unfolding fresh_id
    fresh_id-erase zero n k docs h = refl
    fresh_id-erase (suc fuel) n k docs h = rw (
      StringMap.member-erase_ne (uuid k) (uuid n) docs (uuid_ne k n h),
      fresh_id-erase fuel (n + 1) k docs (omega arith),
    )

    -- One round more than there are documents finds an identifier.
    pub fresh_id_total :
        (fuel n : ℕ) (docs : StringMap Document)
        → length docs < fuel
        → (r : String × ℕ) × (fresh_id fuel n docs ≡ some r)
    unfolding fresh_id
    fresh_id_total zero n docs h = elim h [ ]
    fresh_id_total (suc fuel) n docs h = elim (Bool-cases (StringMap.member (uuid n) docs)) [
      | inl used ↦
          let smaller = StringMap.length-erase-lt (uuid n) docs used in
          let (r, found) =
            fresh_id_total fuel (n + 1) (StringMap.erase (uuid n) docs) (omega arith) in
          (r, rw used (sym (fresh_id-erase fuel (n + 1) n docs (omega arith)) ∙ found))
      | inr free ↦ ((uuid n, n + 1), rw free)
    ]
