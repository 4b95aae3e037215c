-- ===== src/Secw/Server/Rights.antt =====
-- The checks of the handlers that change the wallet, and what they establish
-- (lib/src/secw_security_wallet_server.cc).
use fty_security_wallet.Base.{
  String, ◌^^◌, true, List, [], ◌∷◌, All, Result, ok, err, ◌>>=◌, ◌>>◌, throw_if, if◌then◌else◌,
  ◌≡◌, ◌⊎◌, ◌∙◌, sym, subst, >>=-eq-ok, guarded-eq-ok, Bool-cases, inl, inr, ◌==◌, eq_iff, arith,
}
use fty_security_wallet.Base.StringSet
use fty_security_wallet.Base.StringSet.{StringSet}
use fty_security_wallet.External.{External}
use fty_security_wallet.Secw.Error.{Exn, secw, illegal_access}
use fty_security_wallet.Secw.Configuration.{
  PortfolioConfiguration, get_usage_ids_for_producer, difference_between_2_usages_id_set,
}
use fty_security_wallet.Secw.Configuration.Rights.{
  grants, contains-get_usage_ids_for_producer, contains-difference_between_2_usages_id_set,
}
use fty_security_wallet.Secw.Wallet.{SecurityWallet, get_configuration}
use fty_security_wallet.Secw.Server.{has_none}

abbrev pub no_access_to_command : Exn
no_access_to_command = secw (illegal_access "You do not have access to this command")

-- The loop that looks for a usage outside the rights of the sender.
unfoldable pub check_usages : StringSet → List String → Result Exn (Unit {0})
check_usages allowed [] = ok tt
check_usages allowed (usage ∷ usages) =
    if StringSet.contains usage allowed
    then check_usages allowed usages
    else err (secw (illegal_access ("You do not have access to usage <" ^^ (usage ^^ ">"))))

module _ ⦃e : External⦄ where
  -- The rights of a producer, or a throw if it has none.
  unfoldable pub producer_usages : String → String → SecurityWallet → Result Exn StringSet
  producer_usages portfolio_name sender w = do
    config ← get_configuration portfolio_name w
    allowed ← get_usage_ids_for_producer sender config
    throw_if (has_none allowed) no_access_to_command
    ok allowed

  -- The configuration of the portfolio lets the producer have every usage of the list.
  pub record MayProduce (w : SecurityWallet) (portfolio_name sender : String) (usages : List String)
      : Type 0 where
    pub config : PortfolioConfiguration
    pub configured : get_configuration portfolio_name w ≡ ok config
    pub granted : All (λ u. grants sender u config.producers ≡ true) usages

  -- The configuration of the portfolio lets the producer have every usage that is in one of the sets
  -- only.
  pub record MayChange (w : SecurityWallet) (portfolio_name sender : String) (old new : StringSet)
      : Type 0 where
    pub config : PortfolioConfiguration
    pub configured : get_configuration portfolio_name w ≡ ok config
    pub granted :
        (u : String)
        → (StringSet.contains u new ≡ StringSet.contains u old)
          ⊎ (grants sender u config.producers ≡ true)

  -- What holds of the elements of a set holds of each string that is in it.
  All-contains :
      (P : String → Type 0) (u : String) (usages : StringSet)
      → All P usages
      → StringSet.contains u usages ≡ true
      → P u
  unfolding StringSet.contains
  All-contains P u [] all h = absurd (cc h)
  All-contains P u (x ∷ xs) all h = elim (Bool-cases (x == u)) [
    | inl here ↦ subst P ((eq_iff x u).0 here) (all.0)
    | inr later ↦ All-contains P u xs all.1 (rw later at h)
  ]

  -- A producer of the difference may change one set into the other.
  pub may_change :
      (w : SecurityWallet) (portfolio_name sender : String) (old new : StringSet)
      → MayProduce w portfolio_name sender (difference_between_2_usages_id_set new old)
      → MayChange w portfolio_name sender old new
  may_change w portfolio_name sender old new may = record {
    config = may.config;
    configured = may.configured;
    granted = λ u.
        elim (Bool-cases (StringSet.contains u (difference_between_2_usages_id_set new old))) [
          | inl differs ↦ inr (
              All-contains (λ v. grants sender v may.config.producers ≡ true) u
                (difference_between_2_usages_id_set new old) may.granted differs)
          | inr agrees ↦ inl (ground (arith, contains-difference_between_2_usages_id_set u new old))
        ];
  }

  granted_of_checked :
      (sender : String) (config : PortfolioConfiguration) (allowed : StringSet)
      (usages : List String)
      → get_usage_ids_for_producer sender config ≡ ok allowed
      → check_usages allowed usages ≡ ok tt
      → All (λ u. grants sender u config.producers ≡ true) usages
  unfolding check_usages
  granted_of_checked sender config allowed [] rights h = tt
  granted_of_checked sender config allowed (u ∷ usages) rights h =
      elim (Bool-cases (StringSet.contains u allowed)) [
        | inl mine ↦ (
          sym (contains-get_usage_ids_for_producer sender u config allowed rights) ∙ mine,
          granted_of_checked sender config allowed usages rights (rw mine at h),
        )
        | inr not_mine ↦ cc (rw not_mine at h)
      ]

  -- What passes both checks is granted.
  pub may_produce :
      (portfolio_name sender : String) (w : SecurityWallet) (allowed : StringSet)
      (usages : List String)
      → producer_usages portfolio_name sender w ≡ ok allowed
      → check_usages allowed usages ≡ ok tt
      → MayProduce w portfolio_name sender usages
  unfolding producer_usages
  may_produce portfolio_name sender w allowed usages h checked =
      let (config, known, h1) = >>=-eq-ok (get_configuration portfolio_name w) _ h in
      let (mine, rights, h2) = >>=-eq-ok (get_usage_ids_for_producer sender config) _ h1 in
      let (_, h3) = guarded-eq-ok (has_none mine) _ _ h2 in
      record {
        config = config;
        configured = known;
        granted = granted_of_checked sender config allowed usages (rights ∙ h3) checked;
      }
