-- ===== src/Secw/Configuration/Rights.antt =====
-- The rights of a client, and the usages that an update adds or takes away.
use fty_security_wallet.Base.{
  String, Bool, true, false, [], ◌∷◌, List, ok, returns, throws, ◌≡◌, ◌||◌, ◌&&◌, not, arith,
  eq_iff, if◌then◌else◌, inl, inr, Attempt-cases,
}
use fty_security_wallet.Base.StringSet
use fty_security_wallet.Base.StringSet.{StringSet}
use fty_security_wallet.External.{External}
use fty_security_wallet.Secw.Configuration.{
  Client, PortfolioConfiguration, union, missing_from, difference_between_2_usages_id_set,
  is_matching_client, usage_ids_for, get_usage_ids_for_consumer, get_usage_ids_for_producer,
}

contains-union :
    (u : String) (a b : StringSet)
    → StringSet.contains u (union a b) ≡ (StringSet.contains u a || StringSet.contains u b)
unfolding union StringSet.contains
contains-union u a [] = ground arith
contains-union u a (x ∷ b) =
    ground (arith, contains-union u (StringSet.insert x a) b, StringSet.contains-insert x u a)

contains-missing_from :
    (u : String) (b diff a : StringSet)
    → StringSet.contains u (missing_from b diff a)
      ≡ (StringSet.contains u diff || (StringSet.contains u a && not (StringSet.contains u b)))
unfolding missing_from StringSet.contains
contains-missing_from u b diff [] = ground arith
contains-missing_from u b diff (x ∷ a) = ground (
  arith,
  eq_iff x u,
  contains-missing_from u b diff a,
  contains-missing_from u b (StringSet.insert x diff) a,
  StringSet.contains-insert x u diff,
)

-- The difference of two sets of usages holds exactly the usages that are in one of them only.
pub contains-difference_between_2_usages_id_set :
    (u : String) (a b : StringSet)
    → StringSet.contains u (difference_between_2_usages_id_set a b)
      ≡ (if StringSet.contains u a then not (StringSet.contains u b) else StringSet.contains u b)
unfolding difference_between_2_usages_id_set StringSet.contains
contains-difference_between_2_usages_id_set u a b =
    ground
      (arith, contains-missing_from u a (missing_from b [] a) b, contains-missing_from u b [] a)

module _ ⦃e : External⦄ where
  -- Whether a client that the identifier matches holds the usage.
  pub grants : String → String → List Client → Bool
  grants client_id u [] = false
  grants client_id u (client ∷ clients) = elim (is_matching_client client_id client) [
    | returns matching ↦
        (matching && StringSet.contains u client.usages) || grants client_id u clients
    | throws _ ↦ false
  ]

  contains-usage_ids_for :
      (client_id u : String) (usages : StringSet) (clients : List Client) (s : StringSet)
      → usage_ids_for client_id usages clients ≡ ok s
      → StringSet.contains u s ≡ (StringSet.contains u usages || grants client_id u clients)
  unfolding usage_ids_for grants
  contains-usage_ids_for client_id u usages [] s h = ground arith
  contains-usage_ids_for client_id u usages (client ∷ clients) s h =
      elim (Attempt-cases (is_matching_client client_id client)) [
        | inr (what, bad) ↦ cc (rw (bad, usage_ids_for) at h)
        | inl (true, good) ↦
            rw (good, grants)
              (ground (
                arith,
                contains-usage_ids_for client_id u (union usages client.usages) clients s
                    (rw (good, usage_ids_for) at h),
                contains-union u usages client.usages,
              ))
        | inl (false, good) ↦
            rw (good, grants)
              (contains-usage_ids_for client_id u usages clients s (rw (good, usage_ids_for) at h))
      ]

  -- The usages of a consumer are exactly those that some consumer entry grants whose pattern its
  -- identifier matches, whenever every pattern tried is a valid regular expression.
  pub contains-get_usage_ids_for_consumer :
      (client_id u : String) (config : PortfolioConfiguration) (s : StringSet)
      → get_usage_ids_for_consumer client_id config ≡ ok s
      → StringSet.contains u s ≡ grants client_id u config.consumers
  unfolding get_usage_ids_for_consumer StringSet.contains
  contains-get_usage_ids_for_consumer client_id u config s h =
      contains-usage_ids_for client_id u [] config.consumers s h

  -- The usages of a producer are exactly those that some producer entry grants whose pattern its
  -- identifier matches, whenever every pattern tried is a valid regular expression.
  pub contains-get_usage_ids_for_producer :
      (client_id u : String) (config : PortfolioConfiguration) (s : StringSet)
      → get_usage_ids_for_producer client_id config ≡ ok s
      → StringSet.contains u s ≡ grants client_id u config.producers
  unfolding get_usage_ids_for_producer StringSet.contains
  contains-get_usage_ids_for_producer client_id u config s h =
      contains-usage_ids_for client_id u [] config.producers s h
