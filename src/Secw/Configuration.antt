-- ===== src/Secw/Configuration.antt =====
-- The access rights of a portfolio: classes `Usage`, `Client` and `PortfolioConfiguration`
-- (lib/src/secw_configuration.h, lib/src/secw_configuration.cc).
pub mod Rights
use fty_security_wallet.Base.{
  String, ◌^^◌, Bool, true, false, Option, some, none, List, [], ◌∷◌, Attempt, returns, throws,
  Result, ok, err, ◌>>=◌, ◌>>◌, or_throw, throw_if, is_empty, ◌==◌, not, if◌then◌else◌,
}
use fty_security_wallet.Base.StringSet
use fty_security_wallet.Base.StringSet.{StringSet}
use fty_security_wallet.Base.StringMap
use fty_security_wallet.Base.StringMap.{StringMap}
use fty_security_wallet.External.{External, read_string, read_strings}
use fty_security_wallet.Secw.Error.{Exn, standard}

pub record Usage : Type 0 where
  pub usage_id : String
  pub types : StringSet

-- `Consumer` and `Producer` are this class.
pub record Client : Type 0 where
  pub client_regex : String
  pub usages : StringSet

pub record PortfolioConfiguration : Type 0 where
  pub portfolio_name : String
  pub usages : StringMap Usage
  pub supported_types : StringSet
  pub consumers : List Client
  pub producers : List Client

-- `std::copy(b, std::inserter(a))`
unfoldable pub union : StringSet → StringSet → StringSet
union a [] = a
union a (x ∷ b) = union (StringSet.insert x a) b

-- `getAllUsageId`
pub get_all_usage_id : PortfolioConfiguration → StringSet
get_all_usage_id config = StringMap.keys config.usages

-- one of the two loops of `differenceBetween2UsagesIdSet`
unfoldable pub missing_from : StringSet → StringSet → StringSet → StringSet
missing_from b diff [] = diff
missing_from b diff (usage ∷ a) =
    missing_from b (if StringSet.contains usage b then diff else StringSet.insert usage diff) a

-- `differenceBetween2UsagesIdSet`
unfoldable pub difference_between_2_usages_id_set : StringSet → StringSet → StringSet
unfolding missing_from
difference_between_2_usages_id_set a b = missing_from a (missing_from b [] a) b

module _ ⦃e : External⦄ where
  open e use {Si, get_member, elements, regex_match, out_of_range}

  -- `Client::isMatchingClient`
  unfoldable pub is_matching_client : String → Client → Attempt Bool
  is_matching_client client_id client = regex_match ("^" ^^ (client.client_regex ^^ "$")) client_id

  -- the loop of `getUsageIdsForConsummer` and of `getUsageIdsForProducer`
  unfoldable pub usage_ids_for : String → StringSet → List Client → Result Exn StringSet
  unfolding is_matching_client union
  usage_ids_for client_id usages [] = ok usages
  usage_ids_for client_id usages (client ∷ clients) = do
    matching ← or_throw standard (is_matching_client client_id client)
    usage_ids_for client_id (if matching then union usages client.usages else usages) clients

  unfoldable pub get_usage_ids_for_consumer : String → PortfolioConfiguration → Result Exn StringSet
  unfolding usage_ids_for
  get_usage_ids_for_consumer client_id config = usage_ids_for client_id [] config.consumers

  unfoldable pub get_usage_ids_for_producer : String → PortfolioConfiguration → Result Exn StringSet
  unfolding usage_ids_for
  get_usage_ids_for_producer client_id config = usage_ids_for client_id [] config.producers

  pub get_usage : String → PortfolioConfiguration → Result Exn Usage
  get_usage usage_id config = elim (StringMap.lookup usage_id config.usages) [
    | none ↦ err (standard out_of_range)
    | some usage ↦ ok usage
  ]

  -- `operator>>=` of `Usage`
  unfoldable pub read_usage : Si → Result Exn Usage
  read_usage si = do
    usage_id ← or_throw standard (read_string "usage_id" si)
    types ← or_throw standard (read_strings "supported_types" si)
    throw_if (is_empty usage_id) (standard "usage_id cannot be empty")
    ok (record { usage_id = usage_id; types = StringSet.of_list types })

  -- `operator>>=` of `Client`
  unfoldable pub read_client : Si → Result Exn Client
  read_client si = do
    client_regex ← or_throw standard (read_string "client_regex" si)
    usages ← or_throw standard (read_strings "usages" si)
    ok (record { client_regex = client_regex; usages = StringSet.of_list usages })

  -- a `std::vector` is read element by element
  unfoldable pub read_all : {A : Type 0} → (Si → Result Exn A) → List Si → Result Exn (List A)
  read_all read [] = ok []
  read_all read (si ∷ rest) = do first ← read si; others ← read_all read rest; ok (first ∷ others)

  unfoldable pub read_member :
      {A : Type 0} → (Si → Result Exn A) → String → Si → Result Exn (List A)
  unfolding read_all
  read_member read key si = do
    array ← or_throw standard (get_member key si)
    read_all read (elements array)

  unfoldable pub usages_by_id : List Usage → StringMap Usage → StringMap Usage
  usages_by_id [] m = m
  usages_by_id (usage ∷ rest) m = usages_by_id rest (StringMap.insert usage.usage_id usage m)

  unfoldable pub all_types : List Usage → StringSet → StringSet
  unfolding union
  all_types [] types = types
  all_types (usage ∷ rest) types = all_types rest (union types usage.types)

  -- the constructor of `PortfolioConfiguration`
  unfoldable pub read_configuration : Si → Result Exn PortfolioConfiguration
  unfolding read_member read_usage read_client usages_by_id all_types
  read_configuration si = do
    portfolio_name ← or_throw standard (read_string "portfolio_name" si)
    usages ← read_member read_usage "usages" si
    consumers ← read_member read_client "consumers" si
    producers ← read_member read_client "producers" si
    ok (record {
      portfolio_name = portfolio_name;
      usages = usages_by_id usages [];
      supported_types = all_types usages [];
      consumers = consumers;
      producers = producers;
    })
