-- ===== src/BlackMarket/Filters.antt =====
-- internal/blackmarket/opportunities.go (`normalizeOpportunitiesRequest`), with the filters of
-- opportunities_helpers.go and the limits of opportunities_types.go.
pub mod Normal
use albion_market_api.Prelude.{
  ℕ, zero, suc, Bool, true, false, not, ◌&&◌, ◌||◌, Option, none, some, List, [], ◌∷◌, ◌++◌, map,
  ltb, leb, ◌==◌, length, if◌then◌else◌, Result, ok, err, ◌>>=◌, ◌>>◌, fail_if, map_err,
}
use albion_market_api.Prelude.Int.{ℤ, pos}
use albion_market_api.Int64.{lt, le}
use albion_market_api.Text.{Text, Platform, lit, text_eq, text_lt, is_empty, trim_space, to_lower}
use albion_market_api.Seen.{contains, collect, text_keys}
use albion_market_api.Maps.{lookup, beq_ℤ, location_keys}
use albion_market_api.Sort.{sort_stable}
use albion_market_api.Market.Domain.{QueryError}
use albion_market_api.Market.Ingest.{StoreError}
use albion_market_api.Market.Catalog.{Catalog, normalize_key, resolve_enabled}
use albion_market_api.Market.Prices.{validate_server}
use albion_market_api.Market.Server.{map_server}
use albion_market_api.BlackMarket.Economics.{Floating}

-- The errors of a request, which the source tells apart by their message.
pub data InvalidRequest : Type 0 where
  bad_server bad_markets bad_tiers bad_enchantments bad_qualities bad_categories : InvalidRequest
  bad_profit bad_return bad_city_age bad_black_market_age bad_tax bad_transport : InvalidRequest
  bad_sort bad_limit bad_offset : InvalidRequest
  unresolved : QueryError → InvalidRequest

-- `normalizeInt16Filter`: the defaults where the filter is empty. After the loop the result is not
-- empty, so that the last error of the source cannot occur.
abbrev pub check_value : ℕ → ℕ → InvalidRequest → ℕ → ℤ → Result InvalidRequest ℤ
check_value minimum maximum field i value =
    if lt value (pos minimum) || lt (pos maximum) value then err field else ok value

unfoldable pub normalize_filter :
    List ℤ → List ℤ → ℕ → ℕ → InvalidRequest → Result InvalidRequest (List ℤ)
unfolding collect
normalize_filter [] defaults minimum maximum field = ok defaults
normalize_filter (v ∷ values) defaults minimum maximum field =
    collect (check_value minimum maximum field) (λ n. n) 0 [] (v ∷ values) >>= λ result.
    ok (sort_stable lt result)

abbrev pub all_tiers : List ℤ
all_tiers = pos 4 ∷ pos 5 ∷ pos 6 ∷ pos 7 ∷ pos 8 ∷ []

abbrev pub all_enchantments : List ℤ
all_enchantments = pos 0 ∷ pos 1 ∷ pos 2 ∷ pos 3 ∷ pos 4 ∷ []

abbrev pub all_qualities : List ℤ
all_qualities = pos 1 ∷ pos 2 ∷ pos 3 ∷ pos 4 ∷ pos 5 ∷ []

abbrev pub all_categories : List Text
all_categories = lit "weapon" ∷ lit "armor" ∷ lit "offhand" ∷ lit "accessory" ∷ []

abbrev pub city_markets : List Text
city_markets =
    lit "bridgewatch"
    ∷ lit "martlock"
    ∷ lit "lymhurst"
    ∷ lit "fort_sterling"
    ∷ lit "thetford"
    ∷ lit "caerleon"
    ∷ []

abbrev pub or_default {ℓ} : {A : Type ℓ} → List A → List A → List A
or_default [] defaults = defaults
or_default (x ∷ xs) defaults = x ∷ xs

-- `if n == 0 { n = default }`
abbrev pub non_zero : ℤ → ℤ → ℤ
non_zero n default = if beq_ℤ n (pos 0) then default else n

-- `n < low || n > high`
abbrev pub outside : ℤ → ℕ → ℕ → Bool
outside n low high = lt n (pos low) || lt (pos high) n

abbrev pub is_category : Text → Bool
is_category s = contains s all_categories

abbrev pub all_known : List Text → Bool
all_known [] = true
all_known (s ∷ rest) = is_category s && all_known rest

-- The categories asked for, in order, and whether each of the four is.
pub record Categories : Type 0 where
  pub keys : List Text
  pub weapon : Bool
  pub armor : Bool
  pub offhand : Bool
  pub accessory : Bool

-- `resolvedKeys`: the key of each location.
abbrev pub keys_of : List (ℤ × Text) → List ℤ → List Text
keys_of by [] = []
keys_of by (l ∷ ids) = elim (lookup l by) [ none ↦ [] | some key ↦ key ] ∷ keys_of by ids

module _ (math : Floating) where
  pub record OpportunitiesRequest : Type 0 where
    pub server : Text
    pub purchase_market_keys : List Text
    pub tiers : List ℤ
    pub enchantments : List ℤ
    pub qualities : List ℤ
    pub categories : List Text
    pub minimum_profit : ℤ
    pub minimum_return : math.Float
    pub maximum_city_age : ℤ
    pub maximum_black_market_age : ℤ
    pub sales_tax_rate : Option math.Float
    pub transport_cost : ℤ
    pub sort : Text
    pub limit : ℤ
    pub offset : ℤ

  -- `normalizedOpportunitiesRequest`.
  pub record NormalizedOpportunities : Type 0 where
    pub server : Text
    pub server_id : ℤ
    pub purchase_market_keys : List Text
    pub purchase_location_ids : List ℤ
    pub market_keys_by_location : List (ℤ × Text)
    pub tiers : List ℤ
    pub enchantments : List ℤ
    pub qualities : List ℤ
    pub categories : Categories
    pub minimum_profit : ℤ
    pub minimum_return : math.Float
    pub maximum_city_age : ℤ
    pub maximum_black_market_age : ℤ
    pub sales_tax_rate : math.Float
    pub transport_cost : ℤ
    pub sort : Text
    pub limit : ℤ
    pub offset : ℤ

  -- `math.IsNaN(rate) || math.IsInf(rate, 0) || rate < 0 || rate >= 1`
  abbrev pub bad_rate : math.Float → Bool
  bad_rate rate =
      math.is_nan rate
      || math.is_inf rate
      || math.less rate (math.literal 0)
      || not (math.less rate (math.literal 1))

  abbrev pub bad_percent : math.Float → Bool
  bad_percent percent =
      math.is_nan percent
      || math.is_inf percent
      || math.less percent (math.literal 0)
      || math.less (math.literal 100_000) percent

  abbrev pub rate_of : Option math.Float → math.Float
  rate_of none = math.default_tax
  rate_of (some rate) = rate

  module _ ⦃go : Platform⦄ where
    -- `normalizeUniqueStrings`, from the keys seen on.
    unfoldable pub unique_from : List Text → List Text → List Text
    unfolding contains
    unique_from seen [] = []
    unique_from seen (raw ∷ values) =
        let key = normalize_key raw in
        let skip = is_empty key || contains key seen in
        let rest = unique_from (if skip then seen else key ∷ seen) values in
        if skip then rest else key ∷ rest

    -- `normalizeOpportunityCategories`.
    unfoldable pub normalize_categories : List Text → Result InvalidRequest Categories
    unfolding unique_from
    normalize_categories values = do
      let categories = unique_from [] (or_default values all_categories)
      fail_if (length categories == 0 || ltb 4 (length categories)) bad_categories
      fail_if (not (all_known categories)) bad_categories
      ok (record {
        keys = sort_stable text_lt categories;
        weapon = contains (lit "weapon") categories;
        armor = contains (lit "armor") categories;
        offhand = contains (lit "offhand") categories;
        accessory = contains (lit "accessory") categories;
      })

    -- The key of the order, which defaults to the profit.
    unfoldable pub sort_key : Text → Text
    sort_key raw = let key = to_lower (trim_space raw) in if is_empty key then lit "profit" else key

    abbrev pub is_sort : Text → Bool
    is_sort key =
        text_eq key (lit "profit") || text_eq key (lit "roi") || text_eq key (lit "freshness")

    -- `normalizeOpportunitiesRequest`. `server_failed` stands for the error of a server that the first
    -- test has let through.
    unfoldable pub normalize_opportunities :
        Catalog → OpportunitiesRequest → Result InvalidRequest NormalizedOpportunities
    unfolding normalize_filter normalize_categories sort_key
    normalize_opportunities c req = do
      map_err (λ e. bad_server) (validate_server req.server)
      server_id ← map_err (λ e. bad_server) (map_server req.server)
      let keys = unique_from [] (or_default req.purchase_market_keys city_markets)
      fail_if (length keys == 0 || ltb 7 (length keys)) bad_markets
      resolved ← map_err unresolved (resolve_enabled c keys)
      tiers ← normalize_filter req.tiers all_tiers 4 8 bad_tiers
      enchantments ← normalize_filter req.enchantments all_enchantments 0 4 bad_enchantments
      qualities ← normalize_filter req.qualities all_qualities 1 5 bad_qualities
      categories ← normalize_categories req.categories
      fail_if (outside req.minimum_profit 0 1_000_000_000_000) bad_profit
      fail_if (bad_percent req.minimum_return) bad_return
      let city_age = non_zero req.maximum_city_age (pos 30)
      let black_market_age = non_zero req.maximum_black_market_age (pos 20)
      fail_if (outside city_age 1 10_080) bad_city_age
      fail_if (outside black_market_age 1 10_080) bad_black_market_age
      let rate = rate_of req.sales_tax_rate
      fail_if (bad_rate rate) bad_tax
      fail_if (outside req.transport_cost 0 1_000_000_000_000) bad_transport
      let sort = sort_key req.sort
      fail_if (not (is_sort sort)) bad_sort
      let limit = non_zero req.limit (pos 100)
      fail_if (outside limit 1 500) bad_limit
      fail_if (outside req.offset 0 10_000) bad_offset
      ok (record {
        server = req.server;
        server_id = server_id;
        purchase_market_keys = keys_of resolved.1 resolved.0;
        purchase_location_ids = resolved.0;
        market_keys_by_location = resolved.1;
        tiers = tiers;
        enchantments = enchantments;
        qualities = qualities;
        categories = categories;
        minimum_profit = req.minimum_profit;
        minimum_return = req.minimum_return;
        maximum_city_age = city_age;
        maximum_black_market_age = black_market_age;
        sales_tax_rate = rate;
        transport_cost = req.transport_cost;
        sort = sort;
        limit = limit;
        offset = req.offset;
      })
