-- ===== src/Tests/Prices.antt =====
-- The market catalog and the price query at sample data.
use albion_market_api.Prelude.{
  some, ◌≡◌, refl, inl, inr, none, List, [], ◌∷◌, map, All, length, Result, ok, err,
}
use mathlib.Core.List.{Perm}
use albion_market_api.Prelude.Int.{ℤ, pos}
use albion_market_api.Text.{Text, lit, is_empty, to_lower, trim_space}
use albion_market_api.Seen.{contains}
use albion_market_api.Maps.{lookup}
use albion_market_api.Market.Domain.{
  PriceQueryRequest, CurrentPriceLookup, CurrentPrice, QueryError,
}
use albion_market_api.Sort.Laws.{IsSorted}
use albion_market_api.Market.Catalog.{
  resolve_key, add_market, new_default, normalize_key, resolve_enabled,
}
use albion_market_api.Market.Catalog.Locations.{Resolves, resolve_enabled-Resolves}
use albion_market_api.Market.Prices.{
  validate_server, check_entry, PriceQuery, normalize_price_query, price_before,
  query_current_prices,
}
use albion_market_api.Market.Prices.Answers.{IsNormal, normalize_price_query-IsNormal}
use albion_market_api.Market.Prices.Rows.{labelled, OfMarket, query_current_prices-answers}
use albion_market_api.Tests.{day_one, ascii}

abbrev keys : List Text
keys = lit " Martlock" ∷ lit "thetford" ∷ lit "martlock" ∷ []

abbrev locations : List ℤ × List (ℤ × Text)
locations = (pos 3008 ∷ pos 7 ∷ [], (pos 7, lit "thetford") ∷ (pos 3008, lit "martlock") ∷ [])

abbrev pub request : PriceQueryRequest
request = record {
  server = lit "west";
  market_keys = keys;
  entries =
      record { item_key = lit " T4_BAG"; quality = pos 1 }
      ∷ record { item_key = lit "T4_BAG"; quality = pos 1 }
      ∷ [];
}

abbrev query_of : Result QueryError PriceQuery → PriceQuery
query_of (ok q) = q
query_of (err e) = record {
  looked_up = record { server = []; location_ids = []; entries = [] };
  market_order = [];
  keys_by_location = [];
}

abbrev pub query : PriceQuery
query = query_of (normalize_price_query new_default request)

abbrev price : ℤ → CurrentPrice
price location = record {
  server = lit "west";
  market_key = [];
  location_id = location;
  item_key = lit "T4_BAG";
  quality = pos 1;
  sell_price_min = none;
  sell_price_min_at = none;
  buy_price_max = none;
  buy_price_max_at = none;
  updated_at = day_one;
  history_observations = pos 0;
  history_volume = pos 0;
  median_price = none;
}

abbrev rows : List CurrentPrice
rows = price (pos 7) ∷ price (pos 3008) ∷ []

abbrev repository : CurrentPriceLookup → Result Text (List CurrentPrice)
repository l = ok rows

resolve_enabled-Resolves_example : Resolves new_default keys locations.0 locations.1
unfolding resolve_enabled resolve_key is_empty normalize_key to_lower trim_space contains add_market
    lookup
resolve_enabled-Resolves_example =
    resolve_enabled-Resolves new_default keys locations.0 locations.1 refl

normalize_price_query-IsNormal_example : IsNormal new_default request query
unfolding normalize_price_query validate_server resolve_enabled resolve_key is_empty normalize_key
    to_lower trim_space add_market lookup check_entry
normalize_price_query-IsNormal_example =
    normalize_price_query-IsNormal new_default request query refl

query_current_prices-answers_example :
    (found : List CurrentPrice) × (query_current_prices new_default
        (some repository)
        (λ l. ok [])
        day_one
        request
      ≡ ok (record { requested_at = day_one; count = length rows; prices = found }))
    × IsSorted (price_before query.market_order) found
    × Perm found (map (labelled query.keys_by_location) rows)
    × All (OfMarket new_default request.market_keys) (map (labelled query.keys_by_location) rows)
unfolding normalize_price_query validate_server resolve_enabled resolve_key is_empty normalize_key
    to_lower trim_space add_market lookup check_entry
query_current_prices-answers_example =
    query_current_prices-answers new_default (some repository) (λ l. ok []) day_one request query
      rows refl refl (inr (inl refl), (inl refl, tt))
