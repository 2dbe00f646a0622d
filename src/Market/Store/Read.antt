-- ===== src/Market/Store/Read.antt =====
-- `QueryCurrentPrices` of internal/repository/market_repository.go: the select and the loop over its
-- rows. The collation of the database orders the item keys.
pub mod Rows
use albion_market_api.Prelude.{
  ℕ, ◌≡◌, refl, inl, inr, Bool, true, false, not, ◌&&◌, ◌||◌, none, some, List, [], ◌∷◌, map, ◌==◌,
  length, if◌then◌else◌, arith, In, All, All-map, All-In, Result, ok, err, ◌>>=◌, >>=-eq-ok,
  Bool-cases, In-map,
}
use mathlib.Core.List.{Perm}
use mathlib.Core.List.Perm
use albion_market_api.Prelude.Int.{ℤ, pos}
use albion_market_api.Int64.{lt}
use albion_market_api.Text.{Text, text_eq}
use albion_market_api.Text.Equality.{text_eq_iff}
use albion_market_api.Maps.{beq_ℤ, beq_ℤ_iff}
use albion_market_api.Sort.{sort_stable}
use albion_market_api.Sort.Laws.{sort_stable-perm}
use albion_market_api.Market.Domain.{QueryEntry, CurrentPriceLookup, CurrentPrice}
use albion_market_api.Market.Ingest.{StoreError}
use albion_market_api.Market.Server.{map_server, unmap_server, unmap_server-map_server, PriceKey}
use albion_market_api.Market.Store.{PriceRow, PriceStore}

-- `location_id = any($2)`
unfoldable pub is_any : ℤ → List ℤ → Bool
is_any l [] = false
is_any l (m ∷ ids) = beq_ℤ l m || is_any l ids

-- `(item_key, quality) in (select * from unnest($3, $4))`
unfoldable pub is_asked : Text → ℤ → List QueryEntry → Bool
is_asked item quality [] = false
is_asked item quality (e ∷ entries) =
    (text_eq item e.item_key && beq_ℤ quality e.quality) || is_asked item quality entries

-- The `where` clause.
unfoldable pub is_selected : ℤ → CurrentPriceLookup → PriceRow → Bool
unfolding is_any is_asked
is_selected server l r =
    beq_ℤ r.key.server server
    && is_any r.key.location_id l.location_ids
    && is_asked r.key.item_key r.key.quality l.entries

unfoldable pub select_prices : ℤ → CurrentPriceLookup → List PriceRow → List PriceRow
select_prices server l [] = []
select_prices server l (r ∷ rows) =
    let rest = select_prices server l rows in if is_selected server l r then r ∷ rest else rest

-- `order by location_id, item_key, quality`
unfoldable pub key_before : (Text → Text → Bool) → PriceKey → PriceKey → Bool
key_before collation a b =
    lt a.location_id b.location_id
    || (beq_ℤ a.location_id b.location_id
        && (collation a.item_key b.item_key
            || (text_eq a.item_key b.item_key && lt a.quality b.quality)))

-- A row scanned, with the fields that the loop leaves at their zero values.
unfoldable pub scan_price : PriceRow → CurrentPrice
scan_price r = record {
  server = unmap_server r.key.server;
  market_key = [];
  location_id = r.key.location_id;
  item_key = r.key.item_key;
  quality = r.key.quality;
  sell_price_min = r.sell.value;
  sell_price_min_at = r.sell.at;
  buy_price_max = r.buy.value;
  buy_price_max_at = r.buy.at;
  updated_at = r.updated_at;
  history_observations = pos 0;
  history_volume = pos 0;
  median_price = none;
}

-- `QueryCurrentPrices` of the repository; `answered` tells whether the query and the scan of its rows
-- succeed.
unfoldable pub read_prices :
    (Text → Text → Bool)
    → Result StoreError (Unit {0})
    → PriceStore
    → CurrentPriceLookup
    → Result StoreError (List CurrentPrice)
unfolding select_prices key_before scan_price
read_prices collation answered store l = map_server l.server >>= λ server.
    if length l.location_ids == 0 || length l.entries == 0
    then ok []
    else answered >>= λ x. ok (
        map scan_price (
          sort_stable (λ r s. key_before collation r.key s.key)
            (select_prices server l store.current)))
