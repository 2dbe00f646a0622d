-- ===== src/Market/HistoryStore/Read.antt =====
-- `QueryMarketHistory` of internal/repository/history_repository.go: the select, and the loop that
-- gathers its rows into series. The collation of the database orders the item keys.
pub mod Gathered
use albion_market_api.Prelude.{
  ℕ, ◌≡◌, ◌≢◌, refl, sym, ap, ◌∙◌, ◌⊎◌, inl, inr, Bool, true, false, not, ◌&&◌, ◌||◌, Option, List,
  [], ◌∷◌, ◌++◌, map, ◌==◌, leb, ltb, length, if◌then◌else◌, arith, All, Result, ok, ◌>>=◌,
  Bool-cases,
}
use albion_market_api.Prelude.Int.{ℤ}
use albion_market_api.Int64.{lt}
use albion_market_api.Text.{Text, text_eq}
use albion_market_api.Text.Equality.{text_eq_iff}
use albion_market_api.Clock.{Time}
use albion_market_api.Maps.{beq_ℤ, beq_ℤ_iff}
use albion_market_api.Sort.{sort_stable}
use albion_market_api.Market.Ingest.{StoreError}
use albion_market_api.Market.History.Query.{
  MarketHistoryLookup, MarketHistoryPoint, MarketHistorySeries,
}
use albion_market_api.Market.Server.{map_server, unmap_server}
use albion_market_api.Market.Buckets.{BucketKey}
use albion_market_api.Market.Store.Read.{is_any, is_asked}
use albion_market_api.Market.HistoryStore.{BucketRow, HistoryStore}

-- The `where` clause.
unfoldable pub is_bucket_selected : ℤ → MarketHistoryLookup → BucketRow → Bool
unfolding is_any is_asked
is_bucket_selected server l r =
    beq_ℤ r.key.server server
    && is_any r.key.location_id l.location_ids
    && is_asked r.key.item_key r.key.quality l.entries
    && leb l.range_start r.key.bucket_at
    && ltb r.key.bucket_at l.range_end_exclusive

unfoldable pub select_buckets : ℤ → MarketHistoryLookup → List BucketRow → List BucketRow
select_buckets server l [] = []
select_buckets server l (r ∷ rows) =
    let rest = select_buckets server l rows in
    if is_bucket_selected server l r then r ∷ rest else rest

-- `order by location_id, item_key, quality, bucket_at`
unfoldable pub bucket_before : (Text → Text → Bool) → BucketKey → BucketKey → Bool
bucket_before collation a b =
    lt a.location_id b.location_id
    || (beq_ℤ a.location_id b.location_id
        && (collation a.item_key b.item_key
            || (text_eq a.item_key b.item_key
                && (lt a.quality b.quality
                    || (beq_ℤ a.quality b.quality && ltb a.bucket_at b.bucket_at)))))

abbrev pub point_of : BucketRow → MarketHistoryPoint
point_of r = record {
  timestamp = r.key.bucket_at;
  item_count = r.measure.item_count;
  average_unit_price = r.measure.average_unit_price;
}

-- A new series, with the point that follows.
abbrev pub series_of : BucketRow → MarketHistorySeries
series_of r = record {
  server = unmap_server r.key.server;
  market_key = [];
  location_id = r.key.location_id;
  item_key = r.key.item_key;
  quality = r.key.quality;
  history = point_of r ∷ [];
}

-- The comparison with the last series; what stands in its negation in the source.
unfoldable pub belongs : MarketHistorySeries → BucketRow → Bool
belongs s r =
    beq_ℤ s.location_id r.key.location_id
    && text_eq s.item_key r.key.item_key
    && beq_ℤ s.quality r.key.quality

-- One turn of the loop: the row goes to the last series, or opens a new one behind it.
unfoldable pub add_row : List MarketHistorySeries → BucketRow → List MarketHistorySeries
add_row [] r = series_of r ∷ []
add_row (s ∷ []) r =
    if belongs s r
    then record s { history = s.history ++ point_of r ∷ [] } ∷ []
    else s ∷ series_of r ∷ []
add_row (s ∷ t ∷ rest) r = s ∷ add_row (t ∷ rest) r

unfoldable pub gather : List MarketHistorySeries → List BucketRow → List MarketHistorySeries
unfolding add_row
gather histories [] = histories
gather histories (r ∷ rows) = gather (add_row histories r) rows

-- `QueryMarketHistory` of the repository.
unfoldable pub read_history :
    (Text → Text → Bool)
    → HistoryStore
    → MarketHistoryLookup
    → Result StoreError (List MarketHistorySeries)
unfolding select_buckets bucket_before gather
read_history collation store l = map_server l.server >>= λ server.
    if length l.location_ids == 0 || length l.entries == 0
    then ok []
    else ok (
        gather [] (
          sort_stable (λ r s. bucket_before collation r.key s.key)
            (select_buckets server l store.buckets)))
