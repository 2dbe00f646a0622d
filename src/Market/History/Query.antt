-- ===== src/Market/History/Query.antt =====
-- internal/service/history_service.go: the history query. The repository, and `time.Parse` at
-- the layout 2006-01-02, are arguments.
use albion_market_api.Prelude.{
  ℕ, ◌+◌, ◌-◌, ◌*◌, ◌/◌, ◌^◌, ◌++◌, ◌||◌, if◌then◌else◌, Bool, Option, none, some, List, [], ◌∷◌,
  ◌==◌, ltb, length, Result, ok, err, ◌>>=◌, ◌>>◌, fail_if, map_err,
}
use albion_market_api.Prelude.Int.{ℤ, pos}
use albion_market_api.Int64.{lt}
use albion_market_api.Text.{Text, Platform, is_empty, trim_space, format_int}
use albion_market_api.Clock.{Time, hour, least}
use albion_market_api.Seen.{collect, contains, text_keys}
use albion_market_api.Maps.{lookup, put, location_keys}
use albion_market_api.Sort.{sort_stable}
use albion_market_api.Market.Domain.{
  QueryEntry, QueryError, no_markets, too_many_markets, no_entries, too_many_entries, no_item,
  bad_quality, no_start, no_end, bad_start, bad_end, reversed_range, long_range, unmapped_location,
  repository_failed,
}
use albion_market_api.Market.Catalog.{Catalog, normalize_key, resolve_enabled}
use albion_market_api.Market.Prices.{validate_server, row_before}

pub record HistoryQueryRequest : Type 0 where
  pub server : Text
  pub market_keys : List Text
  pub entries : List QueryEntry
  pub range_start : Text
  pub range_end : Text

pub record MarketHistoryLookup : Type 0 where
  pub server : Text
  pub location_ids : List ℤ
  pub entries : List QueryEntry
  pub range_start : Time
  pub range_end_exclusive : Time

pub record MarketHistoryPoint : Type 0 where
  pub timestamp : Time
  pub item_count : ℤ
  pub average_unit_price : Option ℤ

pub record MarketHistorySeries : Type 0 where
  pub server : Text
  pub market_key : Text
  pub location_id : ℤ
  pub item_key : Text
  pub quality : ℤ
  pub history : List MarketHistoryPoint

pub record HistoryQueryResponse : Type 0 where
  pub requested_at : Time
  pub range_start : Text
  pub range_end : Text
  pub count : ℕ
  pub bucket_count : ℕ
  pub series : List MarketHistorySeries

pub record HistoryRange : Type 0 where
  pub start : Time
  pub end_exclusive : Time
  pub start_text : Text
  pub end_text : Text

abbrev pub day : ℕ
day = 24 * hour

-- `maxHistoryQueryDays`.
abbrev pub max_days : ℕ
max_days = 366

-- `end.Sub(start)`: a `Duration` saturates.
abbrev pub duration_between : Time → Time → ℕ
duration_between start end = least (end - start) (2 ^ 63 - 1)

abbrev pub parsed : (Text → Option Time) → Text → QueryError → Result QueryError Time
parsed parse_date text e = elim (parse_date text) [ none ↦ err e | some t ↦ ok t ]

-- `parseHistoryRange`.
unfoldable pub parse_history_range :
    (Text → Option Time) → Text → Text → Result QueryError HistoryRange
parse_history_range parse_date raw_start raw_end = do
  let start_text = trim_space raw_start
  let end_text = trim_space raw_end
  fail_if (is_empty start_text) no_start
  fail_if (is_empty end_text) no_end
  start ← parsed parse_date start_text bad_start
  end ← parsed parse_date end_text bad_end
  fail_if (ltb end start) reversed_range
  fail_if (ltb max_days (duration_between start end / day + 1)) long_range
  ok (record {
    start = start;
    end_exclusive = end + day;
    start_text = start_text;
    end_text = end_text;
  })

-- `normalizedHistoryQuery`.
pub record HistoryQuery : Type 0 where
  pub looked_up : MarketHistoryLookup
  pub market_order : List (Text × ℕ)
  pub keys_by_location : List (ℤ × Text)
  pub range_start : Text
  pub range_end : Text

-- The labels of the loop of `QueryMarketHistory`, with the number of points.
unfoldable pub label_series :
    MarketHistorySeries → Option Text → Result QueryError MarketHistorySeries
label_series s none = err (unmapped_location s.location_id)
label_series s (some key) = ok (record s { market_key = key })

abbrev pub label_histories :
    List (ℤ × Text) → List MarketHistorySeries → Result QueryError (ℕ × List MarketHistorySeries)
label_histories by [] = ok (0, [])
label_histories by (s ∷ histories) = label_series s (lookup s.location_id by) >>= λ row.
    label_histories by histories >>= λ rest. ok (length s.history + rest.0, row ∷ rest.1)

unfoldable pub series_before : List (Text × ℕ) → MarketHistorySeries → MarketHistorySeries → Bool
unfolding row_before
series_before order s t =
    row_before order s.market_key s.item_key s.quality t.market_key t.item_key t.quality

-- `maxHistoryQueryMarkets` and `maxHistoryQueryEntries`.
abbrev pub max_history_markets : ℕ
max_history_markets = 32

abbrev pub max_history_entries : ℕ
max_history_entries = 2000

-- `fmt.Sprintf("%s\x00%d", itemKey, entry.Quality)`
unfoldable pub history_key : QueryEntry → Text
history_key entry = entry.item_key ++ 0 ∷ format_int entry.quality

module _ ⦃go : Platform⦄ where
  -- An entry with its item key trimmed, or the error.
  unfoldable pub history_entry : ℕ → QueryEntry → Result QueryError QueryEntry
  history_entry i entry =
      let item = trim_space entry.item_key in
      if is_empty item
      then err (no_item i)
      else if lt entry.quality (pos 1) || lt (pos 5) entry.quality
      then err (bad_quality i)
      else ok (record { item_key = item; quality = entry.quality })

  -- The loop that fills `marketOrder`, which grows by one with each new key.
  unfoldable pub history_order : List Text → List (Text × ℕ) → List Text → List (Text × ℕ)
  unfolding contains
  history_order seen order [] = order
  history_order seen order (raw ∷ keys) =
      let key = normalize_key raw in
      let dup = contains key seen in
      history_order (if dup then seen else key ∷ seen)
        (if dup then order else put key (length order) order) keys

  -- `normalizeHistoryQuery`.
  unfoldable pub normalize_history_query :
      (Text → Option Time) → Catalog → HistoryQueryRequest → Result QueryError HistoryQuery
  unfolding collect history_entry history_key history_order
  normalize_history_query parse_date c req = do
    validate_server req.server
    fail_if (length req.market_keys == 0) no_markets
    fail_if (ltb max_history_markets (length req.market_keys)) too_many_markets
    fail_if (length req.entries == 0) no_entries
    fail_if (ltb max_history_entries (length req.entries)) too_many_entries
    resolved ← resolve_enabled c req.market_keys
    entries ← collect history_entry history_key 0 [] req.entries
    range ← parse_history_range parse_date req.range_start req.range_end
    ok (record {
      looked_up = record {
        server = req.server;
        location_ids = resolved.0;
        entries = entries;
        range_start = range.start;
        range_end_exclusive = range.end_exclusive;
      };
      market_order = history_order [] [] req.market_keys;
      keys_by_location = resolved.1;
      range_start = range.start_text;
      range_end = range.end_text;
    })

  -- `QueryMarketHistory`.
  unfoldable pub query_market_history :
      (Text → Option Time)
      → Catalog
      → (MarketHistoryLookup → Result Text (List MarketHistorySeries))
      → Time
      → HistoryQueryRequest
      → Result QueryError HistoryQueryResponse
  query_market_history parse_date c repo now req = do
    query ← normalize_history_query parse_date c req
    histories ← map_err repository_failed (repo query.looked_up)
    labelled ← label_histories query.keys_by_location histories
    ok (record {
      requested_at = now;
      range_start = query.range_start;
      range_end = query.range_end;
      count = length labelled.1;
      bucket_count = labelled.0;
      series = sort_stable (series_before query.market_order) labelled.1;
    })
