-- ===== src/Tests/Histories.antt =====
-- The ingest of histories and the history query at sample data.
use albion_market_api.Prelude.{
  ◌*◌, ◌%◌, arith, ◌≡◌, refl, true, false, Option, none, some, [], ◌∷◌, Result, ok, err,
  if◌then◌else◌,
}
use albion_market_api.Prelude.Int.{pos}
use albion_market_api.Text.{Text, lit, text_eq, is_empty, trim_space, to_lower, utf8}
use albion_market_api.Seen.{contains}
use albion_market_api.Maps.{beq_ℤ, lookup}
use albion_market_api.Clock.{Time}
use albion_market_api.Market.Domain.{QueryError, IngestError, IngestHistoryRequest}
use albion_market_api.Market.Catalog.{
  new_default, resolve_enabled, resolve_key, normalize_key, add_market,
}
use albion_market_api.Market.Prices.{validate_server, check_entry, normalize_price_query}
use albion_market_api.Market.History.{
  is_uuid, check_history, check_bucket, check_average, normalize_history_ingest,
}
use albion_market_api.Market.History.Query.{
  HistoryQueryRequest, HistoryQuery, HistoryRange, day, parse_history_range,
  normalize_history_query,
}
use albion_market_api.Market.History.Ingested.{IsIngest, normalize_history_ingest-IsIngest}
use albion_market_api.Market.History.Ranges.{IsRange, parse_history_range-IsRange}
use albion_market_api.Market.History.Agreement.{prices_of, lookup_of, history_query-price_query}
use albion_market_api.Market.Ingest.{
  PersistenceTiming, IngestHistoryResult, StoreError, ingest_history,
}
use albion_market_api.Market.Ingest.Passed.{ingest_history-passed}
use albion_market_api.Tests.{day_one, ascii}
use albion_market_api.Tests.Prices.{request}

abbrev ingest : IngestHistoryRequest
ingest = record {
  request_id = lit "123e4567-e89b-12d3-a456-426614174000";
  server = lit "east";
  entries =
      record {
        observed_at = day_one;
        location_id = pos 7;
        item_key = lit " T4_BAG ";
        quality = pos 2;
        history =
            record { timestamp = day_one; item_count = pos 3; average_unit_price = some (pos 0) }
            ∷ record { timestamp = day_one; item_count = pos 4; average_unit_price = some (pos 9) }
            ∷ [];
      }
      ∷ [];
}

abbrev ingest_of : Result IngestError IngestHistoryRequest → IngestHistoryRequest
ingest_of (ok r) = r
ingest_of (err e) = record { request_id = []; server = []; entries = [] }

abbrev accepted : IngestHistoryRequest
accepted = ingest_of (normalize_history_ingest ingest)

normalize_history_ingest-IsIngest_example : IsIngest ingest accepted
unfolding normalize_history_ingest is_empty trim_space is_uuid utf8 validate_server check_history
    check_bucket check_average beq_ℤ
normalize_history_ingest-IsIngest_example = normalize_history_ingest-IsIngest ingest accepted refl

-- The first two days of a calendar.
abbrev dates : Text → Option Time
dates s =
    if text_eq s (lit "2024-01-01")
    then some (800_000 * day)
    else if text_eq s (lit "2024-01-02")
    then some (800_001 * day)
    else none

dates-midnights : (s : Text) (t : Time) → dates s ≡ some t → t % day ≡ 0
dates-midnights s t h = ground arith

abbrev range_of : Result QueryError HistoryRange → HistoryRange
range_of (ok r) = r
range_of (err e) = record { start = 0; end_exclusive = 0; start_text = []; end_text = [] }

abbrev range : HistoryRange
range = range_of (parse_history_range dates (lit "2024-01-01 ") (lit "2024-01-02"))

parse_history_range-IsRange_example : IsRange dates (lit "2024-01-01 ") (lit "2024-01-02") range
unfolding parse_history_range is_empty trim_space
parse_history_range-IsRange_example =
    parse_history_range-IsRange dates (lit "2024-01-01 ") (lit "2024-01-02") range dates-midnights
      refl

abbrev history_request : HistoryQueryRequest
history_request = record {
  server = request.server;
  market_keys = request.market_keys;
  entries = request.entries;
  range_start = lit "2024-01-01 ";
  range_end = lit "2024-01-02";
}

abbrev history_of : Result QueryError HistoryQuery → HistoryQuery
history_of (ok q) = q
history_of (err e) = record {
  looked_up = record {
    server = [];
    location_ids = [];
    entries = [];
    range_start = 0;
    range_end_exclusive = 0;
  };
  market_order = [];
  keys_by_location = [];
  range_start = [];
  range_end = [];
}

abbrev history : HistoryQuery
history = history_of (normalize_history_query dates new_default history_request)

history_query-price_query_example :
    (normalize_price_query new_default (prices_of history_request) ≡ ok (lookup_of history))
    × (range : HistoryRange) × (parse_history_range dates history_request.range_start
          history_request.range_end
        ≡ ok range)
    × (history.looked_up.range_start ≡ range.start)
    × (history.looked_up.range_end_exclusive ≡ range.end_exclusive)
unfolding normalize_history_query validate_server resolve_enabled resolve_key is_empty normalize_key
    to_lower trim_space add_market lookup check_entry parse_history_range contains
history_query-price_query_example =
    history_query-price_query dates new_default history_request history refl

abbrev timing : PersistenceTiming
timing = record {
  transaction = pos 5;
  commit = pos 1;
  transaction_measured = true;
  commit_measured = true;
}

abbrev touched : IngestHistoryResult
touched = record {
  accepted_entries = pos 1;
  accepted_buckets = pos 2;
  history_rows_touched = pos 2;
  duplicate = false;
  timing = timing;
}

ingest_history-passed_example :
    (out : IngestHistoryRequest) × IsIngest ingest out
    × (◌≡◌ {A = Result StoreError IngestHistoryResult} (ok touched) (ok touched))
    × (ingest.request_id ≡ out.request_id)
unfolding ingest_history normalize_history_ingest is_empty trim_space is_uuid utf8 validate_server
    check_history check_bucket check_average beq_ℤ
ingest_history-passed_example =
    ingest_history-passed (λ out. ok touched) ingest
      (record { request_id = ingest.request_id; result = touched }) refl
