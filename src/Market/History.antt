-- ===== src/Market/History.antt =====
-- internal/service/history_service.go: the normalization of an ingest of market histories. (The
-- query stands in Market/History/Query.)
pub mod Query
pub mod Ingested
pub mod Ranges
pub mod Agreement
use albion_market_api.Prelude.{
  ℕ, suc, ◌+◌, ◌-◌, ◌≡◌, Bool, true, false, not, ◌&&◌, ◌||◌, Option, none, some, List, [], ◌∷◌,
  ◌++◌, ◌==◌, ltb, leb, length, get_elem?, take, drop, if◌then◌else◌, Result, ok, err, ◌>>=◌, ◌>>◌,
  fail_if, map_err,
}
use albion_market_api.Prelude.Int.{ℤ, pos}
use albion_market_api.Int64.{lt, le}
use albion_market_api.Text.{Text, is_empty, trim_space, utf8}
use albion_market_api.Clock.{Time, zero_time}
use albion_market_api.Maps.{beq_ℤ}
use albion_market_api.Market.Domain.{
  HistoryBucketIngest, HistoryIngest, IngestHistoryRequest, IngestError, no_request_id,
  bad_request_id, no_histories, too_many_histories, too_many_buckets, invalid_server,
  no_observed_at, bad_location, no_item_key, bad_item_quality, no_history, no_timestamp,
  negative_count, negative_price,
}
use albion_market_api.Market.Prices.{validate_server}

abbrev pub max_histories : ℕ
max_histories = 2000

abbrev pub max_buckets : ℕ
max_buckets = 100000

-- The bytes that `hex.Decode` accepts.
abbrev pub is_hex : ℕ → Bool
is_hex b = (leb b'0' b && leb b b'9') || (leb b'a' b && leb b b'f') || (leb b'A' b && leb b b'F')

abbrev pub all_hex : List ℕ → Bool
all_hex [] = true
all_hex (b ∷ bs) = is_hex b && all_hex bs

abbrev pub is_dash : Option ℕ → Bool
is_dash none = false
is_dash (some b) = b == b'-'

-- `value[from:to]`
abbrev pub slice : ℕ → ℕ → List ℕ → List ℕ
slice from to bytes = take (to - from) (drop from bytes)

-- `isUUID`.
unfoldable pub is_uuid : Text → Bool
is_uuid value =
    let b = utf8 value in
    if length b == 36
    then is_dash (get_elem? b 8)
      && is_dash (get_elem? b 13)
      && is_dash (get_elem? b 18)
      && is_dash (get_elem? b 23)
      && all_hex (slice 0 8 b ++ slice 9 13 b ++ slice 14 18 b ++ slice 19 23 b ++ slice 24 36 b)
    else length b == 32 && all_hex b

-- `bucket.AverageUnitPrice`: an error if it is negative, and `nil` for zero.
unfoldable pub check_average : ℕ → ℕ → Option ℤ → Result IngestError (Option ℤ)
check_average i j none = ok none
check_average i j (some price) =
    if lt price (pos 0)
    then err (negative_price i j)
    else if beq_ℤ price (pos 0)
    then ok none
    else ok (some price)

-- The body of the loop over the buckets.
unfoldable pub check_bucket : ℕ → ℕ → HistoryBucketIngest → Result IngestError HistoryBucketIngest
check_bucket i j b = do
  fail_if (b.timestamp == zero_time) (no_timestamp i j)
  fail_if (lt b.item_count (pos 0)) (negative_count i j)
  average ← check_average i j b.average_unit_price
  ok (record b { average_unit_price = average })

abbrev pub check_buckets :
    ℕ → ℕ → List HistoryBucketIngest → Result IngestError (List HistoryBucketIngest)
check_buckets i j [] = ok []
check_buckets i j (b ∷ buckets) =
    check_bucket i j b >>= λ c. check_buckets i (suc j) buckets >>= λ cs. ok (c ∷ cs)

-- The body of the loop over the entries; `total` is `totalBuckets` before it.
unfoldable pub check_history : ℕ → ℕ → HistoryIngest → Result IngestError HistoryIngest
check_history i total entry = do
  let item = trim_space entry.item_key
  fail_if (entry.observed_at == zero_time) (no_observed_at i)
  fail_if (le entry.location_id (pos 0)) (bad_location i)
  fail_if (is_empty item) (no_item_key i)
  fail_if (lt entry.quality (pos 1) || lt (pos 5) entry.quality) (bad_item_quality i)
  fail_if (length entry.history == 0) (no_history i)
  fail_if (ltb max_buckets (total + length entry.history)) too_many_buckets
  buckets ← check_buckets i 0 entry.history
  ok (record entry { item_key = item; history = buckets })

abbrev pub check_histories : ℕ → ℕ → List HistoryIngest → Result IngestError (List HistoryIngest)
check_histories i total [] = ok []
check_histories i total (entry ∷ entries) = check_history i total entry >>= λ c.
    check_histories (suc i) (total + length entry.history) entries >>= λ cs. ok (c ∷ cs)

-- `normalizeHistoryIngestRequest`.
unfoldable pub normalize_history_ingest :
    IngestHistoryRequest → Result IngestError IngestHistoryRequest
normalize_history_ingest req = do
  let id = trim_space req.request_id
  fail_if (is_empty id) no_request_id
  fail_if (not (is_uuid id)) bad_request_id
  map_err invalid_server (validate_server req.server)
  fail_if (length req.entries == 0) no_histories
  fail_if (ltb max_histories (length req.entries)) too_many_histories
  entries ← check_histories 0 0 req.entries
  ok (record { request_id = id; server = req.server; entries = entries })
