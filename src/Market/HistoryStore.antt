-- ===== src/Market/HistoryStore.antt =====
-- internal/repository/history_repository.go: the tables of the ingest of histories and
-- `IngestHistory`, with `rawHistoryCopySource`, `existingHistoryIngestResult` and `upsertHistory`.
pub mod Proposed
pub mod View
pub mod Served
pub mod Read
use albion_market_api.Prelude.{
  ℕ, zero, suc, ◌+◌, Bool, true, false, not, ◌&&◌, ◌||◌, Option, none, some, List, [], ◌∷◌, ◌++◌,
  ◌==◌, ltb, length, get_elem?, if◌then◌else◌, Result, ok, err, ◌>>=◌, ◌>>◌, fail_if, map_err,
}
use albion_market_api.Prelude.Int.{ℤ, pos}
use albion_market_api.Text.{Text, lit, text_eq}
use albion_market_api.Clock.{Time}
use albion_market_api.Seen.{text_keys}
use albion_market_api.Sql.{select_first}
use albion_market_api.Sql.Upsert.{find_by, group_keys, upsert_all}
use albion_market_api.Market.Domain.{HistoryBucketIngest, HistoryIngest, IngestHistoryRequest}
use albion_market_api.Market.Ingest.{
  IngestHistoryResult, StoreError, store_failed, request_already_processing,
  request_payload_conflict,
}
use albion_market_api.Market.Latest.{Dated, is_change, comes_first, is_dated_at}
use albion_market_api.Market.Buckets.{Measure, measures, BucketKey, bucket_keys}
use albion_market_api.Market.HistorySource.{count_buckets, bucket_source, drain_buckets}
use albion_market_api.Market.Server.{
  map_server, equal_hashes, RequestStatus, processing, completed, begin_tx, register, read_existing,
  copy_rows, upsert_rows, complete, commit_tx, Call, run, Codec, timing_of, committed_timing,
}

-- market_history_ingest_requests.
pub record HistoryRequest : Type 0 where
  pub request_id : Text
  pub request_sha256 : List ℕ
  pub server : ℤ
  pub accepted_entries : ℤ
  pub accepted_buckets : ℤ
  pub history_rows_touched : ℤ
  pub status : RequestStatus
  pub created_at : Time
  pub completed_at : Option Time

-- market_history_ingest_raw.
pub record RawBucket : Type 0 where
  pub id : ℕ
  pub request_id : Text
  pub received_at : Time
  pub key : BucketKey
  pub observed_at : Time
  pub measure : Measure

-- market_history_buckets.
pub record BucketRow : Type 0 where
  pub key : BucketKey
  pub measure : Measure
  pub observed_at : Time
  pub updated_at : Time

pub record HistoryStore : Type 0 where
  pub requests : List HistoryRequest
  pub raw : List RawBucket
  pub next_id : ℕ
  pub buckets : List BucketRow

-- The rows of the raw table, with the ids of its sequence.
unfoldable pub raw_buckets :
    Time → Text → ℤ → ℕ → List (HistoryIngest × HistoryBucketIngest) → List RawBucket
raw_buckets now request server id [] = []
raw_buckets now request server id (row ∷ rows) =
    record {
      id = id;
      request_id = request;
      received_at = now;
      key = record {
        server = server;
        location_id = row.0.location_id;
        item_key = row.0.item_key;
        quality = row.0.quality;
        bucket_at = row.1.timestamp;
      };
      observed_at = row.0.observed_at;
      measure = record {
        item_count = row.1.item_count;
        average_unit_price = row.1.average_unit_price;
      };
    }
    ∷ raw_buckets now request server (suc id) rows

-- `request_rows`.
unfoldable pub buckets_of_request : Text → List RawBucket → List RawBucket
buckets_of_request request [] = []
buckets_of_request request (r ∷ rows) =
    let rest = buckets_of_request request rows in
    if text_eq r.request_id request then r ∷ rest else rest

-- A capture: what was measured, and when it was observed.
abbrev pub raw_capture : RawBucket → Dated Measure
raw_capture r = record { value = r.measure; at = some r.observed_at }

abbrev pub capture : BucketRow → Dated Measure
capture r = record { value = r.measure; at = some r.observed_at }

-- `latest_buckets`: of each key the row that comes first, with the date of the upsert.
unfoldable pub newest_bucket : List RawBucket → BucketKey → Option RawBucket
newest_bucket rows k =
    select_first (comes_first raw_capture (λ r. r.observed_at) (λ r. r.id))
      (is_dated_at (λ r. r.key) raw_capture k) rows

abbrev pub bucket_row : Time → RawBucket → BucketRow
bucket_row now r = record {
  key = r.key;
  measure = r.measure;
  observed_at = r.observed_at;
  updated_at = now;
}

abbrev pub with_row : Time → Option RawBucket → List BucketRow → List BucketRow
with_row now none rest = rest
with_row now (some r) rest = bucket_row now r ∷ rest

unfoldable pub latest_buckets : Time → List RawBucket → List BucketKey → List BucketRow
unfolding newest_bucket
latest_buckets now rows [] = []
latest_buckets now rows (k ∷ keys) =
    with_row now (newest_bucket rows k) (latest_buckets now rows keys)

-- The `where` of `upsertHistory`, and its `set`.
unfoldable pub is_newer_bucket : BucketRow → BucketRow → Bool
is_newer_bucket excluded stored = is_change (capture excluded) (capture stored)

unfoldable pub replace_bucket : BucketRow → BucketRow → BucketRow
replace_bucket excluded stored = record {
  key = stored.key;
  measure = excluded.measure;
  observed_at = excluded.observed_at;
  updated_at = excluded.updated_at;
}

-- `upsertHistory`: the rows affected, and the table.
unfoldable pub upsert_history : Time → Text → List RawBucket → List BucketRow → ℕ × List BucketRow
unfolding latest_buckets is_newer_bucket replace_bucket
upsert_history now request raw buckets =
    let rows = buckets_of_request request raw in
    upsert_all (λ r. r.key) is_newer_bucket replace_bucket
      (latest_buckets now rows (group_keys (λ r. r.key) rows)) buckets

-- `completeRequest`.
unfoldable pub complete_history : Time → Text → ℕ → List HistoryRequest → List HistoryRequest
complete_history now request touched [] = []
complete_history now request touched (r ∷ rows) =
    let rest = complete_history now request touched rows in
    if text_eq r.request_id request
    then record r {
      status = completed;
      history_rows_touched = pos touched;
      completed_at = some now;
    }
      ∷ rest
    else r ∷ rest

-- `existingHistoryIngestResult`, of the row that its query returns.
unfoldable pub existing_history_result :
    List ℕ → HistoryRequest → Call → Result StoreError IngestHistoryResult
existing_history_result expected r call =
    if not (equal_hashes r.request_sha256 expected)
    then err request_payload_conflict
    else elim r.status [
      | processing ↦ err request_already_processing
      | completed ↦ ok (record {
        accepted_entries = r.accepted_entries;
        accepted_buckets = r.accepted_buckets;
        history_rows_touched = r.history_rows_touched;
        duplicate = true;
        timing = timing_of call;
      })
    ]

-- What follows the registration of a new request, in its transaction.
unfoldable pub store_new_history :
    Call
    → Text
    → ℤ
    → List ℕ
    → List HistoryIngest
    → HistoryStore
    → Result StoreError (IngestHistoryResult × HistoryStore)
unfolding raw_buckets upsert_history complete_history
store_new_history call request server hash entries store = do
  copied ← drain_buckets (suc (count_buckets entries)) (bucket_source entries)
  run call copy_rows
  fail_if (not (length copied == count_buckets entries))
      (store_failed (lit "copied another number of rows"))
  let raw = store.raw ++ raw_buckets call.now request server store.next_id copied
  let upserted = upsert_history call.now request raw store.buckets
  let registered : HistoryRequest = record {
    request_id = request;
    request_sha256 = hash;
    server = server;
    accepted_entries = pos (length entries);
    accepted_buckets = pos (count_buckets entries);
    history_rows_touched = pos 0;
    status = processing;
    created_at = call.now;
    completed_at = none;
  }
  run call upsert_rows
  run call complete
  run call commit_tx
  ok (
    record {
      accepted_entries = pos (length entries);
      accepted_buckets = pos (count_buckets entries);
      history_rows_touched = pos upserted.0;
      duplicate = false;
      timing = committed_timing call;
    },
    record {
      requests = complete_history call.now request upserted.0 (store.requests ++ registered ∷ []);
      raw = raw;
      next_id = store.next_id + length copied;
      buckets = upserted.1;
    },
  )

-- `IngestHistory` of the repository: the result and the store, or an error and the store as it was.
unfoldable pub store_history :
    Codec
    → Call
    → HistoryStore
    → IngestHistoryRequest
    → Result StoreError (IngestHistoryResult × HistoryStore)
unfolding existing_history_result store_new_history
store_history codec call store req = do
  server ← map_server req.server
  hash ← map_err store_failed (codec.history_hash req)
  request ← map_err store_failed (codec.scan_uuid req.request_id)
  run call begin_tx
  run call register
  elim (find_by (λ r. r.request_id) request store.requests) [
    | none ↦ store_new_history call request server hash req.entries store
    | some existing ↦
        run call read_existing >> existing_history_result hash existing call >>= λ result.
        ok (result, store)
  ]

-- A store after a sequence of ingests; one that fails leaves it as it was.
abbrev pub history_left_by :
    HistoryStore → Result StoreError (IngestHistoryResult × HistoryStore) → HistoryStore
history_left_by store (ok answer) = answer.1
history_left_by store (err e) = store

unfoldable pub serve_history :
    Codec → List (Call × IngestHistoryRequest) → HistoryStore → HistoryStore
unfolding store_history
serve_history codec [] store = store
serve_history codec (step ∷ steps) store =
    serve_history codec steps (history_left_by store (store_history codec step.0 store step.1))

abbrev pub empty_history : HistoryStore
empty_history = record { requests = []; raw = []; next_id = 1; buckets = [] }
