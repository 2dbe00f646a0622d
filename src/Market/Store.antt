-- ===== src/Market/Store.antt =====
-- internal/repository/market_repository.go: the tables of the price ingest and `IngestPrices`, with
-- `existingIngestResult` and the statement `upsertCurrent`.
pub mod Copy
pub mod View
pub mod Replay
pub mod Ledger
pub mod Served
pub mod Repeated
pub mod Busy
pub mod Read
use albion_market_api.Prelude.{
  ℕ, zero, suc, ◌+◌, ◌-◌, Bool, true, false, not, ◌&&◌, ◌||◌, Option, none, some, List, [], ◌∷◌,
  ◌++◌, map, ◌==◌, ltb, leb, length, get_elem?, if◌then◌else◌, Result, ok, err, ◌>>=◌, ◌>>◌,
  fail_if, map_err,
}
use albion_market_api.Prelude.Int.{ℤ, pos}
use albion_market_api.Text.{Text, lit, text_eq}
use albion_market_api.Clock.{Time}
use albion_market_api.Seen.{text_keys}
use albion_market_api.Sql.Upsert.{find_by, group_keys, upsert_all}
use albion_market_api.Market.Ingest.{
  PriceIngest, IngestPricesRequest, IngestPricesResult, StoreError, store_failed,
  request_already_processing, request_payload_conflict,
}
use albion_market_api.Market.Latest.{Dated, newest, is_change, latest}
use albion_market_api.Market.PriceSource.{drain}
use albion_market_api.Market.Server.{
  map_server, equal_hashes, RequestStatus, processing, completed, Statement, begin_tx, register,
  read_existing, copy_rows, upsert_rows, complete, commit_tx, Call, run, Codec, timing_of,
  committed_timing, PriceKey, price_keys, price_values,
}

-- market_ingest_requests.
pub record IngestRequest : Type 0 where
  pub request_id : Text
  pub request_sha256 : List ℕ
  pub server : ℤ
  pub accepted_count : ℤ
  pub current_rows_touched : ℤ
  pub status : RequestStatus
  pub created_at : Time
  pub completed_at : Option Time

-- market_ingest_raw. A price stands with its date.
pub record RawPrice : Type 0 where
  pub id : ℕ
  pub request_id : Text
  pub received_at : Time
  pub key : PriceKey
  pub observed_at : Time
  pub sell : Dated (Option ℤ)
  pub buy : Dated (Option ℤ)

-- current_market_prices.
pub record PriceRow : Type 0 where
  pub key : PriceKey
  pub sell : Dated (Option ℤ)
  pub buy : Dated (Option ℤ)
  pub updated_at : Time

pub record PriceStore : Type 0 where
  pub requests : List IngestRequest
  pub raw : List RawPrice
  pub next_id : ℕ
  pub current : List PriceRow

-- The rows of the raw table for the entries that the source gave, with the ids of its sequence.
unfoldable pub raw_rows : Time → Text → ℤ → ℕ → List PriceIngest → List RawPrice
raw_rows now request server id [] = []
raw_rows now request server id (entry ∷ entries) =
    record {
      id = id;
      request_id = request;
      received_at = now;
      key = record {
        server = server;
        location_id = entry.location_id;
        item_key = entry.item_key;
        quality = entry.quality;
      };
      observed_at = entry.observed_at;
      sell = record { value = entry.sell_price_min; at = entry.sell_price_min_at };
      buy = record { value = entry.buy_price_max; at = entry.buy_price_max_at };
    }
    ∷ raw_rows now request server (suc id) entries

-- `request_rows`.
unfoldable pub rows_of_request : Text → List RawPrice → List RawPrice
rows_of_request request [] = []
rows_of_request request (r ∷ rows) =
    let rest = rows_of_request request rows in
    if text_eq r.request_id request then r ∷ rest else rest

-- The select of `upsertCurrent`, for one of `request_keys`, over `request_rows`.
unfoldable pub proposal : Time → List RawPrice → PriceKey → PriceRow
proposal now rows k = record {
  key = k;
  sell = latest (λ r. r.key) (λ r. r.sell) (λ r. r.observed_at) (λ r. r.id) none k rows;
  buy = latest (λ r. r.key) (λ r. r.buy) (λ r. r.observed_at) (λ r. r.id) none k rows;
  updated_at = now;
}

-- Its `where`, and its `set`.
unfoldable pub is_touched : PriceRow → PriceRow → Bool
is_touched excluded stored =
    is_change excluded.sell stored.sell || is_change excluded.buy stored.buy

unfoldable pub merge_price : PriceRow → PriceRow → PriceRow
merge_price excluded stored = record {
  key = stored.key;
  sell = newest excluded.sell stored.sell;
  buy = newest excluded.buy stored.buy;
  updated_at = excluded.updated_at;
}

-- `upsertCurrent`: the rows affected, and the table.
unfoldable pub upsert_current : Time → Text → List RawPrice → List PriceRow → ℕ × List PriceRow
unfolding proposal is_touched merge_price
upsert_current now request raw current =
    let rows = rows_of_request request raw in
    upsert_all (λ r. r.key) is_touched merge_price
      (map (proposal now rows) (group_keys (λ r. r.key) rows)) current

-- `completeRequest`.
unfoldable pub complete_request : Time → Text → ℕ → List IngestRequest → List IngestRequest
complete_request now request touched [] = []
complete_request now request touched (r ∷ rows) =
    let rest = complete_request now request touched rows in
    if text_eq r.request_id request
    then record r {
      status = completed;
      current_rows_touched = pos touched;
      completed_at = some now;
    }
      ∷ rest
    else r ∷ rest

-- `existingIngestResult`, of the row that its query returns.
unfoldable pub existing_result :
    List ℕ → IngestRequest → Call → Result StoreError IngestPricesResult
existing_result expected r call =
    if not (equal_hashes r.request_sha256 expected)
    then err request_payload_conflict
    else elim r.status [
      | processing ↦ err request_already_processing
      | completed ↦ ok (record {
        accepted = r.accepted_count;
        current_rows_touched = r.current_rows_touched;
        duplicate = true;
        timing = timing_of call;
      })
    ]

-- What follows the registration of a new request, in its transaction.
unfoldable pub store_new :
    Call
    → Text
    → ℤ
    → List ℕ
    → List PriceIngest
    → PriceStore
    → Result StoreError (IngestPricesResult × PriceStore)
unfolding drain raw_rows upsert_current complete_request
store_new call request server hash entries store = do
  copied ← drain (suc (length entries)) (record { entries = entries; index = 0 })
  run call copy_rows
  fail_if (not (length copied == length entries))
      (store_failed (lit "copied another number of rows"))
  let raw = store.raw ++ raw_rows call.now request server store.next_id copied
  let upserted = upsert_current call.now request raw store.current
  let registered : IngestRequest = record {
    request_id = request;
    request_sha256 = hash;
    server = server;
    accepted_count = pos (length entries);
    current_rows_touched = pos 0;
    status = processing;
    created_at = call.now;
    completed_at = none;
  }
  run call upsert_rows
  run call complete
  run call commit_tx
  ok (
    record {
      accepted = pos (length entries);
      current_rows_touched = pos upserted.0;
      duplicate = false;
      timing = committed_timing call;
    },
    record {
      requests = complete_request call.now request upserted.0 (store.requests ++ registered ∷ []);
      raw = raw;
      next_id = store.next_id + length copied;
      current = upserted.1;
    },
  )

-- `IngestPrices` of the repository: the result and the store, or an error and the store as it was.
unfoldable pub store_prices :
    Codec
    → Call
    → PriceStore
    → IngestPricesRequest
    → Result StoreError (IngestPricesResult × PriceStore)
unfolding run existing_result store_new
store_prices codec call store req = do
  server ← map_server req.server
  hash ← map_err store_failed (codec.price_hash req)
  request ← map_err store_failed (codec.scan_uuid req.request_id)
  run call begin_tx
  run call register
  elim (find_by (λ r. r.request_id) request store.requests) [
    | none ↦ store_new call request server hash req.entries store
    | some existing ↦ run call read_existing >> existing_result hash existing call >>= λ result.
        ok (result, store)
  ]

-- A store after a sequence of ingests; one that fails leaves it as it was.
abbrev pub left_by : PriceStore → Result StoreError (IngestPricesResult × PriceStore) → PriceStore
left_by store (ok answer) = answer.1
left_by store (err e) = store

unfoldable pub serve : Codec → List (Call × IngestPricesRequest) → PriceStore → PriceStore
unfolding store_prices
serve codec [] store = store
serve codec (step ∷ steps) store =
    serve codec steps (left_by store (store_prices codec step.0 store step.1))

abbrev pub empty_store : PriceStore
empty_store = record { requests = []; raw = []; next_id = 1; current = [] }
