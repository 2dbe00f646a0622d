-- ===== src/Market/Ingest.antt =====
-- internal/service/market_service.go (`IngestPrices`) and history_service.go (`IngestHistory`): what
-- goes to the repository, which is an argument, and what is made of its errors.
pub mod Passed
use albion_market_api.Prelude.{
  ℕ, ◌≡◌, Bool, true, false, Option, List, ◌==◌, length, Result, ok, err, ◌>>=◌, ◌>>◌, fail_if,
  map_err,
}
use albion_market_api.Prelude.Int.{ℤ}
use albion_market_api.Text.{Text, is_empty}
use albion_market_api.Clock.{Time}
use albion_market_api.Market.Domain.{
  QueryError, IngestError, IngestHistoryRequest, no_request_id, no_histories, invalid_server,
}
use albion_market_api.Market.Prices.{validate_server}
use albion_market_api.Market.History.{normalize_history_ingest}

pub record PriceIngest : Type 0 where
  pub observed_at : Time
  pub location_id : ℤ
  pub item_key : Text
  pub quality : ℤ
  pub sell_price_min : Option ℤ
  pub sell_price_min_at : Option Time
  pub buy_price_max : Option ℤ
  pub buy_price_max_at : Option Time

pub record IngestPricesRequest : Type 0 where
  pub request_id : Text
  pub server : Text
  pub entries : List PriceIngest

pub record PersistenceTiming : Type 0 where
  pub transaction : ℤ
  pub commit : ℤ
  pub transaction_measured : Bool
  pub commit_measured : Bool

pub record IngestPricesResult : Type 0 where
  pub accepted : ℤ
  pub current_rows_touched : ℤ
  pub duplicate : Bool
  pub timing : PersistenceTiming

pub record IngestPricesResponse : Type 0 where
  pub request_id : Text
  pub result : IngestPricesResult

pub record IngestHistoryResult : Type 0 where
  pub accepted_entries : ℤ
  pub accepted_buckets : ℤ
  pub history_rows_touched : ℤ
  pub duplicate : Bool
  pub timing : PersistenceTiming

pub record IngestHistoryResponse : Type 0 where
  pub request_id : Text
  pub result : IngestHistoryResult

-- The errors of the repository, and those of the service: the sentinels of the two packages.
pub data StoreError : Type 0 where
  request_already_processing request_payload_conflict : StoreError
  store_failed : Text → StoreError

pub data IngestFailure : Type 0 where
  invalid_request : IngestError → IngestFailure
  already_processing payload_conflict : IngestFailure
  failed : Text → IngestFailure

-- The `switch` on the error of the repository.
abbrev pub failure_of : StoreError → IngestFailure
failure_of request_already_processing = already_processing
failure_of request_payload_conflict = payload_conflict
failure_of (store_failed e) = failed e

-- The guards of `IngestPrices`. The server is tested twice: first for being empty.
unfoldable pub check_prices : IngestPricesRequest → Result IngestError (Unit {0})
check_prices req = do
  fail_if (is_empty req.request_id) no_request_id
  fail_if (is_empty req.server) (invalid_server QueryError.server_required)
  fail_if (length req.entries == 0) no_histories
  map_err invalid_server (validate_server req.server)

-- `IngestPrices`.
unfoldable pub ingest_prices :
    (IngestPricesRequest → Result StoreError IngestPricesResult)
    → IngestPricesRequest
    → Result IngestFailure IngestPricesResponse
ingest_prices repo req = do
  map_err invalid_request (check_prices req)
  result ← map_err failure_of (repo req)
  ok (record { request_id = req.request_id; result = result })

-- `IngestHistory`.
unfoldable pub ingest_history :
    (IngestHistoryRequest → Result StoreError IngestHistoryResult)
    → IngestHistoryRequest
    → Result IngestFailure IngestHistoryResponse
ingest_history repo req = do
  normalized ← map_err invalid_request (normalize_history_ingest req)
  result ← map_err failure_of (repo normalized)
  ok (record { request_id = normalized.request_id; result = result })
