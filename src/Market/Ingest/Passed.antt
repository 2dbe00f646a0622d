-- ===== src/Market/Ingest/Passed.antt =====
-- What an ingest passes to the repository.
use albion_market_api.Prelude.{◌≡◌, refl, Result, ok, >>=-eq-ok, map_err, map_err-ok}
use albion_market_api.Market.Domain.{IngestHistoryRequest}
use albion_market_api.Market.History.{normalize_history_ingest}
use albion_market_api.Market.History.Ingested.{IsIngest, normalize_history_ingest-IsIngest}
use albion_market_api.Market.Ingest.{
  StoreError, invalid_request, failure_of, IngestHistoryResult, IngestHistoryResponse,
  ingest_history,
}

-- A successful ingest of histories has passed an ingest in its normal form, within the limits, to
-- the repository, and answers with its result under the trimmed identity of the request.
pub ingest_history-passed :
    (repo : IngestHistoryRequest → Result StoreError IngestHistoryResult)
    (req : IngestHistoryRequest) (response : IngestHistoryResponse)
    → ingest_history repo req ≡ ok response
    → (out : IngestHistoryRequest) × IsIngest req out
      × (repo out ≡ ok response.result)
      × (response.request_id ≡ out.request_id)
unfolding ingest_history
ingest_history-passed repo req response h =
    let (out, ho, k) = >>=-eq-ok (map_err invalid_request (normalize_history_ingest req)) _ h in
    let (result, hr, l) = >>=-eq-ok (map_err failure_of (repo out)) _ k in
    let is : response ≡ record { request_id = out.request_id; result = result } = cc l in
    (
      out,
      normalize_history_ingest-IsIngest req out (map_err-ok invalid_request _ ho),
      rw is (map_err-ok failure_of _ hr),
      rw is refl,
    )
