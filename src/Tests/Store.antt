-- ===== src/Tests/Store.antt =====
-- The price store at sample requests.
use albion_market_api.Prelude.{
  ℕ, ◌+◌, ◌≡◌, ◌≢◌, refl, true, false, none, some, List, [], ◌∷◌, length, Result, ok, err,
}
use albion_market_api.Prelude.Int.{pos}
use albion_market_api.Text.{lit}
use albion_market_api.Sql.Upsert.{find_by}
use albion_market_api.Market.Domain.{CurrentPriceLookup}
use albion_market_api.Market.Ingest.{
  PriceIngest, IngestPricesRequest, IngestPricesResult, StoreError, request_already_processing,
  request_payload_conflict,
}
use albion_market_api.Market.Server.{Call, Codec, map_server, timing_of}
use albion_market_api.Market.Store.{PriceStore, store_prices, serve, empty_store}
use albion_market_api.Market.Store.Served.{IsSound, serve-IsSound}
use albion_market_api.Market.Store.Repeated.{store_prices-repeated, store_prices-conflict}
use albion_market_api.Market.Store.Busy.{store_prices-not_processing}
use albion_market_api.Tests.{ascii, day_one, day_two}

abbrev pub codec : Codec
codec = record {
  price_hash = λ r. ok (length r.entries ∷ []);
  history_hash = λ r. ok (length r.entries ∷ []);
  scan_uuid = λ s. ok s;
}

abbrev pub quiet : Call
quiet = record { now = day_two; transaction_took = pos 5; commit_took = pos 1; fault = λ s. none }

abbrev entry : ℕ → PriceIngest
entry price = record {
  observed_at = day_one + price;
  location_id = pos 7;
  item_key = lit "T4_BAG";
  quality = pos 1;
  sell_price_min = some (pos price);
  sell_price_min_at = some (day_one + price);
  buy_price_max = none;
  buy_price_max_at = none;
}

abbrev two_prices : IngestPricesRequest
two_prices = record {
  request_id = lit "a";
  server = lit "west";
  entries = entry 20 ∷ entry 30 ∷ [];
}

abbrev one_price : IngestPricesRequest
one_price = record { request_id = lit "aa"; server = lit "west"; entries = entry 10 ∷ [] }

abbrev other_payload : IngestPricesRequest
other_payload = record { request_id = lit "a"; server = lit "west"; entries = entry 40 ∷ [] }

abbrev steps : List (Call × IngestPricesRequest)
steps = (quiet, one_price) ∷ []

abbrev given : Result StoreError (IngestPricesResult × PriceStore) → IngestPricesResult × PriceStore
given (ok a) = a
given (err e) = (
  record {
    accepted = pos 0;
    current_rows_touched = pos 0;
    duplicate = false;
    timing = timing_of quiet;
  },
  empty_store,
)

abbrev answered : IngestPricesResult × PriceStore
answered = given (store_prices codec quiet empty_store two_prices)

serve-IsSound_example : IsSound (serve codec ((quiet, two_prices) ∷ steps) empty_store)
serve-IsSound_example = serve-IsSound codec ((quiet, two_prices) ∷ steps)

store_prices-repeated_example :
    store_prices codec quiet (serve codec steps answered.1) two_prices
    ≡ ok (
      record {
        accepted = answered.0.accepted;
        current_rows_touched = answered.0.current_rows_touched;
        duplicate = true;
        timing = timing_of quiet;
      },
      serve codec steps answered.1,
    )
unfolding store_prices map_server find_by
store_prices-repeated_example =
    store_prices-repeated codec quiet quiet empty_store two_prices answered steps refl (λ s. refl)

store_prices-conflict_example :
    store_prices codec quiet (serve codec steps answered.1) other_payload
    ≡ err request_payload_conflict
unfolding store_prices map_server find_by
store_prices-conflict_example =
    store_prices-conflict codec quiet quiet empty_store two_prices other_payload answered steps
      (pos 1) (1 ∷ []) refl (λ s. refl) refl refl (λ h. cc) refl

store_prices-not_processing_example :
    store_prices codec quiet (serve codec steps empty_store) one_price
    ≢ err request_already_processing
store_prices-not_processing_example = store_prices-not_processing codec steps quiet one_price

abbrev lookup_one : CurrentPriceLookup
lookup_one = record {
  server = lit "west";
  location_ids = pos 7 ∷ [];
  entries = record { item_key = lit "T4_BAG"; quality = pos 1 } ∷ [];
}
