-- ===== src/Tests/Buckets.antt =====
-- The ingest and the query of histories at sample buckets.
use albion_market_api.Prelude.{ℕ, suc, ◌+◌, ◌≡◌, none, some, List, [], ◌∷◌, length, ok}
use albion_market_api.Prelude.Int.{pos}
use albion_market_api.Text.{lit}
use albion_market_api.Clock.{hour}
use albion_market_api.Market.Domain.{HistoryBucketIngest, HistoryIngest, IngestHistoryRequest}
use albion_market_api.Market.HistorySource.{count_buckets, bucket_source, drain_buckets}
use albion_market_api.Market.HistorySource.Walk.{flattened, drain_buckets-flattened}
use albion_market_api.Market.HistoryStore.{BucketRow, serve_history, empty_history}
use albion_market_api.Market.HistoryStore.View.{IsView}
use albion_market_api.Market.HistoryStore.Served.{serve_history-IsView}
use albion_market_api.Tests.{day_one, day_two}
use albion_market_api.Tests.Store.{codec, quiet}

abbrev bucket : ℕ → HistoryBucketIngest
bucket count = record {
  timestamp = day_one;
  item_count = pos count;
  average_unit_price = some (pos 100);
}

abbrev captured : ℕ → List HistoryBucketIngest → HistoryIngest
captured delay history = record {
  observed_at = day_two + delay;
  location_id = pos 7;
  item_key = lit "T4_BAG";
  quality = pos 1;
  history = history;
}

abbrev entries : List HistoryIngest
entries = captured 0 (bucket 3 ∷ bucket 4 ∷ []) ∷ captured 1 [] ∷ captured hour (bucket 5 ∷ []) ∷ []

abbrev ingest : IngestHistoryRequest
ingest = record { request_id = lit "a"; server = lit "east"; entries = entries }

serve_history-IsView_example :
    IsView
      (serve_history codec ((quiet, ingest) ∷ (quiet, ingest) ∷ []) empty_history).raw
      (serve_history codec ((quiet, ingest) ∷ (quiet, ingest) ∷ []) empty_history).buckets
serve_history-IsView_example = serve_history-IsView codec ((quiet, ingest) ∷ (quiet, ingest) ∷ [])

drain_buckets-flattened_example :
    (drain_buckets (suc (count_buckets entries)) (bucket_source entries) ≡ ok (flattened entries))
    × (length (flattened entries) ≡ count_buckets entries)
drain_buckets-flattened_example = drain_buckets-flattened entries

abbrev row : ℕ → ℕ → BucketRow
row quality delay = record {
  key = record {
    server = pos 2;
    location_id = pos 7;
    item_key = lit "T4_BAG";
    quality = pos quality;
    bucket_at = day_one + delay;
  };
  measure = record { item_count = pos 3; average_unit_price = none };
  observed_at = day_two;
  updated_at = day_two;
}

abbrev rows : List BucketRow
rows = row 1 0 ∷ row 1 hour ∷ row 2 0 ∷ []
