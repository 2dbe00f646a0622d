-- ===== src/Market/Domain.antt =====
-- The records of internal/domain/market.go and the sentinel errors of internal/service. An `int16`
-- and an `int64` is an integer; no operation here computes with them.
use albion_market_api.Prelude.{ℕ, Bool, Option, List}
use albion_market_api.Prelude.Int.{ℤ}
use albion_market_api.Text.{Text}
use albion_market_api.Clock.{Time}

pub data MarketType : Type 0 where
  regular black_market : MarketType

pub record MarketDefinition : Type 0 where
  pub key : Text
  pub name : Text
  pub kind : MarketType
  pub enabled : Bool

-- `PriceQueryEntry` and `HistoryQueryEntry`.
pub record QueryEntry : Type 0 where
  pub item_key : Text
  pub quality : ℤ

pub record PriceQueryRequest : Type 0 where
  pub server : Text
  pub market_keys : List Text
  pub entries : List QueryEntry

pub record CurrentPriceLookup : Type 0 where
  pub server : Text
  pub location_ids : List ℤ
  pub entries : List QueryEntry

pub record CurrentPrice : Type 0 where
  pub server : Text
  pub market_key : Text
  pub location_id : ℤ
  pub item_key : Text
  pub quality : ℤ
  pub sell_price_min : Option ℤ
  pub sell_price_min_at : Option Time
  pub buy_price_max : Option ℤ
  pub buy_price_max_at : Option Time
  pub updated_at : Time
  pub history_observations : ℤ
  pub history_volume : ℤ
  pub median_price : Option ℤ

pub record PriceQueryResponse : Type 0 where
  pub requested_at : Time
  pub count : ℕ
  pub prices : List CurrentPrice

pub record HistoryBucketIngest : Type 0 where
  pub timestamp : Time
  pub item_count : ℤ
  pub average_unit_price : Option ℤ

pub record HistoryIngest : Type 0 where
  pub observed_at : Time
  pub location_id : ℤ
  pub item_key : Text
  pub quality : ℤ
  pub history : List HistoryBucketIngest

pub record IngestHistoryRequest : Type 0 where
  pub request_id : Text
  pub server : Text
  pub entries : List HistoryIngest

-- The errors of a query; those of an entry carry its index.
pub data QueryError : Type 0 where
  server_required unsupported_server no_markets too_many_markets no_entries too_many_entries :
      QueryError
  empty_market : QueryError
  unsupported_market disabled_market : Text → QueryError
  no_item bad_quality : ℕ → QueryError
  no_start no_end bad_start bad_end reversed_range long_range : QueryError
  unmapped_location : ℤ → QueryError
  repository_failed : Text → QueryError

-- The errors of an ingest of histories; those of an entry carry its index, those of a bucket both.
pub data IngestError : Type 0 where
  no_request_id bad_request_id no_histories too_many_histories too_many_buckets : IngestError
  invalid_server : QueryError → IngestError
  no_observed_at bad_location no_item_key bad_item_quality no_history : ℕ → IngestError
  no_timestamp negative_count negative_price : ℕ → ℕ → IngestError
