-- ===== src/Market/HistoryStore/Read/Gathered.antt =====
-- The series of a history query are its rows, gathered.
use albion_market_api.Prelude.{◌≡◌, ◌≢◌, List, [], ◌∷◌, ◌++◌, map}
use albion_market_api.Prelude.Int.{ℤ}
use albion_market_api.Text.{Text}
use albion_market_api.Market.History.Query.{MarketHistoryPoint, MarketHistorySeries}
use albion_market_api.Market.HistoryStore.{BucketRow}
use albion_market_api.Market.HistoryStore.Read.{point_of}

-- A point with the series it stands in.
pub record Place : Type 0 where
  pub location_id : ℤ
  pub item_key : Text
  pub quality : ℤ
  pub point : MarketHistoryPoint

abbrev pub place_of : BucketRow → Place
place_of r = record {
  location_id = r.key.location_id;
  item_key = r.key.item_key;
  quality = r.key.quality;
  point = point_of r;
}

abbrev pub places : MarketHistorySeries → List Place
places s =
    map
      (λ p. record {
        location_id = s.location_id;
        item_key = s.item_key;
        quality = s.quality;
        point = p;
      })
      s.history

-- The rows that series were gathered from.
abbrev pub spread : List MarketHistorySeries → List Place
spread [] = []
spread (s ∷ series) = places s ++ spread series

-- Two series next to each other differ in their key, and each has a point.
abbrev pub SameSeries : MarketHistorySeries → MarketHistorySeries → Type 0
SameSeries s t =
    (s.location_id ≡ t.location_id) × (s.item_key ≡ t.item_key) × (s.quality ≡ t.quality)

abbrev pub DiffersFrom : MarketHistorySeries → List MarketHistorySeries → Type 0
DiffersFrom s [] = Unit
DiffersFrom s (t ∷ rest) = SameSeries s t → ⊥

abbrev pub AreApart : List MarketHistorySeries → Type 0
AreApart [] = Unit
AreApart (s ∷ rest) = (s.history ≢ []) × DiffersFrom s rest × AreApart rest
