-- ===== src/Market/Store/Read/Rows.antt =====
-- What a read of the current prices returns, and the answer of a query that reads them.
use albion_market_api.Prelude.{◌≡◌, Bool, List, In, ok}
use albion_market_api.Prelude.Int.{ℤ}
use albion_market_api.Text.{Text}
use albion_market_api.Sort.{sort_stable}
use albion_market_api.Market.Domain.{QueryEntry, CurrentPriceLookup, CurrentPrice}
use albion_market_api.Market.Server.{map_server}
use albion_market_api.Market.Store.{PriceRow, PriceStore}
use albion_market_api.Market.Store.Read.{select_prices, key_before, scan_price}

-- The rows of an answer are those of the table that the lookup asks for.
pub record IsReading (store : PriceStore) (server : ℤ) (l : CurrentPriceLookup)
    (prices : List CurrentPrice) : Type 0 where
  pub sound :
      (p : CurrentPrice)
      → In p prices
      → (r : PriceRow) × In r store.current
        × (p ≡ scan_price r)
        × (p.server ≡ l.server)
        × In p.location_id l.location_ids
        × (e : QueryEntry) × In e l.entries
        × (p.item_key ≡ e.item_key)
        × (p.quality ≡ e.quality)
  pub complete :
      (r : PriceRow) (e : QueryEntry)
      → In r store.current
      → r.key.server ≡ server
      → In r.key.location_id l.location_ids
      → In e l.entries
      → r.key.item_key ≡ e.item_key
      → r.key.quality ≡ e.quality
      → In (scan_price r) prices

module _ (collation : Text → Text → Bool) (store : PriceStore) (server : ℤ) (l : CurrentPriceLookup)
    (on_server : map_server l.server ≡ ok server) where
  abbrev sorted : List PriceRow
  sorted =
      sort_stable (λ r s. key_before collation r.key s.key) (select_prices server l store.current)
