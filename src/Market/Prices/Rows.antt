-- ===== src/Market/Prices/Rows.antt =====
-- The rows of an answer, from those of the repository.
use albion_market_api.Prelude.{
  Option, ◌≡◌, refl, map, none, some, List, [], ◌∷◌, In, All, All-weaken, All-map, length,
  length-map, Result, ok,
}
use mathlib.Core.List.{Perm}
use albion_market_api.Prelude.Int.{ℤ}
use albion_market_api.Text.{Text, Platform}
use albion_market_api.Clock.{Time, coalesce}
use albion_market_api.Maps.{lookup, location_keys}
use albion_market_api.Sort.{sort_stable}
use albion_market_api.Sort.Laws.{IsSorted, sort_stable-perm, sort_stable-IsSorted}
use albion_market_api.Market.Domain.{PriceQueryRequest, CurrentPriceLookup, CurrentPrice}
use albion_market_api.Market.Catalog.{Catalog, normalize_key}
use albion_market_api.Market.Catalog.Locations.{At, Resolves}
use albion_market_api.Market.Prices.{
  PriceQuery, normalize_price_query, label_price, label_prices, price_before, query_current_prices,
}
use albion_market_api.Market.Prices.Order.{price_before-IsOrder}
use albion_market_api.Market.Prices.Answers.{normalize_price_query-IsNormal}

-- The row with the key of its market.
abbrev pub labelled : List (ℤ × Text) → CurrentPrice → CurrentPrice
labelled by p = record p {
  market_key = elim (lookup p.location_id by) [ none ↦ p.market_key | some key ↦ key ];
}

label_price-labelled :
    (by : List (ℤ × Text)) (p : CurrentPrice) (key : Text)
    → lookup p.location_id by ≡ some key
    → (label_price p (lookup p.location_id by) ≡ ok (labelled by p))
      × (labelled by p ≡ record p { market_key = key })
unfolding label_price
label_price-labelled by p key found = rw (found, labelled) (refl, refl)

label_prices-ok :
    (by : List (ℤ × Text)) (prices : List CurrentPrice)
    → All (λ p. (key : Text) × (lookup p.location_id by ≡ some key)) prices
    → label_prices by prices ≡ ok (map (labelled by) prices)
label_prices-ok by [] h = refl
label_prices-ok by (p ∷ prices) h =
    let (key, found) = h.0 in
    rw (label_price-labelled by p key found).0 (rw (label_prices-ok by prices h.1) refl)

module _ ⦃go : Platform⦄ where
  -- The rows that carry the key of an enabled market asked for, at their own location.
  abbrev pub OfMarket : Catalog → List Text → CurrentPrice → Type 0
  OfMarket c keys p = In p.market_key (map normalize_key keys) × At c p.market_key p.location_id

  label-OfMarket :
      (c : Catalog) (keys : List Text) (ids : List ℤ) (by : List (ℤ × Text)) (p : CurrentPrice)
      → Resolves c keys ids by
      → In p.location_id ids
      → OfMarket c keys (labelled by p)
  label-OfMarket c keys ids by p r m =
      let (key, found) = r.named p.location_id m in
      rw (label_price-labelled by p key found).1 (r.placed p.location_id key found)

  -- If the request is accepted and the repository, by its query with trust if it has one and else by
  -- its plain query, answers its lookup with rows at locations asked
  -- for, then the query succeeds: its rows are those of the repository, each labelled with an
  -- enabled market that was asked for and that lies at the row's location, sorted by the order of
  -- the markets in the request, then item, then quality, and `count` is their number.
  pub query_current_prices-answers :
      (c : Catalog) (trust : Option (CurrentPriceLookup → Result Text (List CurrentPrice)))
      (repo : CurrentPriceLookup → Result Text (List CurrentPrice)) (now : Time)
      (req : PriceQueryRequest) (q : PriceQuery) (rows : List CurrentPrice)
      → normalize_price_query c req ≡ ok q
      → coalesce trust repo q.looked_up ≡ ok rows
      → All (λ p. In p.location_id q.looked_up.location_ids) rows
      → (found : List CurrentPrice) × (query_current_prices c trust repo now req
          ≡ ok (record { requested_at = now; count = length rows; prices = found }))
        × IsSorted (price_before q.market_order) found
        × Perm found (map (labelled q.keys_by_location) rows)
        × All (OfMarket c req.market_keys) (map (labelled q.keys_by_location) rows)
  unfolding query_current_prices
  query_current_prices-answers c trust repo now req q rows accepted answered asked =
      let markets = (normalize_price_query-IsNormal c req q accepted).markets in
      let named : All (λ p. (key : Text) × (lookup p.location_id q.keys_by_location ≡ some key))
          rows =
        All-weaken rows (λ p m. markets.named p.location_id m) asked in
      let labels = label_prices-ok q.keys_by_location rows named in
      (
        sort_stable (price_before q.market_order) (map (labelled q.keys_by_location) rows),
        rw accepted
            (rw answered (rw labels (rw (length-map rows (labelled q.keys_by_location)) refl))),
        sort_stable-IsSorted (price_before q.market_order) (price_before-IsOrder q.market_order) _,
        sort_stable-perm (price_before q.market_order) _,
        All-map _ _ (labelled q.keys_by_location) rows
            (λ p m. label-OfMarket c req.market_keys _ q.keys_by_location p markets m) asked,
      )
