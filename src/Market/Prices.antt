-- ===== src/Market/Prices.antt =====
-- internal/service/market_service.go: the normalization of a price query and its answer. The
-- repository is an argument: what it returns for a lookup, with the error texts it may return.
pub mod Order
pub mod Answers
pub mod Rows
use albion_market_api.Prelude.{
  ℕ, ◌+◌, ◌*◌, ◌≡◌, Bool, true, false, not, ◌&&◌, ◌||◌, Option, none, some, List, [], ◌∷◌, ◌++◌,
  ◌==◌, ltb, length, if◌then◌else◌, Result, ok, err, ◌>>=◌, ◌>>◌, fail_if, map_err,
}
use albion_market_api.Prelude.Int.{ℤ, pos}
use albion_market_api.Int64.{lt}
use albion_market_api.Text.{Text, Platform, lit, text_eq, text_lt, is_empty, trim_space, format_int}
use albion_market_api.Clock.{Time, coalesce}
use albion_market_api.Seen.{contains, collect, text_keys}
use albion_market_api.Maps.{lookup, put, beq_ℤ, location_keys}
use albion_market_api.Sort.{sort_stable}
use albion_market_api.Market.Domain.{
  QueryEntry, PriceQueryRequest, CurrentPriceLookup, CurrentPrice, PriceQueryResponse, QueryError,
  server_required, unsupported_server, no_markets, too_many_markets, no_entries, too_many_entries,
  no_item, bad_quality, unmapped_location, repository_failed,
}
use albion_market_api.Market.Catalog.{Catalog, normalize_key, resolve_enabled}

abbrev pub max_markets : ℕ
max_markets = 32

abbrev pub max_entries : ℕ
max_entries = 2000

-- `validateServer`.
unfoldable pub validate_server : Text → Result QueryError (Unit {0})
validate_server server =
    if text_eq server (lit "west") || text_eq server (lit "east") || text_eq server (lit "europe")
    then ok tt
    else if is_empty server
    then err server_required
    else err unsupported_server

-- An entry with its item key trimmed, or the error.
unfoldable pub check_entry : ℕ → QueryEntry → Result QueryError QueryEntry
check_entry i entry =
    let item = trim_space entry.item_key in
    if is_empty item
    then err (no_item i)
    else if lt entry.quality (pos 1) || lt (pos 5) entry.quality
    then err (bad_quality i)
    else ok (record { item_key = item; quality = entry.quality })

-- `fmt.Sprintf("%s\x00%d", itemKey, entry.Quality)`
unfoldable pub dedupe_key : QueryEntry → Text
dedupe_key entry = entry.item_key ++ 0 ∷ format_int entry.quality

-- `marketOrder[key]`, which is zero for a missing key.
abbrev pub rank_of : Text → List (Text × ℕ) → ℕ
rank_of key order = elim (lookup key order) [ none ↦ 0 | some n ↦ n ]

-- `normalizedPriceQuery`.
pub record PriceQuery : Type 0 where
  pub looked_up : CurrentPriceLookup
  pub market_order : List (Text × ℕ)
  pub keys_by_location : List (ℤ × Text)

-- `prices[index].MarketKey = marketKey`, or the error.
unfoldable pub label_price : CurrentPrice → Option Text → Result QueryError CurrentPrice
label_price p none = err (unmapped_location p.location_id)
label_price p (some key) = ok (record p { market_key = key })

abbrev pub label_prices :
    List (ℤ × Text) → List CurrentPrice → Result QueryError (List CurrentPrice)
label_prices by [] = ok []
label_prices by (p ∷ prices) = label_price p (lookup p.location_id by) >>= λ row.
    label_prices by prices >>= λ rows. ok (row ∷ rows)

-- The `less` of the two sorts, on the market, the item and the quality of a row.
unfoldable pub row_before : List (Text × ℕ) → Text → Text → ℤ → Text → Text → ℤ → Bool
row_before order key_p item_p quality_p key_q item_q quality_q =
    let m = rank_of key_p order in
    let n = rank_of key_q order in
    if not (m == n)
    then ltb m n
    else if not (text_eq item_p item_q)
    then text_lt item_p item_q
    else lt quality_p quality_q

unfoldable pub price_before : List (Text × ℕ) → CurrentPrice → CurrentPrice → Bool
unfolding row_before
price_before order p q =
    row_before order p.market_key p.item_key p.quality q.market_key q.item_key q.quality

module _ ⦃go : Platform⦄ where
  -- The loop that fills `marketOrder`. Its length is that of `normalizedKeys`.
  unfoldable pub order_markets : List Text → List (Text × ℕ) → List Text → List (Text × ℕ)
  order_markets seen order [] = order
  order_markets seen order (raw ∷ keys) =
      let key = normalize_key raw in
      let dup = contains key seen in
      order_markets (if dup then seen else key ∷ seen)
        (if dup then order else put key (length order) order) keys

  -- `normalizePriceQuery`.
  unfoldable pub normalize_price_query : Catalog → PriceQueryRequest → Result QueryError PriceQuery
  unfolding collect contains
  normalize_price_query c req = do
    validate_server req.server
    fail_if (length req.market_keys == 0) no_markets
    fail_if (ltb max_markets (length req.market_keys)) too_many_markets
    fail_if (length req.entries == 0) no_entries
    fail_if (ltb max_entries (length req.entries)) too_many_entries
    resolved ← resolve_enabled c req.market_keys
    entries ← collect check_entry dedupe_key 0 [] req.entries
    ok (record {
      looked_up = record { server = req.server; location_ids = resolved.0; entries = entries };
      market_order = order_markets [] [] req.market_keys;
      keys_by_location = resolved.1;
    })

  -- `QueryCurrentPrices`, with `QueryCurrentPricesWithTrust` of the repository, if it has that, and
  -- its `QueryCurrentPrices`.
  unfoldable pub query_current_prices :
      Catalog
      → Option (CurrentPriceLookup → Result Text (List CurrentPrice))
      → (CurrentPriceLookup → Result Text (List CurrentPrice))
      → Time
      → PriceQueryRequest
      → Result QueryError PriceQueryResponse
  query_current_prices c trust repo now req = do
    query ← normalize_price_query c req
    prices ← map_err repository_failed (coalesce trust repo query.looked_up)
    labelled ← label_prices query.keys_by_location prices
    ok (record {
      requested_at = now;
      count = length labelled;
      prices = sort_stable (price_before query.market_order) labelled;
    })
