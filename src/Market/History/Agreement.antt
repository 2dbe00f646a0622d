-- ===== src/Market/History/Agreement.antt =====
-- The history query beside the price query: internal/service/history_service.go and market_service.go.
use albion_market_api.Prelude.{
  ℕ, ◌≡◌, refl, sym, ap, ◌∙◌, ◌∷◌, Option, List, [], length, ltb, ◌==◌, Result, ok, >>=-eq-ok,
  fail_if,
}
use albion_market_api.Text.{Text, Platform}
use albion_market_api.Clock.{Time}
use albion_market_api.Seen.{collect, text_keys}
use albion_market_api.Seen.Passes.{collect-same}
use albion_market_api.Market.Domain.{
  QueryEntry, PriceQueryRequest, QueryError, no_markets, too_many_markets, no_entries,
  too_many_entries,
}
use albion_market_api.Prelude.Int.{ℤ}
use albion_market_api.Market.Catalog.{Catalog, resolve_enabled}
use albion_market_api.Market.Prices.{
  max_markets, max_entries, validate_server, check_entry, dedupe_key, order_markets, PriceQuery,
  normalize_price_query,
}
use albion_market_api.Market.History.Query.{
  max_history_markets, max_history_entries, history_entry, history_key, history_order,
  HistoryQueryRequest, HistoryQuery, HistoryRange, parse_history_range, normalize_history_query,
}

-- The price query for the same server, markets and entries.
abbrev pub prices_of : HistoryQueryRequest → PriceQueryRequest
prices_of req = record { server = req.server; market_keys = req.market_keys; entries = req.entries }

abbrev pub lookup_of : HistoryQuery → PriceQuery
lookup_of q = record {
  looked_up = record {
    server = q.looked_up.server;
    location_ids = q.looked_up.location_ids;
    entries = q.looked_up.entries;
  };
  market_order = q.market_order;
  keys_by_location = q.keys_by_location;
}

-- The last step of both.
same_query :
    (server : Text) (ids : List ℤ) (entries : List QueryEntry) (order ranked : List (Text × ℕ))
    (by : List (ℤ × Text)) (range : HistoryRange) (q : HistoryQuery)
    → order ≡ ranked
    → ◌≡◌ {A = Result QueryError HistoryQuery}
        (ok (record {
          looked_up = record {
            server = server;
            location_ids = ids;
            entries = entries;
            range_start = range.start;
            range_end_exclusive = range.end_exclusive;
          };
          market_order = order;
          keys_by_location = by;
          range_start = range.start_text;
          range_end = range.end_text;
        }))
        (ok q)
    → (record {
      looked_up = record { server = server; location_ids = ids; entries = entries };
      market_order = ranked;
      keys_by_location = by;
    }
        ≡ lookup_of q)
      × (q.looked_up.range_start ≡ range.start)
      × (q.looked_up.range_end_exclusive ≡ range.end_exclusive)
same_query server ids entries order ranked by range q same h = (cc, cc, cc)

module _ ⦃go : Platform⦄ (c : Catalog) (req : PriceQueryRequest) where
  accepted :
      (resolved : List ℤ × List (ℤ × Text)) (entries : List QueryEntry)
      → validate_server req.server ≡ ok tt
      → fail_if (length req.market_keys == 0) no_markets ≡ ok tt
      → fail_if (ltb max_markets (length req.market_keys)) too_many_markets ≡ ok tt
      → fail_if (length req.entries == 0) no_entries ≡ ok tt
      → fail_if (ltb max_entries (length req.entries)) too_many_entries ≡ ok tt
      → resolve_enabled c req.market_keys ≡ ok resolved
      → collect check_entry dedupe_key 0 [] req.entries ≡ ok entries
      → normalize_price_query c req
        ≡ ok (record {
          looked_up = record { server = req.server; location_ids = resolved.0; entries = entries };
          market_order = order_markets [] [] req.market_keys;
          keys_by_location = resolved.1;
        })
  unfolding normalize_price_query
  accepted resolved entries h₀ h₁ h₂ h₃ h₄ hr he =
      rw h₀ (rw h₁ (rw h₂ (rw h₃ (rw h₄ (rw hr (rw he refl))))))

module _ ⦃go : Platform⦄ where
  -- The checks, the keys and the loops of the two files have the same results.
  entry-same : (i : ℕ) (e : QueryEntry) → history_entry i e ≡ check_entry i e
  unfolding history_entry check_entry
  entry-same i e = refl

  key-same : (e : QueryEntry) → history_key e ≡ dedupe_key e
  unfolding history_key dedupe_key
  key-same e = refl

  order-same :
      (keys seen : List Text) (order : List (Text × ℕ))
      → history_order seen order keys ≡ order_markets seen order keys
  unfolding history_order order_markets
  order-same [] seen order = refl
  order-same (raw ∷ keys) seen order = order-same keys _ _

  entries-same :
      (entries : List QueryEntry)
      → collect history_entry history_key 0 [] entries ≡ collect check_entry dedupe_key 0 [] entries
  entries-same entries =
      collect-same history_entry check_entry history_key dedupe_key entry-same key-same 0 [] entries

module _ ⦃go : Platform⦄ (parse_date : Text → Option Time) (c : Catalog) where
  -- A history query is accepted only if the price query with the same server, market keys and entries
  -- is, with the same locations, entries, labels and order of markets, and if its dates form an
  -- accepted range, which is the range of the lookup.
  pub history_query-price_query :
      (req : HistoryQueryRequest) (q : HistoryQuery)
      → normalize_history_query parse_date c req ≡ ok q
      → (normalize_price_query c (prices_of req) ≡ ok (lookup_of q))
        × (range : HistoryRange) × (parse_history_range parse_date req.range_start req.range_end
            ≡ ok range)
        × (q.looked_up.range_start ≡ range.start)
        × (q.looked_up.range_end_exclusive ≡ range.end_exclusive)
  unfolding normalize_history_query
  history_query-price_query req q h =
      let (x₀, h₀, k₀) = >>=-eq-ok (validate_server req.server) _ h in
      let (x₁, h₁, k₁) = >>=-eq-ok (fail_if (length req.market_keys == 0) _) _ k₀ in
      let (x₂, h₂, k₂) =
        >>=-eq-ok (fail_if (ltb max_history_markets (length req.market_keys)) _) _ k₁ in
      let (x₃, h₃, k₃) = >>=-eq-ok (fail_if (length req.entries == 0) _) _ k₂ in
      let (x₄, h₄, k₄) =
        >>=-eq-ok (fail_if (ltb max_history_entries (length req.entries)) _) _ k₃ in
      let (resolved, hr, kr) = >>=-eq-ok (resolve_enabled c req.market_keys) _ k₄ in
      let (entries, he, ke) = >>=-eq-ok (collect history_entry history_key 0 [] req.entries) _ kr in
      let (range, hx, kx) =
        >>=-eq-ok (parse_history_range parse_date req.range_start req.range_end) _ ke in
      let (same, first, last) =
        same_query req.server resolved.0 entries (history_order [] [] req.market_keys)
          (order_markets [] [] req.market_keys) resolved.1 range q
          (order-same req.market_keys [] []) kx in
      (
        accepted c (prices_of req) resolved entries h₀ h₁ h₂ h₃ h₄ hr
              (sym (entries-same req.entries) ∙ he)
            ∙ ap ok same,
        range,
        hx,
        first,
        last,
      )
