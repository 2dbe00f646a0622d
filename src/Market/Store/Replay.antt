-- ===== src/Market/Store/Replay.antt =====
-- What one ingest leaves, and its repetition.
use albion_market_api.Prelude.{
  ℕ, ◌+◌, ◌≡◌, ◌⊎◌, refl, inl, inr, true, false, ◌==◌, Option, none, some, List, [], ◌∷◌, ◌++◌,
  arith, length, ok, ◌>>◌, >>=-eq-ok, map_err, map_err-ok, Option-cases,
}
use albion_market_api.Prelude.Int.{ℤ, pos}
use albion_market_api.Text.{Text}
use albion_market_api.Seen.{text_keys}
use albion_market_api.Sql.Upsert.{find_by}
use albion_market_api.Market.Ingest.{
  PriceIngest, IngestPricesRequest, IngestPricesResult, store_failed,
}
use albion_market_api.Market.Server.{
  map_server, processing, Call, Codec, begin_tx, register, read_existing, copy_rows, upsert_rows,
  complete, commit_tx, run, committed_timing,
}
use albion_market_api.Market.Store.{
  IngestRequest, PriceStore, PriceRow, raw_rows, upsert_current, complete_request, existing_result,
  store_new, store_prices,
}
use albion_market_api.Market.Store.Copy.{drain-entries}

module _ (call : Call) (request : Text) (server : ℤ) (hash : List ℕ) (entries : List PriceIngest)
    (store : PriceStore) where
  -- The upsert of a new request.
  abbrev pub upserted : ℕ × List PriceRow
  upserted =
      upsert_current call.now request
        (store.raw ++ raw_rows call.now request server store.next_id entries) store.current

  abbrev pub registered : IngestRequest
  registered = record {
    request_id = request;
    request_sha256 = hash;
    server = server;
    accepted_count = pos (length entries);
    current_rows_touched = pos 0;
    status = processing;
    created_at = call.now;
    completed_at = none;
  }

  abbrev pub new_store : PriceStore
  new_store = record {
    requests = complete_request call.now request upserted.0 (store.requests ++ registered ∷ []);
    raw = store.raw ++ raw_rows call.now request server store.next_id entries;
    next_id = store.next_id + length entries;
    current = upserted.1;
  }

  abbrev pub new_result : IngestPricesResult
  new_result = record {
    accepted = pos (length entries);
    current_rows_touched = pos upserted.0;
    duplicate = false;
    timing = committed_timing call;
  }

  pub store_new-ok :
      (answer : IngestPricesResult × PriceStore)
      → store_new call request server hash entries store ≡ ok answer
      → answer ≡ (new_result, new_store)
  unfolding store_new
  store_new-ok answer h =
      let same : (length entries == length entries) ≡ true = ground arith in
      let k = rw (drain-entries entries, same) at h in
      let (x₁, h₁, k₁) = >>=-eq-ok (run call copy_rows) _ k in
      let (x₂, h₂, k₂) = >>=-eq-ok (run call upsert_rows) _ k₁ in
      let (x₃, h₃, k₃) = >>=-eq-ok (run call complete) _ k₂ in
      let (x₄, h₄, k₄) = >>=-eq-ok (run call commit_tx) _ k₃ in cc

-- The row of a request, by its identity.
abbrev pub find_request : Text → List IngestRequest → Option IngestRequest
find_request request rows = find_by (λ r. r.request_id) request rows

-- The two ways in which an ingest succeeds: the identity is new, or it has a row.
pub record Went (codec : Codec) (call : Call) (store : PriceStore) (req : IngestPricesRequest)
    (answer : IngestPricesResult × PriceStore) : Type 0 where
  pub server : ℤ
  pub hash : List ℕ
  pub request : Text
  pub on_server : map_server req.server ≡ ok server
  pub hashed : codec.price_hash req ≡ ok hash
  pub scanned : codec.scan_uuid req.request_id ≡ ok request
  pub way :
      ((find_request request store.requests ≡ none)
        × (answer ≡ (
          new_result call request server hash req.entries store,
          new_store call request server hash req.entries store,
        )))
      ⊎ ((existing : IngestRequest) × (find_request request store.requests ≡ some existing)
          × (existing_result hash existing call ≡ ok answer.0)
          × (answer.1 ≡ store))

pub store_prices-Went :
    (codec : Codec) (call : Call) (store : PriceStore) (req : IngestPricesRequest)
    (answer : IngestPricesResult × PriceStore)
    → store_prices codec call store req ≡ ok answer
    → Went codec call store req answer
unfolding store_prices
store_prices-Went codec call store req answer h =
    let (server, on_server, k₁) = >>=-eq-ok (map_server req.server) _ h in
    let (hash, hashed, k₂) = >>=-eq-ok (map_err store_failed (codec.price_hash req)) _ k₁ in
    let (request, scanned, k₃) =
      >>=-eq-ok (map_err store_failed (codec.scan_uuid req.request_id)) _ k₂ in
    let (x₄, h₄, k₄) = >>=-eq-ok (run call begin_tx) _ k₃ in
    let (x₅, h₅, k₅) = >>=-eq-ok (run call register) _ k₄ in
    record {
      server = server;
      hash = hash;
      request = request;
      on_server = on_server;
      hashed = map_err-ok store_failed _ hashed;
      scanned = map_err-ok store_failed _ scanned;
      way = elim (Option-cases (find_request request store.requests)) [
        | inl absent ↦ inl (
          absent,
          store_new-ok call request server hash req.entries store answer (rw absent at k₅),
        )
        | inr (existing, found) ↦
            let (result, h₆, k₆) =
              >>=-eq-ok (run call read_existing >> existing_result hash existing call) _
                (rw found at k₅) in
            let (x₇, h₇, hr) = >>=-eq-ok (run call read_existing) _ h₆ in
            let is : answer ≡ (result, store) = cc in inr (existing, found, rw is hr, rw is refl)
      ];
    }
