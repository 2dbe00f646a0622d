-- ===== src/Market/Store/Repeated.antt =====
-- A request that is sent again: the retry of one that was answered, and another one under its
-- identity.
use albion_market_api.Prelude.{
  ℕ, ◌≡◌, ◌≢◌, ◌⊎◌, refl, sym, ap, ◌∙◌, inl, inr, true, false, not, none, some, List, [], ◌∷◌,
  arith, ok, err, Bool-cases, Result-cases, if-eq, ◌>>=◌,
}
use albion_market_api.Prelude.Int.{ℤ}
use albion_market_api.Text.{Text}
use albion_market_api.Seen.{text_keys}
use albion_market_api.Market.Ingest.{
  IngestPricesRequest, IngestPricesResult, request_payload_conflict,
}
use albion_market_api.Market.Server.{
  map_server, equal_hashes, equal_hashes_iff, RequestStatus, completed, processing, Statement,
  begin_tx, register, read_existing, Call, Codec, run, timing_of,
}
use albion_market_api.Market.Store.{
  IngestRequest, PriceStore, existing_result, store_prices, serve, left_by,
}
use albion_market_api.Market.Store.Replay.{
  find_request, Went, store_prices-Went, registered, upserted,
}
use albion_market_api.Market.Store.Ledger.{
  complete_request-kept, complete_request-new, completed_row,
}

-- The table has the row of a request that was answered with `result`.
pub record IsRecorded (rows : List IngestRequest) (request : Text) (hash : List ℕ)
    (result : IngestPricesResult) : Type 0 where
  pub row : IngestRequest
  pub found : find_request request rows ≡ some row
  pub is_completed : row.status ≡ completed
  pub same_hash : row.request_sha256 ≡ hash
  pub same_accepted : row.accepted_count ≡ result.accepted
  pub same_touched : row.current_rows_touched ≡ result.current_rows_touched

status-cases : (s : RequestStatus) → (s ≡ processing) ⊎ (s ≡ completed)
status-cases processing = inl refl
status-cases completed = inr refl

-- What a success of `existingIngestResult` says of the row.
existing_result-row :
    (hash : List ℕ) (row : IngestRequest) (call : Call) (result : IngestPricesResult)
    → existing_result hash row call ≡ ok result
    → (row.status ≡ completed)
      × (row.request_sha256 ≡ hash)
      × (row.accepted_count ≡ result.accepted)
      × (row.current_rows_touched ≡ result.current_rows_touched)
unfolding existing_result
existing_result-row hash row call result h =
    elim (if-eq (not (equal_hashes row.request_sha256 hash)) _ _ h) [
      | inl (differ, k) ↦ cc
      | inr (agree, k) ↦
          let same : row.request_sha256 ≡ hash =
            (equal_hashes_iff row.request_sha256 hash).0 (ground (arith, agree)) in
          elim (status-cases row.status) [
            | inl busy ↦ cc (rw busy at k)
            | inr done ↦ let is = rw done at k in (done, same, cc (is), cc (is))
          ]
    ]

store_prices-IsRecorded :
    (codec : Codec) (call : Call) (store : PriceStore) (req : IngestPricesRequest)
    (answer : IngestPricesResult × PriceStore) (went : Went codec call store req answer)
    → IsRecorded answer.1.requests went.request went.hash answer.0
store_prices-IsRecorded codec call store req answer went = elim went.way [
  | inl (absent, is) ↦
      let row = registered call went.request went.server went.hash req.entries store in
      let touched = (upserted call went.request went.server went.hash req.entries store).0 in
      rw is (record {
        row = completed_row call.now touched row;
        found = complete_request-new call.now went.request touched row refl store.requests absent;
        is_completed = refl;
        same_hash = refl;
        same_accepted = refl;
        same_touched = refl;
      })
  | inr (existing, found, result, same) ↦
      let (done, hash, accepted, touched) =
        existing_result-row went.hash existing call answer.0 result in
      record {
        row = existing;
        found = rw same found;
        is_completed = done;
        same_hash = hash;
        same_accepted = accepted;
        same_touched = touched;
      }
]

-- Later ingests leave the row as it is.
store_prices-kept :
    (codec : Codec) (call : Call) (store : PriceStore) (req : IngestPricesRequest) (j : Text)
    (row : IngestRequest)
    → find_request j store.requests ≡ some row
    → find_request j (left_by store (store_prices codec call store req)).requests ≡ some row
store_prices-kept codec call store req j row found =
    elim (Result-cases (store_prices codec call store req)) [
      | inr (e, failed) ↦ rw failed found
      | inl (answer, done) ↦
          let went = store_prices-Went codec call store req answer done in
          let kept : find_request j answer.1.requests ≡ some row = elim went.way [
            | inr (existing, at_request, result, same) ↦ rw same found
            | inl (absent, is) ↦ rw is (
                complete_request-kept call.now went.request _ _ refl store.requests j row absent
                  found)
          ] in
          rw done kept
    ]

serve-kept :
    (codec : Codec) (steps : List (Call × IngestPricesRequest)) (store : PriceStore) (j : Text)
    (row : IngestRequest)
    → find_request j store.requests ≡ some row
    → find_request j (serve codec steps store).requests ≡ some row
unfolding serve
serve-kept codec [] store j row found = found
serve-kept codec (step ∷ steps) store j row found =
    serve-kept codec steps _ j row (store_prices-kept codec step.0 store step.1 j row found)

run-quiet : (call : Call) (s : Statement) → call.fault s ≡ none → run call s ≡ ok tt
unfolding run
run-quiet call s quiet = rw (run, quiet) refl

-- An ingest of a request whose identity has a row.
store_prices-at :
    (codec : Codec) (call : Call) (store : PriceStore) (req : IngestPricesRequest) (server : ℤ)
    (hash : List ℕ) (request : Text) (row : IngestRequest)
    → map_server req.server ≡ ok server
    → codec.price_hash req ≡ ok hash
    → codec.scan_uuid req.request_id ≡ ok request
    → ((s : Statement) → call.fault s ≡ none)
    → find_request request store.requests ≡ some row
    → store_prices codec call store req
      ≡ (existing_result hash row call >>= λ result. ok (result, store))
unfolding store_prices
store_prices-at codec call store req server hash request row on_server hashed scanned quiet found =
    let begun = run-quiet call begin_tx (quiet begin_tx) in
    let registered = run-quiet call register (quiet register) in
    let read = run-quiet call read_existing (quiet read_existing) in
    rw (on_server, hashed, scanned, begun, registered, found, read) refl

-- A request that has been answered gets, whenever it is sent again and no statement fails, the same
-- counts, marked as a duplicate, and leaves the tables as they are, whatever other ingests came
-- between.
pub store_prices-repeated :
    (codec : Codec) (call retry : Call) (store : PriceStore) (req : IngestPricesRequest)
    (answer : IngestPricesResult × PriceStore) (steps : List (Call × IngestPricesRequest))
    → store_prices codec call store req ≡ ok answer
    → ((s : Statement) → retry.fault s ≡ none)
    → store_prices codec retry (serve codec steps answer.1) req
      ≡ ok (
        record {
          accepted = answer.0.accepted;
          current_rows_touched = answer.0.current_rows_touched;
          duplicate = true;
          timing = timing_of retry;
        },
        serve codec steps answer.1,
      )
unfolding existing_result
store_prices-repeated codec call retry store req answer steps done quiet =
    let went = store_prices-Went codec call store req answer done in
    let is = store_prices-IsRecorded codec call store req answer went in
    let found = serve-kept codec steps answer.1 went.request is.row is.found in
    let agree = (equal_hashes_iff is.row.request_sha256 went.hash).1 is.same_hash in
    rw
      (
        store_prices-at codec retry (serve codec steps answer.1) req went.server went.hash
            went.request is.row went.on_server went.hashed went.scanned quiet found,
        agree,
        is.is_completed,
        is.same_accepted,
        is.same_touched,
      )
      refl

-- Another request under the identity of one that has been answered, with another hash, is refused
-- as a conflict whenever it comes, if its server is known and no statement fails.
pub store_prices-conflict :
    (codec : Codec) (call later : Call) (store : PriceStore) (req other : IngestPricesRequest)
    (answer : IngestPricesResult × PriceStore) (steps : List (Call × IngestPricesRequest))
    (server : ℤ) (hash : List ℕ)
    → store_prices codec call store req ≡ ok answer
    → ((s : Statement) → later.fault s ≡ none)
    → map_server other.server ≡ ok server
    → codec.price_hash other ≡ ok hash
    → codec.price_hash other ≢ codec.price_hash req
    → codec.scan_uuid other.request_id ≡ codec.scan_uuid req.request_id
    → store_prices codec later (serve codec steps answer.1) other ≡ err request_payload_conflict
unfolding existing_result
store_prices-conflict codec call later store req other answer steps server hash done quiet on_server
      hashed differ same_id =
    let went = store_prices-Went codec call store req answer done in
    let is = store_prices-IsRecorded codec call store req answer went in
    let found = serve-kept codec steps answer.1 went.request is.row is.found in
    let apart : equal_hashes is.row.request_sha256 hash ≡ false =
      elim (Bool-cases (equal_hashes is.row.request_sha256 hash)) [
        | inr n ↦ n
        | inl e ↦
            let same = (equal_hashes_iff is.row.request_sha256 hash).0 e in
            absurd (differ (hashed ∙ ap ok (sym same ∙ is.same_hash) ∙ sym went.hashed))
      ] in
    rw
      (
        store_prices-at codec later (serve codec steps answer.1) other server hash went.request
            is.row on_server hashed (same_id ∙ went.scanned) quiet found,
        apart,
      )
      refl
