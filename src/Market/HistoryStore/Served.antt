-- ===== src/Market/HistoryStore/Served.antt =====
-- The store after any sequence of ingests of histories.
use albion_market_api.Prelude.{
  ℕ, ◌≡◌, refl, inl, inr, ◌==◌, true, List, [], ◌∷◌, ◌++◌, arith, length, Result, ok, err, ◌>>◌,
  >>=-eq-ok, map_err, Option-cases,
}
use albion_market_api.Prelude.Int.{ℤ}
use albion_market_api.Text.{Text}
use albion_market_api.Seen.{text_keys}
use albion_market_api.Sql.Upsert.{find_by}
use albion_market_api.Market.Domain.{HistoryIngest, IngestHistoryRequest}
use albion_market_api.Market.Ingest.{IngestHistoryResult, StoreError, store_failed}
use albion_market_api.Market.HistorySource.{count_buckets}
use albion_market_api.Market.HistorySource.Walk.{flattened, drain_buckets-flattened}
use albion_market_api.Market.Server.{
  map_server, Call, Codec, begin_tx, register, read_existing, copy_rows, upsert_rows, complete,
  commit_tx, run,
}
use albion_market_api.Market.HistoryStore.{
  RawBucket, BucketRow, HistoryStore, raw_buckets, upsert_history, existing_history_result,
  store_new_history, store_history, history_left_by, serve_history, empty_history,
}
use albion_market_api.Market.HistoryStore.View.{IsView, upsert_history-IsView, raw_buckets-request}

-- What a new request adds to the two tables of buckets, and its answer.
record Adds (call : Call) (entries : List HistoryIngest) (store : HistoryStore)
    (answer : IngestHistoryResult × HistoryStore) : Type 0 where
  request : Text
  server : ℤ
  raw_is :
      answer.1.raw
      ≡ store.raw ++ raw_buckets call.now request server store.next_id (flattened entries)
  buckets_are : answer.1.buckets ≡ (upsert_history call.now request answer.1.raw store.buckets).1

store_new_history-Adds :
    (call : Call) (request : Text) (server : ℤ) (hash : List ℕ) (entries : List HistoryIngest)
    (store : HistoryStore) (answer : IngestHistoryResult × HistoryStore)
    → store_new_history call request server hash entries store ≡ ok answer
    → Adds call entries store answer
unfolding store_new_history
store_new_history-Adds call request server hash entries store answer h =
    let (drained, counted) = drain_buckets-flattened entries in
    let same : (length (flattened entries) == count_buckets entries) ≡ true =
      ground (arith, counted) in
    let k = rw (drained, same) at h in
    let (x₁, h₁, k₁) = >>=-eq-ok (run call copy_rows) _ k in
    let (x₂, h₂, k₂) = >>=-eq-ok (run call upsert_rows) _ k₁ in
    let (x₃, h₃, k₃) = >>=-eq-ok (run call complete) _ k₂ in
    let (x₄, h₄, k₄) = >>=-eq-ok (run call commit_tx) _ k₃ in
    record { request = request; server = server; raw_is = cc; buckets_are = cc }

added-IsView :
    (call : Call) (request : Text) (server : ℤ) (entries : List HistoryIngest)
    (store : HistoryStore) (raw : List RawBucket) (buckets : List BucketRow)
    → raw ≡ store.raw ++ raw_buckets call.now request server store.next_id (flattened entries)
    → buckets ≡ (upsert_history call.now request raw store.buckets).1
    → IsView store.raw store.buckets
    → IsView raw buckets
added-IsView call request server entries store raw buckets raw_is buckets_are view =
    rw (buckets_are, raw_is)
      (upsert_history-IsView call.now request store.raw _ store.buckets
        (raw_buckets-request call.now request server store.next_id (flattened entries)) view)

store_history-IsView :
    (codec : Codec) (call : Call) (store : HistoryStore) (req : IngestHistoryRequest)
    (answer : IngestHistoryResult × HistoryStore)
    → store_history codec call store req ≡ ok answer
    → IsView store.raw store.buckets
    → IsView answer.1.raw answer.1.buckets
unfolding store_history
store_history-IsView codec call store req answer h view =
    let (server, on_server, k₁) = >>=-eq-ok (map_server req.server) _ h in
    let (hash, hashed, k₂) = >>=-eq-ok (map_err store_failed (codec.history_hash req)) _ k₁ in
    let (request, scanned, k₃) =
      >>=-eq-ok (map_err store_failed (codec.scan_uuid req.request_id)) _ k₂ in
    let (x₄, h₄, k₄) = >>=-eq-ok (run call begin_tx) _ k₃ in
    let (x₅, h₅, k₅) = >>=-eq-ok (run call register) _ k₄ in
    elim (Option-cases (find_by (λ r. r.request_id) request store.requests)) [
      | inl absent ↦
          let adds =
            store_new_history-Adds call request server hash req.entries store answer
              (rw absent at k₅) in
          added-IsView call adds.request adds.server req.entries store _ _ adds.raw_is
            adds.buckets_are view
      | inr (existing, found) ↦
          let (result, h₆, k₆) =
            >>=-eq-ok (run call read_existing >> existing_history_result hash existing call) _
              (rw found at k₅) in
          let same : answer.1 ≡ store = cc in rw same view
    ]

history_left_by-IsView :
    (store : HistoryStore) (answer : Result StoreError (IngestHistoryResult × HistoryStore))
    → ((a : IngestHistoryResult × HistoryStore) → answer ≡ ok a → IsView a.1.raw a.1.buckets)
    → IsView store.raw store.buckets
    → IsView (history_left_by store answer).raw (history_left_by store answer).buckets
history_left_by-IsView store (ok a) step view = step a refl
history_left_by-IsView store (err e) step view = view

serve_history-keeps :
    (codec : Codec) (steps : List (Call × IngestHistoryRequest)) (store : HistoryStore)
    → IsView store.raw store.buckets
    → IsView (serve_history codec steps store).raw (serve_history codec steps store).buckets
unfolding serve_history
serve_history-keeps codec [] store view = view
serve_history-keeps codec (step ∷ steps) store view = serve_history-keeps codec steps _ (
    history_left_by-IsView store (store_history codec step.0 store step.1)
      (λ a h. store_history-IsView codec step.0 store step.1 a h view) view)

empty-IsView : IsView [] []
unfolding find_by
empty-IsView = record { unique = tt; at_key = λ k r m. absurd m }

-- In the store that any sequence of ingests of histories leaves, begun with empty tables and with any
-- of them failing at any statement, a key has one bucket at most, and one exactly if the audit trail
-- has a row of it; and the bucket has the measure and the date of an observation of the trail,
-- of which none of the key is later.
pub serve_history-IsView :
    (codec : Codec) (steps : List (Call × IngestHistoryRequest))
    → IsView
        (serve_history codec steps empty_history).raw
        (serve_history codec steps empty_history).buckets
serve_history-IsView codec steps = serve_history-keeps codec steps empty_history empty-IsView
