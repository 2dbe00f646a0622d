-- ===== src/Market/Store/Busy.antt =====
-- Which ingests are refused as already processing.
use albion_market_api.Prelude.{
  ℕ, ◌≡◌, ◌≢◌, inl, inr, ◌==◌, not, true, List, length, arith, Result, ok, err, ◌>>=◌, map_err,
  Bool-cases, Option-cases, All-In,
}
use albion_market_api.Prelude.Int.{ℤ}
use albion_market_api.Text.{Text}
use albion_market_api.Seen.{text_keys}
use albion_market_api.Sql.Upsert.{find_by-some}
use albion_market_api.Market.Ingest.{
  PriceIngest, IngestPricesRequest, StoreError, store_failed, request_already_processing,
}
use albion_market_api.Market.Server.{
  map_server, equal_hashes, completed, Statement, register, begin_tx, read_existing, copy_rows,
  upsert_rows, complete, commit_tx, Call, Codec, run,
}
use albion_market_api.Market.Store.{
  IngestRequest, PriceStore, store_new, existing_result, store_prices, serve, empty_store,
}
use albion_market_api.Market.Store.Copy.{drain-entries}
use albion_market_api.Market.Store.Replay.{find_request}
use albion_market_api.Market.Store.Served.{serve-IsSound}

module _ {A : Type 0} where
  abbrev NotBusy : Result StoreError A → Type 0
  NotBusy m = m ≢ err request_already_processing

  NotBusy-map_err : (m : Result Text A) → NotBusy (map_err store_failed m)
  NotBusy-map_err (ok a) h = cc
  NotBusy-map_err (err e) h = cc

NotBusy->>= :
    {A B : Type 0} (m : Result StoreError A) (rest : A → Result StoreError B)
    → NotBusy m
    → ((a : A) → NotBusy (rest a))
    → NotBusy (m >>= rest)
NotBusy->>= (ok a) rest fails after h = after a h
NotBusy->>= (err e) rest fails after h = fails (cc h)

NotBusy-run : (call : Call) (s : Statement) → NotBusy (run call s)
unfolding run
NotBusy-run call s h = elim (Option-cases (call.fault s)) [
  | inl n ↦ cc (rw (run, n) at h)
  | inr (e, is) ↦ cc (rw (run, is) at h)
]

NotBusy-map_server : (s : Text) → NotBusy (map_server s)
unfolding map_server
NotBusy-map_server s h = ground (arith, h)

NotBusy-store_new :
    (call : Call) (request : Text) (server : ℤ) (hash : List ℕ) (entries : List PriceIngest)
    (store : PriceStore)
    → NotBusy (store_new call request server hash entries store)
unfolding store_new
NotBusy-store_new call request server hash entries store =
    let same : (length entries == length entries) ≡ true = ground arith in
    rw (drain-entries entries, same)
      (NotBusy->>= (run call copy_rows) _ (NotBusy-run call copy_rows) (λ x₁.
        NotBusy->>= (run call upsert_rows) _ (NotBusy-run call upsert_rows) (λ x₂.
          NotBusy->>= (run call complete) _ (NotBusy-run call complete)
            (λ x₃. NotBusy->>= (run call commit_tx) _ (NotBusy-run call commit_tx) (λ x₄ h. cc)))))

-- A completed row never gives this error.
NotBusy-existing_result :
    (hash : List ℕ) (row : IngestRequest) (call : Call)
    → row.status ≡ completed
    → NotBusy (existing_result hash row call)
unfolding existing_result
NotBusy-existing_result hash row call done h =
    elim (Bool-cases (not (equal_hashes row.request_sha256 hash))) [
      | inl differ ↦ cc (rw differ at h)
      | inr agree ↦ cc (rw (agree, done) at h)
    ]

-- In the store that any sequence of ingests leaves, begun with empty tables, no ingest fails as
-- already processing: the row of an answered request is completed in the transaction that adds it.
pub store_prices-not_processing :
    (codec : Codec) (steps : List (Call × IngestPricesRequest)) (call : Call)
    (req : IngestPricesRequest)
    → store_prices codec call (serve codec steps empty_store) req ≢ err request_already_processing
unfolding store_prices
store_prices-not_processing codec steps call req =
    let store = serve codec steps empty_store in
    let sound = serve-IsSound codec steps in
    NotBusy->>= (map_server req.server) _ (NotBusy-map_server req.server) (λ server.
      NotBusy->>= (map_err store_failed (codec.price_hash req)) _ (NotBusy-map_err _) (λ hash.
        NotBusy->>= (map_err store_failed (codec.scan_uuid req.request_id)) _ (NotBusy-map_err _)
          (λ request. NotBusy->>= (run call begin_tx) _ (NotBusy-run call begin_tx) (λ x₁.
            NotBusy->>= (run call register) _ (NotBusy-run call register) (λ x₂.
              elim (Option-cases (find_request request store.requests)) [
                | inl absent ↦
                    rw absent (NotBusy-store_new call request server hash req.entries store)
                | inr (row, found) ↦
                    let (m, own) =
                      find_by-some (λ (r : IngestRequest). r.request_id) request store.requests row
                        found in
                    let done = All-In _ store.requests sound.ledger.all_completed row m in
                    rw found (
                      NotBusy->>= (run call read_existing >>= λ u. existing_result hash row call) _
                        (NotBusy->>= (run call read_existing) _ (NotBusy-run call read_existing)
                          (λ x₃. NotBusy-existing_result hash row call done))
                        (λ result h. cc))
              ])))))
