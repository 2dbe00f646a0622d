-- ===== src/Market/Store/Served.antt =====
-- The store after any sequence of ingests, and what a repeated request gets from it.
use albion_market_api.Prelude.{◌≡◌, refl, inl, inr, List, [], ◌∷◌, Result, ok, err}
use albion_market_api.Sql.Upsert.{find_by}
use albion_market_api.Market.Ingest.{IngestPricesRequest, IngestPricesResult, StoreError}
use albion_market_api.Market.Server.{Call, Codec}
use albion_market_api.Market.Store.{PriceStore, store_prices, serve, left_by, empty_store}
use albion_market_api.Market.Store.View.{IsView, upsert_current-IsView, raw_rows-request}
use albion_market_api.Market.Store.Replay.{store_prices-Went, registered, new_store}
use albion_market_api.Market.Store.Ledger.{IsLedger, complete_request-IsLedger}

pub record IsSound (store : PriceStore) : Type 0 where
  pub ledger : IsLedger store.requests
  pub view : IsView store.raw store.current

store_prices-IsSound :
    (codec : Codec) (call : Call) (store : PriceStore) (req : IngestPricesRequest)
    (answer : IngestPricesResult × PriceStore)
    → store_prices codec call store req ≡ ok answer
    → IsSound store
    → IsSound answer.1
store_prices-IsSound codec call store req answer h sound =
    let went = store_prices-Went codec call store req answer h in
    let request = went.request in
    elim went.way [
      | inr (existing, found, result, same) ↦ rw same sound
      | inl (absent, is) ↦
          let row = registered call request went.server went.hash req.entries store in
          let kept : IsSound (new_store call request went.server went.hash req.entries store) =
            record {
              ledger =
                  complete_request-IsLedger call.now request _ row refl store.requests absent
                    sound.ledger;
              view =
                  upsert_current-IsView call.now request store.raw _ store.current
                    (λ r m.
                      raw_rows-request call.now request went.server store.next_id req.entries r m)
                    sound.view;
            } in
          rw is kept
    ]

left_by-IsSound :
    (store : PriceStore) (answer : Result StoreError (IngestPricesResult × PriceStore))
    → ((a : IngestPricesResult × PriceStore) → answer ≡ ok a → IsSound a.1)
    → IsSound store
    → IsSound (left_by store answer)
left_by-IsSound store (ok a) step sound = step a refl
left_by-IsSound store (err e) step sound = sound

pub serve-keeps :
    (codec : Codec) (steps : List (Call × IngestPricesRequest)) (store : PriceStore)
    → IsSound store
    → IsSound (serve codec steps store)
unfolding serve
serve-keeps codec [] store sound = sound
serve-keeps codec (step ∷ steps) store sound = serve-keeps codec steps _ (
    left_by-IsSound store (store_prices codec step.0 store step.1)
      (λ a h. store_prices-IsSound codec step.0 store step.1 a h sound) sound)

empty-IsSound : IsSound empty_store
unfolding find_by
empty-IsSound = record {
  ledger = record { unique = tt; all_completed = tt };
  view = record { unique = tt; at_key = λ k r m. absurd m };
}

-- The store that any sequence of ingests leaves, begun with empty tables and with any of them
-- failing at any statement, has one row of each request, all completed, and one row of prices of
-- each key; a key has one exactly if the audit trail has a row of it, and its sell price and its buy
-- price are each one of the trail's with the latest date, or null without a date if no such price of
-- the trail has a date.
pub serve-IsSound :
    (codec : Codec) (steps : List (Call × IngestPricesRequest))
    → IsSound (serve codec steps empty_store)
serve-IsSound codec steps = serve-keeps codec steps empty_store empty-IsSound
