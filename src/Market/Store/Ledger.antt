-- ===== src/Market/Store/Ledger.antt =====
-- The table of the requests: a row of a request that has been answered stays as it is.
use albion_market_api.Prelude.{
  ℕ, ◌≡◌, refl, sym, inl, inr, true, none, some, List, [], ◌∷◌, ◌++◌, map, arith, In, All,
  All-append, Distinct, Distinct-snoc, Bool-cases,
}
use mathlib.Core.Path.{subst}
use mathlib.Core.List.{map-append}
use albion_market_api.Prelude.Int.{pos}
use albion_market_api.Text.{Text, text_eq}
use albion_market_api.Text.Equality.{text_eq_iff}
use albion_market_api.Clock.{Time}
use albion_market_api.Seen.{text_keys}
use albion_market_api.Sql.Upsert.{find_by}
use albion_market_api.Market.Server.{completed}
use albion_market_api.Market.Store.{IngestRequest, complete_request}
use albion_market_api.Market.Store.Replay.{find_request}

abbrev pub request_ids : List IngestRequest → List Text
request_ids rows = map (λ r. r.request_id) rows

-- One row of an identity at most, and each of an ingest that has been completed.
pub record IsLedger (rows : List IngestRequest) : Type 0 where
  pub unique : Distinct (request_ids rows)
  pub all_completed : All (λ r. r.status ≡ completed) rows

abbrev pub completed_row : Time → ℕ → IngestRequest → IngestRequest
completed_row now touched r = record r {
  status = completed;
  current_rows_touched = pos touched;
  completed_at = some now;
}

module _ (now : Time) (request : Text) (touched : ℕ) (new : IngestRequest)
    (is_new : new.request_id ≡ request) where
  absent-In :
      (rows : List IngestRequest)
      → find_request request rows ≡ none
      → In request (request_ids rows)
      → ⊥
  unfolding find_by
  absent-In [] h m = m
  absent-In (r ∷ rows) h m = elim (Bool-cases (text_eq r.request_id request)) [
    | inl e ↦ ground (arith, e, h)
    | inr n ↦ elim m [
      | inl e ↦ cc ((text_eq_iff r.request_id request).1 (sym e))
      | inr later ↦ absent-In rows (rw n at h) later
    ]
  ]

  -- The other rows stay, and the new one is completed.
  complete_request-snoc :
      (rows : List IngestRequest)
      → find_request request rows ≡ none
      → complete_request now request touched (rows ++ new ∷ [])
        ≡ rows ++ completed_row now touched new ∷ []
  unfolding complete_request find_by
  complete_request-snoc [] h =
      let own : text_eq new.request_id request ≡ true =
        (text_eq_iff new.request_id request).1 is_new in
      rw own refl
  complete_request-snoc (r ∷ rows) h = elim (Bool-cases (text_eq r.request_id request)) [
    | inl e ↦ ground (arith, e, h)
    | inr n ↦ rw (n, complete_request-snoc rows (rw n at h)) refl
  ]

  find_request-old :
      (rows : List IngestRequest) (j : Text) (r last : IngestRequest)
      → find_request j rows ≡ some r
      → find_request j (rows ++ last ∷ []) ≡ some r
  unfolding find_by
  find_request-old [] j r last h = cc
  find_request-old (q ∷ rows) j r last h = elim (Bool-cases (text_eq q.request_id j)) [
    | inl e ↦ rw e (rw e at h)
    | inr n ↦ rw n (find_request-old rows j r last (rw n at h))
  ]

  find_request-last :
      (rows : List IngestRequest) (last : IngestRequest)
      → last.request_id ≡ request
      → find_request request rows ≡ none
      → find_request request (rows ++ last ∷ []) ≡ some last
  unfolding find_by
  find_request-last [] last is h = rw ((text_eq_iff last.request_id request).1 is) refl
  find_request-last (q ∷ rows) last is h = elim (Bool-cases (text_eq q.request_id request)) [
    | inl e ↦ ground (arith, e, h)
    | inr n ↦ rw n (find_request-last rows last is (rw n at h))
  ]

  pub complete_request-kept :
      (rows : List IngestRequest) (j : Text) (r : IngestRequest)
      → find_request request rows ≡ none
      → find_request j rows ≡ some r
      → find_request j (complete_request now request touched (rows ++ new ∷ [])) ≡ some r
  complete_request-kept rows j r h found =
      rw (complete_request-snoc rows h) (find_request-old rows j r _ found)

  pub complete_request-new :
      (rows : List IngestRequest)
      → find_request request rows ≡ none
      → find_request request (complete_request now request touched (rows ++ new ∷ []))
        ≡ some (completed_row now touched new)
  complete_request-new rows h =
      rw (complete_request-snoc rows h) (find_request-last rows _ is_new h)

  pub complete_request-IsLedger :
      (rows : List IngestRequest)
      → find_request request rows ≡ none
      → IsLedger rows
      → IsLedger (complete_request now request touched (rows ++ new ∷ []))
  complete_request-IsLedger rows h is =
      let fresh : In new.request_id (request_ids rows) → ⊥ =
        λ m. absent-In rows h (subst (λ j. In j (request_ids rows)) is_new m) in
      rw (complete_request-snoc rows h) (record {
        unique =
            rw (map-append (λ r. r.request_id) rows (completed_row now touched new ∷ []))
              (Distinct-snoc (request_ids rows) new.request_id is.unique fresh);
        all_completed = All-append _ rows _ is.all_completed (refl, tt);
      })
