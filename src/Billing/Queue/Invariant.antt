-- ===== src/Billing/Queue/Invariant.antt =====
-- The queue as a transition system: any number of workers and webhook deliveries, one statement at
-- a time, and what holds of every table that they reach.
use albion_market_api.Prelude.{
  ℕ, ◌≤◌, ◌<◌, ◌≡◌, ◌≢◌, ◌⊎◌, Bool, true, false, not, Option, none, some, List, arith, All,
  Distinct,
}
use albion_market_api.Text.{Text}
use albion_market_api.Clock.{Time}
use albion_market_api.Billing.Queue.{
  Event, EventStatus, pending, processing, failed, dead_letter, is_finished, is_processing,
  find_event, update_event, new_event, touch_duplicate, enqueue, lease_event, claim, finish_event,
  fail_event,
}
use albion_market_api.Billing.Queue.Rows.{ids}

abbrev pub is_some {ℓ} : {A : Type ℓ} → Option A → Bool
is_some none = false
is_some (some a) = true

abbrev pub is_dead : EventStatus → Bool
is_dead dead_letter = true
is_dead _ = false

-- What holds of every row between two statements. The lease columns are set exactly while the
-- event is processing, the dead letter date exactly on dead letters; a retry has a date and
-- attempts left; and the payload is erased exactly when the event is finished.
pub record IsValid {P : Type 0} (max_attempts : ℕ) (r : Event P) : Type 0 where
  pub attempts_capped : r.attempt_count ≤ max_attempts
  pub leased : is_some r.locked_at ≡ is_processing r.status
  pub owned : is_some r.locked_by ≡ is_processing r.status
  pub buried : is_some r.dead_letter_at ≡ is_dead r.status
  pub attempted : r.status ≢ pending → 0 < r.attempt_count
  pub fresh : r.status ≡ pending → r.attempt_count ≡ 0
  pub retry_due : r.status ≡ failed → is_some r.next_attempt_at ≡ true
  pub retry_left : r.status ≡ failed → r.attempt_count < max_attempts
  pub erased : is_some r.payload ≡ not (is_finished r.status)
  pub dated : is_some r.processed_at ≡ is_finished r.status

module _ {P : Type 0} (max_attempts lease : ℕ) where
  -- One statement. A delivery may come at any time; a worker leases a job, and then finishes it or
  -- records its failure while it still holds it: its row is `processing`.
  pub data Step : List (Event P) → List (Event P) → Type 0 where
    delivered :
        (now : Time) (key event_type : Text) (payload : P) (rows : List (Event P))
        → Step rows (enqueue now key event_type payload rows).1
    claimed :
        (answered : Bool) (skipped : Event P → Bool) (now : Time) (owner : Text)
        (rows : List (Event P))
        → Step rows (claim answered skipped now max_attempts lease owner rows).1
    finished :
        (now : Time) (was_ignored : Bool) (r : Event P) (rows : List (Event P))
        → find_event r.event_id rows ≡ some r
        → r.status ≡ processing
        → Step rows (update_event r.event_id (finish_event now was_ignored) rows)
    gave_up :
        (now : Time) (permanent : Bool) (message : Text) (delay : ℕ) (r : Event P)
        (rows : List (Event P))
        → find_event r.event_id rows ≡ some r
        → r.status ≡ processing
        → Step rows
            (update_event r.event_id (fail_event now max_attempts permanent message delay) rows)

  pub data Reach (from : List (Event P)) : List (Event P) → Type 0 where
    here : Reach from from
    next : {rows later : List (Event P)} → Reach from rows → Step rows later → Reach from later

  -- Every row is valid, and no event stands twice.
  pub record IsSound (rows : List (Event P)) : Type 0 where
    pub valid : All (IsValid max_attempts) rows
    pub distinct : Distinct (ids rows)

  pub new_event-IsValid :
      (now : Time) (key event_type : Text) (payload : P)
      → IsValid max_attempts (new_event now key event_type payload)
  unfolding new_event
  new_event-IsValid now key event_type payload = ground arith

  pub touch_duplicate-IsValid :
      (now : Time) (r : Event P)
      → IsValid max_attempts r
      → IsValid max_attempts (touch_duplicate now r)
  unfolding touch_duplicate
  touch_duplicate-IsValid now r v = ground arith

  pub lease_event-IsValid :
      (now : Time) (owner : Text) (r : Event P)
      → r.attempt_count < max_attempts
      → (r.status ≡ pending) ⊎ (r.status ≡ failed) ⊎ (r.status ≡ processing)
      → IsValid max_attempts r
      → IsValid max_attempts (lease_event now owner r)
  unfolding lease_event
  lease_event-IsValid now owner r h w v = ground arith

  pub finish_event-IsValid :
      (now : Time) (was_ignored : Bool) (r : Event P)
      → r.status ≡ processing
      → IsValid max_attempts r
      → IsValid max_attempts (finish_event now was_ignored r)
  unfolding finish_event
  finish_event-IsValid now was_ignored r h v = ground arith

  pub fail_event-IsValid :
      (now : Time) (permanent : Bool) (message : Text) (delay : ℕ) (r : Event P)
      → r.status ≡ processing
      → IsValid max_attempts r
      → IsValid max_attempts (fail_event now max_attempts permanent message delay r)
  unfolding fail_event
  fail_event-IsValid now permanent message delay r h v = ground arith
