-- ===== src/Billing/Queue.antt =====
-- internal/billing/webhook_queue.go and webhook_types.go: the table `billing_webhook_events` as a
-- queue. The rows are those of the service's provider, the only ones that any statement touches.
-- The proofs are in the modules below.
pub mod Pick
pub mod Rows
pub mod Invariant
pub mod Reach
pub mod Leases
pub mod Due
use albion_market_api.Prelude.{
  ℕ, suc, ◌+◌, ◌-◌, ◌≡◌, Bool, true, false, not, ◌&&◌, ◌||◌, Option, none, some, List, [], ◌∷◌,
  ◌++◌, map, ltb, leb, ◌==◌, if◌then◌else◌,
}
use albion_market_api.Text.{Text, text_eq}
use albion_market_api.Sql.{select_first}
use albion_market_api.Clock.{Time, coalesce, least}

-- The check constraint of the column `status` in migrations/0018_billing_webhook_queue.sql.
pub data EventStatus : Type 0 where
  pending processing processed ignored failed dead_letter : EventStatus

-- A row. `payload` is the sanitised envelope, of a type that the queue does not look into;
-- `none` is the empty object `{}`.
pub record Event (P : Type 0) : Type 0 where
  pub event_id : Text
  pub event_type : Text
  pub payload : Option P
  pub status : EventStatus
  pub attempt_count : ℕ
  pub delivery_count : ℕ
  pub created_at : Time
  pub last_received_at : Time
  pub next_attempt_at : Option Time
  pub locked_at : Option Time
  pub locked_by : Option Text
  pub last_attempt_at : Option Time
  pub processed_at : Option Time
  pub dead_letter_at : Option Time
  pub error_message : Option Text

abbrev pub is_failed : EventStatus → Bool
is_failed failed = true
is_failed _ = false

-- `status in ('pending', 'failed')`
abbrev pub is_waiting : EventStatus → Bool
is_waiting pending = true
is_waiting failed = true
is_waiting _ = false

abbrev pub is_processing : EventStatus → Bool
is_processing processing = true
is_processing _ = false

-- `status == "processed" || status == "ignored"`
abbrev pub is_finished : EventStatus → Bool
is_finished processed = true
is_finished ignored = true
is_finished _ = false

-- `a < b`, where `null` makes the test fail.
abbrev pub before : Option Time → Time → Bool
before none t = false
before (some s) t = ltb s t

module _ {P : Type 0} where
  unfoldable pub find_event : Text → List (Event P) → Option (Event P)
  find_event key [] = none
  find_event key (r ∷ rs) = if text_eq r.event_id key then some r else find_event key rs

  -- `update ... where provider_event_id = key`
  unfoldable pub update_event : Text → (Event P → Event P) → List (Event P) → List (Event P)
  update_event key f [] = []
  update_event key f (r ∷ rs) = (if text_eq r.event_id key then f r else r) ∷ update_event key f rs

  -- The values of `insertEvent`.
  unfoldable pub new_event : Time → Text → Text → P → Event P
  new_event now key event_type payload = record {
    event_id = key;
    event_type = event_type;
    payload = some payload;
    status = pending;
    attempt_count = 0;
    delivery_count = 1;
    created_at = now;
    last_received_at = now;
    next_attempt_at = some now;
    locked_at = none;
    locked_by = none;
    last_attempt_at = none;
    processed_at = none;
    dead_letter_at = none;
    error_message = none;
  }

  -- The assignments of `touchDuplicate`.
  unfoldable pub touch_duplicate : Time → Event P → Event P
  touch_duplicate now r = record r {
    delivery_count = r.delivery_count + 1;
    last_received_at = now;
    next_attempt_at =
        if is_failed r.status
        then some (least (coalesce r.next_attempt_at now) now)
        else r.next_attempt_at;
  }

  -- The statements of `EnqueueWebhook`, behind its validation: the status and the duplicate flag
  -- of its result, with the new table. `none` is the status `queued`.
  unfoldable pub enqueue :
      Time → Text → Text → P → List (Event P) → (Option EventStatus × Bool) × List (Event P)
  unfolding find_event new_event update_event touch_duplicate
  enqueue now key event_type payload rows = elim (find_event key rows) [
    | none ↦ ((none, false), rows ++ new_event now key event_type payload ∷ [])
    | some r ↦ ((some r.status, true), update_event key (touch_duplicate now) rows)
  ]

  -- The `where` clause of the statement `claim`.
  unfoldable pub is_claimable : Time → ℕ → ℕ → Event P → Bool
  is_claimable now max_attempts lease r =
      ltb r.attempt_count max_attempts
      && ((is_waiting r.status && leb (coalesce r.next_attempt_at r.created_at) now)
          || (is_processing r.status && before r.locked_at (now - lease)))

  -- `order by coalesce(next_attempt_at, created_at), created_at`: does `r` come strictly before `s`?
  unfoldable pub comes_before : Event P → Event P → Bool
  comes_before r s =
      let due_r = coalesce r.next_attempt_at r.created_at in
      let due_s = coalesce s.next_attempt_at s.created_at in
      ltb due_r due_s || (due_r == due_s && ltb r.created_at s.created_at)

  -- The rows that the query `candidate` may take: `skipped` tells those that another transaction
  -- has locked.
  abbrev pub is_open : (Event P → Bool) → Time → ℕ → ℕ → Event P → Bool
  is_open skipped now max_attempts lease r =
      is_claimable now max_attempts lease r && not (skipped r)

  unfoldable pub candidate : (Event P → Bool) → Time → ℕ → ℕ → List (Event P) → Option (Event P)
  candidate skipped now max_attempts lease rows =
      select_first comes_before (is_open skipped now max_attempts lease) rows

  -- The assignments of `claim`.
  unfoldable pub lease_event : Time → Text → Event P → Event P
  lease_event now owner r = record r {
    status = processing;
    attempt_count = r.attempt_count + 1;
    locked_at = some now;
    locked_by = some owner;
    last_attempt_at = some now;
  }

  -- What the statement `claim` takes: nothing if it fails, as it does where a check constraint of the
  -- table refuses the new row.
  abbrev pub taken : Bool → Option (Event P) → Option (Event P)
  taken false r = none
  taken true r = r

  -- `claim`: the leased job, if there is one, and the new table. `answered` tells whether the statement
  -- succeeds; its error is logged and no job is run.
  unfoldable pub claim :
      Bool
      → (Event P → Bool)
      → Time
      → ℕ
      → ℕ
      → Text
      → List (Event P)
      → Option (Event P) × List (Event P)
  unfolding candidate lease_event update_event
  claim answered skipped now max_attempts lease owner rows =
      elim (taken answered (candidate skipped now max_attempts lease rows)) [
        | none ↦ (none, rows)
        | some r ↦
            (some (lease_event now owner r), update_event r.event_id (lease_event now owner) rows)
      ]

  -- `finishProductionWebhook`: the final status is `processed` or `ignored`.
  unfoldable pub finish_event : Time → Bool → Event P → Event P
  finish_event now was_ignored r = record r {
    status = if was_ignored then ignored else processed;
    processed_at = some now;
    error_message = none;
    next_attempt_at = none;
    locked_at = none;
    locked_by = none;
    payload = none;
  }

  -- The assignments of `finalizeFailure`.
  unfoldable pub fail_event : Time → ℕ → Bool → Text → ℕ → Event P → Event P
  fail_event now max_attempts permanent message delay r =
      let dead = permanent || leb max_attempts r.attempt_count in
      record r {
        status = if dead then dead_letter else failed;
        error_message = some message;
        next_attempt_at = if dead then none else some (now + delay);
        dead_letter_at = if dead then some now else none;
        locked_at = none;
        locked_by = none;
      }
