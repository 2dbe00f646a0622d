-- ===== src/Tests/Queue.antt =====
-- The queue at sample events.
use albion_market_api.Prelude.{
  ℕ, ◌+◌, ◌*◌, ◌≡◌, ◌≢◌, refl, inl, inr, true, false, not, ◌&&◌, ltb, leb, List, [], Distinct,
  arith,
}
use albion_market_api.Prelude.Int.{pos}
use albion_market_api.Int64.{le}
use albion_market_api.Text.{Text, lit}
use albion_market_api.Clock.{second, minute, hour}
use albion_market_api.Billing.Queue.{
  Event, update_event, new_event, enqueue, is_claimable, claim, lease_event, finish_event,
  fail_event, comes_before,
}
use albion_market_api.Billing.Queue.Rows.{ids}
use albion_market_api.Billing.Queue.Invariant.{
  IsSound, Reach, here, next, delivered, claimed, finished,
}
use albion_market_api.Billing.Queue.Reach.{Reach-IsSound}
use albion_market_api.Billing.Queue.Due.{Claims, claim_earliest}
use albion_market_api.Billing.Queue.Leases.{
  claims_differ, leased_not_claimed, fail_event-is_claimable,
}
use albion_market_api.Billing.Retry.{WorkerConfig, accepts_worker, retry_delay}
use albion_market_api.Billing.Retry.Bounds.{accepted_delay}
use albion_market_api.Sql.{select_first}
use albion_market_api.Tests.{day_one, ascii}

abbrev id_one : Text
id_one = lit "a"

abbrev id_two : Text
id_two = lit "aa"

abbrev empty : List (Event ℕ)
empty = []

empty-IsSound : IsSound 3 minute empty
empty-IsSound = record { valid = tt; distinct = tt }

abbrev one_row : List (Event ℕ)
one_row = (enqueue day_one id_one (lit "order_created") 5 empty).1

abbrev leased : List (Event ℕ)
leased = (claim true (λ r. false) (day_one + second) 3 minute (lit "w1") one_row).1

abbrev job : Event ℕ
job = lease_event (day_one + second) (lit "w1") (new_event day_one id_one (lit "order_created") 5)

abbrev finished_rows : List (Event ℕ)
finished_rows = update_event id_one (finish_event (day_one + second) false) leased

run : Reach 3 minute empty finished_rows
unfolding claim enqueue select_first is_claimable comes_before
run =
    next
      (next (next here (delivered day_one id_one (lit "order_created") 5 empty))
        (claimed true (λ r. false) (day_one + second) (lit "w1") one_row))
      (finished (day_one + second) false job leased refl refl)

Reach-IsSound_example : IsSound 3 minute finished_rows
Reach-IsSound_example = Reach-IsSound 3 minute empty-IsSound run

abbrev two_rows : List (Event ℕ)
two_rows = (enqueue day_one id_two (lit "order_created") 6 one_row).1

abbrev job_two : Event ℕ
job_two =
    lease_event (day_one + second) (lit "w2") (new_event day_one id_two (lit "order_created") 6)

two_rows-Distinct : Distinct (ids two_rows)
unfolding enqueue
two_rows-Distinct = ((λ m. elim m [ inl e ↦ cc e | inr n ↦ n ]), ((λ m. m), tt))

claims_differ_example : job_two.event_id ≢ job.event_id
unfolding claim enqueue select_first is_claimable comes_before
claims_differ_example =
    claims_differ 3 minute true true (λ r. false) (λ r. false) (day_one + second) (day_one + second)
      (lit "w1") (lit "w2") two_rows job job_two two_rows-Distinct (omega arith) refl refl

leased_not_claimed_example : job_two.event_id ≢ job.event_id
unfolding claim enqueue select_first is_claimable comes_before
leased_not_claimed_example =
    leased_not_claimed 3 minute true (λ r. false) (day_one + second) (day_one + second) (lit "w2")
      (claim true (λ r. false) (day_one + second) 3 minute (lit "w1") two_rows).1 job job_two
      ((λ m. elim m [ inl e ↦ cc e | inr n ↦ n ]), ((λ m. m), tt)) refl refl refl (omega arith) refl

claim_earliest_example :
    Claims 3 minute
      (λ r. false)
      day_one
      (lit "w1")
      one_row
      (claim true (λ r. false) day_one 3 minute (lit "w1") one_row)
claim_earliest_example = claim_earliest 3 minute (λ r. false) day_one (lit "w1") one_row

fail_event-is_claimable_example :
    is_claimable
      (day_one + minute)
      3
      minute
      (fail_event (day_one + second) 3 false (lit "processing_failed") second job)
    ≡ (not false && ltb job.attempt_count 3 && leb (day_one + second + second) (day_one + minute))
fail_event-is_claimable_example =
    fail_event-is_claimable 3 minute (day_one + second) (day_one + minute) false
      (lit "processing_failed") second job

abbrev pub config : WorkerConfig
config = record {
  poll_interval = pos second;
  job_timeout = pos minute;
  lease_duration = pos (2 * minute);
  base_retry_delay = pos (5 * second);
  max_retry_delay = pos hour;
  batch_size = pos 10;
  max_attempts = pos 8;
}

accepted_delay_example :
    (le config.base_retry_delay (retry_delay config 4 id_one) ≡ true)
    × (le (retry_delay config 4 id_one) config.max_retry_delay ≡ true)
unfolding accepts_worker
accepted_delay_example = accepted_delay config 4 id_one refl
