-- ===== src/Billing/Queue/Leases.antt =====
-- The leases and the retries of the queue: internal/billing/webhook_queue.go.
use albion_market_api.Prelude.{
  ℕ, ◌+◌, ◌≤◌, ◌≡◌, ◌≢◌, refl, ap, ◌∙◌, inl, inr, Bool, false, not, ◌&&◌, some, List, arith, ltb,
  leb, Option-cases, Distinct,
}
use albion_market_api.Text.{Text}
use albion_market_api.Text.Equality.{text_eq_refl}
use albion_market_api.Clock.{Time}
use albion_market_api.Billing.Queue.{
  Event, processing, find_event, update_event, is_claimable, lease_event, candidate, taken, claim,
  comes_before, is_open, fail_event,
}
use albion_market_api.Billing.Queue.Pick.{taken-some, candidate-IsFirst, open-is_claimable}
use albion_market_api.Billing.Queue.Rows.{
  ids, find_event-In, find_event-update_event, ids-update_event,
}
use albion_market_api.Sql.First.{IsFirst}

module _ {P : Type 0} (max_attempts lease : ℕ) where
  live_not_claimable :
      (now t : Time) (r : Event P)
      → r.status ≡ processing
      → r.locked_at ≡ some t
      → now ≤ t + lease
      → is_claimable now max_attempts lease r ≡ false
  unfolding is_claimable
  live_not_claimable now t r p l h = ground arith

  -- The job that `claim` returns was a claimable row of the table, and is returned as the new
  -- table holds it; the rows of all other events are as they were.
  pub claim-some :
      (answered : Bool) (skipped : Event P → Bool) (now : Time) (owner : Text)
      (rows : List (Event P)) (job : Event P)
      → Distinct (ids rows)
      → (claim answered skipped now max_attempts lease owner rows).0 ≡ some job
      → (r : Event P) × IsFirst comes_before (is_open skipped now max_attempts lease) rows r
        × (job ≡ lease_event now owner r)
        × ((claim answered skipped now max_attempts lease owner rows).1
            ≡ update_event r.event_id (lease_event now owner) rows)
  unfolding claim
  claim-some answered skipped now owner rows job d h =
      elim (Option-cases (taken answered (candidate skipped now max_attempts lease rows))) [
        | inl shut ↦ absurd (cc (rw (shut, claim) at h))
        | inr (r, found) ↦ (
          r,
          candidate-IsFirst skipped now max_attempts lease rows r (taken-some answered _ r found),
          cc (rw (found, claim) at h),
          rw (found, claim) refl,
        )
      ]

  -- In a table with one row per event: while the lease of a processing event runs, no claim returns
  -- it, whichever worker asks.
  pub leased_not_claimed :
      (answered : Bool) (skipped : Event P → Bool) (now t : Time) (owner : Text)
      (rows : List (Event P)) (r job : Event P)
      → Distinct (ids rows)
      → find_event r.event_id rows ≡ some r
      → r.status ≡ processing
      → r.locked_at ≡ some t
      → now ≤ t + lease
      → (claim answered skipped now max_attempts lease owner rows).0 ≡ some job
      → job.event_id ≢ r.event_id
  leased_not_claimed answered skipped now t owner rows r job d h p l early got same =
      let (q, pick, is, table) = claim-some answered skipped now owner rows job d got in
      let free = open-is_claimable skipped now max_attempts lease q pick.passes in
      let twin : q.event_id ≡ r.event_id =
        unfold lease_event in cc (ap (λ (x : Event P). x.event_id) is) in
      let one : q ≡ r = cc (h, find_event-In rows q d pick.stands, twin) in
      absurd (cc (free, live_not_claimable now t r p l early, one))

  -- In a table with one row per event: a claim, and another one in the table that it leaves, at most
  -- one lease later, return two different events.
  pub claims_differ :
      (answered answered' : Bool) (skipped skipped' : Event P → Bool) (now later : Time)
      (owner owner' : Text) (rows : List (Event P)) (job job' : Event P)
      → Distinct (ids rows)
      → later ≤ now + lease
      → (claim answered skipped now max_attempts lease owner rows).0 ≡ some job
      → (claim answered' skipped' later max_attempts lease owner'
          (claim answered skipped now max_attempts lease owner rows).1).0
        ≡ some job'
      → job'.event_id ≢ job.event_id
  unfolding lease_event
  claims_differ answered answered' skipped skipped' now later owner owner' rows job job' d soon
        first second =
      let (r, pick, is, table) = claim-some answered skipped now owner rows job d first in
      let keeps : (q : Event P) → (lease_event now owner q).event_id ≡ q.event_id =
        unfold lease_event in λ q. refl in
      let held : find_event r.event_id (update_event r.event_id (lease_event now owner) rows)
          ≡ some (lease_event now owner r) =
        find_event-update_event r.event_id (lease_event now owner) keeps rows r.event_id r
          (find_event-In rows r d pick.stands)
        ∙ rw (text_eq_refl r.event_id) refl in
      rw is (
        leased_not_claimed answered' skipped' later now owner' _ (lease_event now owner r) job'
          (rw (table, ids-update_event r.event_id (lease_event now owner) keeps rows) d)
          (rw (table, keeps r) held) (unfold lease_event in refl) (unfold lease_event in refl) soon
          second)

  -- After a failure an event is claimable at a time exactly if the failure was not permanent,
  -- attempts are left, and its retry date, the delay after the failure, has come.
  pub fail_event-is_claimable :
      (now later : Time) (permanent : Bool) (message : Text) (delay : ℕ) (r : Event P)
      → is_claimable later max_attempts lease
          (fail_event now max_attempts permanent message delay r)
        ≡ (not permanent && ltb r.attempt_count max_attempts && leb (now + delay) later)
  unfolding is_claimable fail_event
  fail_event-is_claimable now later permanent message delay r = ground arith
