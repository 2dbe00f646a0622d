-- ===== src/Billing/Queue/Reach.antt =====
-- The statements of the queue (internal/billing/webhook_queue.go) and the soundness of its table.
use albion_market_api.Prelude.{
  ℕ, ◌<◌, ◌≡◌, refl, ap, ◌⊎◌, inl, inr, Bool, true, some, List, [], ◌∷◌, ◌++◌, arith, In,
  All-append, Distinct, Distinct-snoc, Option-cases,
}
use mathlib.Core.List.{map-append}
use albion_market_api.Text.{Text}
use albion_market_api.Clock.{Time}
use albion_market_api.Billing.Queue.{
  Event, pending, processing, failed, find_event, update_event, new_event, touch_duplicate, enqueue,
  is_claimable, lease_event, candidate, taken, claim, finish_event, fail_event,
}
use albion_market_api.Billing.Queue.Pick.{taken-some, candidate-IsFirst, open-is_claimable}
use albion_market_api.Billing.Queue.Rows.{
  ids, find_event-none, find_event-In, ids-update_event, All-update_event,
}
use albion_market_api.Billing.Queue.Invariant.{
  IsValid, Step, Reach, IsSound, here, next, delivered, claimed, finished, gave_up,
  new_event-IsValid, touch_duplicate-IsValid, lease_event-IsValid, finish_event-IsValid,
  fail_event-IsValid,
}

module _ {P : Type 0} (max_attempts lease : ℕ) where
  pub is_claimable-can :
      (now : Time) (r : Event P)
      → is_claimable now max_attempts lease r ≡ true
      → (r.attempt_count < max_attempts)
        × ((r.status ≡ pending) ⊎ (r.status ≡ failed) ⊎ (r.status ≡ processing))
  unfolding is_claimable
  is_claimable-can now r h = ground arith

  update-IsSound :
      (key : Text) (f : Event P → Event P) (rows : List (Event P))
      → ((r : Event P) → (f r).event_id ≡ r.event_id)
      → ((r : Event P)
          → In r rows
          → r.event_id ≡ key
          → IsValid max_attempts r
          → IsValid max_attempts (f r))
      → IsSound max_attempts lease rows
      → IsSound max_attempts lease (update_event key f rows)
  update-IsSound key f rows keeps step s = record {
    valid = All-update_event (IsValid max_attempts) key f rows step s.valid;
    distinct = rw (ids-update_event key f keeps rows) s.distinct;
  }

  -- Of two rows with one identity the table holds one.
  same_row :
      (rows : List (Event P)) (r q : Event P)
      → Distinct (ids rows)
      → In q rows
      → q.event_id ≡ r.event_id
      → find_event r.event_id rows ≡ some r
      → q ≡ r
  same_row rows r q d m e h = cc (find_event-In rows q d m, ap (λ k. find_event k rows) e)

  enqueue-IsSound :
      (now : Time) (key event_type : Text) (payload : P) (rows : List (Event P))
      → IsSound max_attempts lease rows
      → IsSound max_attempts lease (enqueue now key event_type payload rows).1
  unfolding enqueue
  enqueue-IsSound now key event_type payload rows s = elim (Option-cases (find_event key rows)) [
    | inl new ↦
        let added : IsSound max_attempts lease (rows ++ new_event now key event_type payload ∷ []) =
          record {
            valid =
                All-append (IsValid max_attempts) rows (new_event now key event_type payload ∷ [])
                  s.valid (new_event-IsValid max_attempts lease now key event_type payload, tt);
            distinct = rw (map-append) (
                unfold new_event in
                Distinct-snoc (ids rows) key s.distinct (find_event-none key rows new));
          } in
        rw (new, enqueue) added
    | inr (r, old) ↦
        rw (old, enqueue)
          (update-IsSound key (touch_duplicate now) rows (unfold touch_duplicate in λ q. refl)
            (λ q m e v. touch_duplicate-IsValid max_attempts lease now q v) s)
  ]

  claim-IsSound :
      (answered : Bool) (skipped : Event P → Bool) (now : Time) (owner : Text)
      (rows : List (Event P))
      → IsSound max_attempts lease rows
      → IsSound max_attempts lease (claim answered skipped now max_attempts lease owner rows).1
  unfolding claim
  claim-IsSound answered skipped now owner rows s =
      elim (Option-cases (taken answered (candidate skipped now max_attempts lease rows))) [
        | inl shut ↦ rw (shut, claim) s
        | inr (r, found) ↦
            let pick =
              candidate-IsFirst skipped now max_attempts lease rows r
                (taken-some answered _ r found) in
            let (left, can) =
              is_claimable-can now r
                (open-is_claimable skipped now max_attempts lease r pick.passes) in
            rw (found, claim)
              (update-IsSound r.event_id (lease_event now owner) rows
                (unfold lease_event in λ q. refl)
                (λ q m e v.
                  let same =
                    same_row rows r q s.distinct m e
                      (find_event-In rows r s.distinct pick.stands) in
                  lease_event-IsValid max_attempts lease now owner q (rw same left) (rw same can) v)
                s)
      ]

  pub Step-IsSound :
      {rows later : List (Event P)}
      → Step max_attempts lease rows later
      → IsSound max_attempts lease rows
      → IsSound max_attempts lease later
  Step-IsSound (delivered now key event_type payload rows) s =
      enqueue-IsSound now key event_type payload rows s
  Step-IsSound (claimed answered skipped now owner rows) s =
      claim-IsSound answered skipped now owner rows s
  Step-IsSound (finished now was_ignored r rows h p) s =
      update-IsSound r.event_id (finish_event now was_ignored) rows
        (unfold finish_event in λ q. refl)
        (λ q m e v.
          finish_event-IsValid max_attempts lease now was_ignored q
            (rw (same_row rows r q s.distinct m e h) p) v)
        s
  Step-IsSound (gave_up now permanent message delay r rows h p) s =
      update-IsSound r.event_id (fail_event now max_attempts permanent message delay) rows
        (unfold fail_event in λ q. refl)
        (λ q m e v.
          fail_event-IsValid max_attempts lease now permanent message delay q
            (rw (same_row rows r q s.distinct m e h) p) v)
        s

  -- Every table that the statements reach from a sound one is sound: each event has one row, with at
  -- most `max_attempts` attempts; its lease columns are set exactly while it is processing, its dead
  -- letter date exactly on dead letters; a failed event has a retry date and attempts left; and the
  -- payload is erased, and the date of processing set, exactly when the event is finished.
  pub Reach-IsSound :
      {rows later : List (Event P)}
      → IsSound max_attempts lease rows
      → Reach max_attempts lease rows later
      → IsSound max_attempts lease later
  Reach-IsSound s here = s
  Reach-IsSound s (next r st) = Step-IsSound st (Reach-IsSound s r)
