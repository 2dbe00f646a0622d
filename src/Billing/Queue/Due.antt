-- ===== src/Billing/Queue/Due.antt =====
-- The event that a claim takes: internal/billing/webhook_queue.go.
use albion_market_api.Prelude.{
  ℕ, ◌+◌, ◌-◌, ◌≤◌, ◌<◌, ◌≡◌, ◌⊎◌, refl, inl, inr, Bool, true, false, ◌&&◌, Option, none, some,
  List, arith, In, leb, Option-cases, Bool-cases,
}
use albion_market_api.Text.{Text}
use albion_market_api.Clock.{Time, coalesce}
use albion_market_api.Billing.Queue.{
  Event, EventStatus, pending, processing, processed, ignored, failed, dead_letter, before,
  is_waiting, is_processing, is_claimable, comes_before, is_open, candidate, lease_event,
  update_event, claim,
}
use albion_market_api.Billing.Queue.Pick.{candidate-IsFirst, candidate-none, open-is_claimable}

-- When the next attempt of an event is due.
abbrev pub due_at : {P : Type 0} → Event P → Time
due_at r = coalesce r.next_attempt_at r.created_at

locked_before :
    (lease : ℕ) (o : Option Time) (now : Time)
    → before o (now - lease) ≡ true
    → (t : Time) × (o ≡ some t) × (t + lease < now)
locked_before lease none now h = cc
locked_before lease (some t) now h = (t, refl, ground arith)

is_waiting-cases : (s : EventStatus) → is_waiting s ≡ true → (s ≡ pending) ⊎ (s ≡ failed)
is_waiting-cases pending h = inl refl
is_waiting-cases failed h = inr refl
is_waiting-cases processing h = cc
is_waiting-cases processed h = cc
is_waiting-cases ignored h = cc
is_waiting-cases dead_letter h = cc

is_processing-cases : (s : EventStatus) → is_processing s ≡ true → s ≡ processing
is_processing-cases pending h = cc
is_processing-cases failed h = cc
is_processing-cases processing h = refl
is_processing-cases processed h = cc
is_processing-cases ignored h = cc
is_processing-cases dead_letter h = cc

module _ {P : Type 0} (max_attempts lease : ℕ) where
  -- Attempts are left, and the event waits and its date has come, or its lease has run out.
  pub record IsDue (now : Time) (r : Event P) : Type 0 where
    pub attempts_left : r.attempt_count < max_attempts
    pub reason :
        (((r.status ≡ pending) ⊎ (r.status ≡ failed)) × (due_at r ≤ now))
        ⊎ ((r.status ≡ processing) × (t : Time) × (r.locked_at ≡ some t) × (t + lease < now))

  -- `r` is due before `s`, or at the same time and was created no later.
  pub record IsSooner (r s : Event P) : Type 0 where
    pub due_first : due_at r ≤ due_at s
    pub created_next : due_at r ≡ due_at s → r.created_at ≤ s.created_at

  is_claimable-IsDue :
      (now : Time) (r : Event P) → is_claimable now max_attempts lease r ≡ true → IsDue now r
  unfolding is_claimable
  is_claimable-IsDue now r h = record {
    attempts_left = ground (arith, h);
    reason = elim (Bool-cases (is_waiting r.status && leb (due_at r) now)) [
      | inl w ↦ inl (is_waiting-cases r.status (ground (arith, w)), ground (arith, w))
      | inr n ↦
          let k : (is_processing r.status && before r.locked_at (now - lease)) ≡ true =
            ground (arith, h, n) in
          let (t, is, out) = locked_before lease r.locked_at now (ground (arith, k)) in
          inr (is_processing-cases r.status (ground (arith, k)), t, is, out)
    ];
  }

  IsDue-is_claimable :
      (now : Time) (r : Event P) → IsDue now r → is_claimable now max_attempts lease r ≡ true
  unfolding is_claimable
  IsDue-is_claimable now r d =
      let left = d.attempts_left in
      elim d.reason [
        | inl (inl s, e) ↦ rw s (ground (arith, left, e))
        | inl (inr s, e) ↦ rw s (ground (arith, left, e))
        | inr (s, t, is, out) ↦ rw (s, is) (ground (arith, left, out))
      ]

  comes_before-IsSooner : (r s : Event P) → comes_before s r ≡ false → IsSooner r s
  unfolding comes_before
  comes_before-IsSooner r s h = record {
    due_first = ground (arith, h);
    created_next = λ e. ground (arith, h, e);
  }

  -- What a claim that succeeds makes of the table.
  abbrev pub Claims :
      (Event P → Bool) → Time → Text → List (Event P) → Option (Event P) × List (Event P) → Type 0
  Claims skipped now owner rows after =
      ((after ≡ (none, rows)) × ((s : Event P) → In s rows → skipped s ≡ false → IsDue now s → ⊥))
      ⊎ ((r : Event P) × In r rows
          × (skipped r ≡ false)
          × IsDue now r
          × ((s : Event P) → In s rows → skipped s ≡ false → IsDue now s → IsSooner r s)
          × (after ≡ (
            some (lease_event now owner r),
            update_event r.event_id (lease_event now owner) rows,
          )))

  -- A claim whose statement succeeds returns no job and changes nothing if no event that others have
  -- not locked is due; otherwise it leases, of those that are, one that is due first, and of these the
  -- one that was created first.
  pub claim_earliest :
      (skipped : Event P → Bool) (now : Time) (owner : Text) (rows : List (Event P))
      → Claims skipped now owner rows (claim true skipped now max_attempts lease owner rows)
  unfolding claim
  claim_earliest skipped now owner rows =
      let passes : (s : Event P)
          → skipped s ≡ false
          → IsDue now s
          → is_open skipped now max_attempts lease s ≡ true =
        λ s free d. let c = IsDue-is_claimable now s d in ground (arith, c, free) in
      elim (Option-cases (candidate skipped now max_attempts lease rows)) [
        | inl shut ↦ inl (
          rw (shut, claim) refl,
          λ s m free d.
              cc (candidate-none skipped now max_attempts lease rows shut s m, passes s free d),
        )
        | inr (r, found) ↦
            let pick = candidate-IsFirst skipped now max_attempts lease rows r found in
            inr (
              r,
              pick.stands,
              ground (arith, pick.passes),
              is_claimable-IsDue now r
                  (open-is_claimable skipped now max_attempts lease r pick.passes),
              λ s m free d. comes_before-IsSooner r s (pick.first s m (passes s free d)),
              rw (found, claim) refl,
            )
      ]
