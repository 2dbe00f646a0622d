-- ===== src/Billing/Processing/Outcome.antt =====
-- What the processing of one job does to the queue and to the tables.
use albion_market_api.Prelude.{
  ℕ, ◌≡◌, refl, inl, inr, Bool, true, false, not, ◌||◌, ◌==◌, Option, some, List, Result-cases, ok,
  err, >>=-eq-ok, fail_if,
}
use albion_market_api.Prelude.Int.{ℤ, pos_part}
use albion_market_api.Text.{Text, Platform, lit, has_prefix, byte_len, trim_space}
use albion_market_api.Clock.{Time}
use albion_market_api.Billing.Queue.{
  processing, Event, is_finished, find_event, update_event, finish_event, fail_event,
}
use albion_market_api.Billing.Queue.Invariant.{Reach, here, next, finished, gave_up}
use albion_market_api.Billing.Webhook.{
  Envelope, WebhookError, WebhookScope, is_invalid_webhook, is_supported_event, validate_scope,
}
use albion_market_api.Billing.Subscriptions.{Service, Tables}
use albion_market_api.Billing.Handlers.{process_event}
use albion_market_api.Billing.Retry.{WorkerConfig, retry_delay}
use albion_market_api.Billing.Processing.{
  WebhookResult, safe_error, decoded, process_locked, process_webhook_event, finalize_failure,
  process_one,
}

module _ ⦃go : Platform⦄ {P : Type 0} (scope : WebhookScope) (s : Service) (config : WorkerConfig)
    (interval : ℤ → ℕ) where
  -- The two ways in which a job can go: the decoded and accepted event is handled, its row is finished
  -- and the tables are those of the handler; or it fails, the tables are as before, and the row gets
  -- the failure, or is as before if that cannot be recorded.
  pub data Outcome (now : Time) (recorded : Bool) (body : Option Envelope) (r : Event P)
      (rows : List (Event P)) (db : Tables) : List (Event P) × Tables → Type 0 where
    applied :
        (e : Envelope) (done : Bool × Tables)
        → decoded body ≡ ok e
        → validate_scope scope e ≡ ok tt
        → process_event s now r.event_id e db ≡ ok done
        → Outcome now recorded body r rows db
            (update_event r.event_id (finish_event now (not done.0)) rows, done.1)
    failed :
        (x : WebhookError)
        → process_webhook_event scope s now r.event_id body rows db ≡ err x
        → recorded ≡ true
        → Outcome now recorded body r rows db (
          update_event r.event_id
              (fail_event now
                (pos_part config.max_attempts)
                (is_invalid_webhook x)
                (safe_error x)
                (interval (retry_delay config r.attempt_count r.event_id)))
              rows,
          db,
        )
    unrecorded :
        (x : WebhookError)
        → process_webhook_event scope s now r.event_id body rows db ≡ err x
        → recorded ≡ false
        → Outcome now recorded body r rows db (rows, db)

module _ ⦃go : Platform⦄ {P : Type 0} (scope : WebhookScope) (s : Service) where
  -- A successful processing went through to the locked row.
  process_webhook_event-locked :
      (now : Time) (event_id : Text) (body : Option Envelope) (rows : List (Event P)) (db : Tables)
      (x : WebhookResult × List (Event P) × Tables)
      → process_webhook_event scope s now event_id body rows db ≡ ok x
      → (e : Envelope) × (decoded body ≡ ok e)
        × (validate_scope scope e ≡ ok tt)
        × (process_locked scope s now event_id e rows db (find_event event_id rows) ≡ ok x)
  unfolding process_webhook_event
  process_webhook_event-locked now event_id body rows db x h =
      let (x₀, h₀, k₀) =
        >>=-eq-ok
          (fail_if (not (has_prefix event_id (lit "sha256:")) || not (byte_len event_id == 71)) _) _
          h in
      let (e, he, ke) = >>=-eq-ok (decoded body) _ k₀ in
      let (x₁, h₁, k₁) =
        >>=-eq-ok (fail_if (not (is_supported_event (trim_space e.event_name))) _) _ ke in
      let (x₂, h₂, k₂) = >>=-eq-ok (validate_scope scope e) _ k₁ in (e, he, h₂, k₂)

  locked_live :
      (now : Time) (event_id : Text) (e : Envelope) (rows : List (Event P)) (db : Tables)
      (r : Event P) (x : WebhookResult × List (Event P) × Tables)
      → is_finished r.status ≡ false
      → process_locked scope s now event_id e rows db (some r) ≡ ok x
      → (done : Bool × Tables) × (process_event s now event_id e db ≡ ok done)
        × (x.1 ≡ update_event event_id (finish_event now (not done.0)) rows)
        × (x.2 ≡ done.1)
  unfolding process_locked
  locked_live now event_id e rows db r x live h =
      let (done, hd, k) = >>=-eq-ok (process_event s now event_id e db) _ (rw live at h) in
      (done, hd, cc k, cc k)

  module _ (config : WorkerConfig) (interval : ℤ → ℕ) (lease : ℕ) where
    live : (r : Event P) → r.status ≡ processing → is_finished r.status ≡ false
    live r p = rw p refl

    -- What one outcome means for the queue: at most one step.
    Outcome-Reach :
        (now : Time) (recorded : Bool) (body : Option Envelope) (r : Event P)
        (rows : List (Event P)) (db : Tables) {after : List (Event P) × Tables}
        → find_event r.event_id rows ≡ some r
        → r.status ≡ processing
        → Outcome scope s config interval now recorded body r rows db after
        → Reach (pos_part config.max_attempts) lease rows after.0
    Outcome-Reach now recorded body r rows db h p (applied e done _ _ _) =
        next here (finished now (not done.0) r rows h p)
    Outcome-Reach now recorded body r rows db h p (failed x _ _) = next here (
        gave_up now (is_invalid_webhook x) (safe_error x)
          (interval (retry_delay config r.attempt_count r.event_id)) r rows h p)
    Outcome-Reach now recorded body r rows db h p (unrecorded x _ _) = here

    failed-Outcome :
        (now : Time) (recorded : Bool) (body : Option Envelope) (r : Event P)
        (rows : List (Event P)) (db : Tables) (x : WebhookError)
        → find_event r.event_id rows ≡ some r
        → process_webhook_event scope s now r.event_id body rows db ≡ err x
        → Outcome scope s config interval now recorded body r rows db
            (process_one scope s config interval now recorded r.event_id body rows db)
    unfolding process_one finalize_failure
    failed-Outcome now true body r rows db x h worse =
        rw (worse, process_one, h, finalize_failure) (failed x worse refl)
    failed-Outcome now false body r rows db x h worse =
        rw (worse, process_one) (unrecorded x worse refl)

    -- The processing of a job that is leased takes the queue at most one step further, and either
    -- finishes the row of the event together with the tables that the handler returned, or leaves the
    -- tables as they were and records the failure in the row, or, where that statement fails, leaves
    -- the row too.
    pub process_one-Outcome :
        (now : Time) (recorded : Bool) (body : Option Envelope) (r : Event P)
        (rows : List (Event P)) (db : Tables)
        → find_event r.event_id rows ≡ some r
        → r.status ≡ processing
        → let after = process_one scope s config interval now recorded r.event_id body rows db in
          Outcome scope s config interval now recorded body r rows db after
          × Reach (pos_part config.max_attempts) lease rows after.0
    unfolding process_one
    process_one-Outcome now recorded body r rows db h p =
        let outcome : Outcome scope s config interval now recorded body r rows db
            (process_one scope s config interval now recorded r.event_id body rows db) =
          elim (Result-cases (process_webhook_event scope s now r.event_id body rows db)) [
            | inr (x, worse) ↦ failed-Outcome now recorded body r rows db x h worse
            | inl (x, worked) ↦
                let (e, he, accepted, locked) =
                  process_webhook_event-locked now r.event_id body rows db x worked in
                let (done, hd, is_rows, is_db) =
                  locked_live now r.event_id e rows db r x (live r p) (rw h at locked) in
                let both : ◌≡◌ {A = List (Event P) × Tables} (x.1, x.2)
                    (update_event r.event_id (finish_event now (not done.0)) rows, done.1) =
                  cc (is_rows, is_db) in
                rw worked (rw both (applied e done he accepted hd))
          ] in
        (outcome, Outcome-Reach now recorded body r rows db h p outcome)
