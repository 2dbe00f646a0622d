-- ===== src/Billing/Processing.antt =====
-- internal/billing/webhook_processing.go (`ProcessWebhookEvent`) and the worker's handling of one
-- job in webhook_queue.go (`processOne`, `finalizeFailure`), over the queue and the tables together.
-- What PostgreSQL reads from the text of `postgresInterval` is an argument. A timeout or a
-- cancellation of the context shows here as the error of a statement, `database`.
pub mod Outcome
use albion_market_api.Prelude.{
  ℕ, ◌≡◌, Bool, true, false, not, ◌||◌, Option, none, some, List, [], ◌∷◌, ◌==◌, if◌then◌else◌,
  Result, ok, err, ◌>>=◌, ◌>>◌, fail_if,
}
use albion_market_api.Prelude.Int.{ℤ, pos_part}
use albion_market_api.Text.{Text, Platform, lit, has_prefix, byte_len, trim_space}
use albion_market_api.Clock.{Time}
use albion_market_api.Billing.Queue.{
  EventStatus, processed, ignored, Event, is_finished, find_event, update_event, finish_event,
  fail_event,
}
use albion_market_api.Billing.Webhook.{
  Envelope, WebhookError, WebhookScope, invalid_event_id, decode_payload, unsupported_event,
  not_enqueued, is_invalid_webhook, is_supported_event, validate_scope,
}
use albion_market_api.Billing.Subscriptions.{Service, Tables}
use albion_market_api.Billing.Handlers.{process_event}
use albion_market_api.Billing.Retry.{WorkerConfig, retry_delay}

-- The result of an event: its status and whether it was finished before.
pub record WebhookResult : Type 0 where
  pub status : EventStatus
  pub duplicate : Bool

-- `safeProcessingError`, for the errors of the processing.
abbrev pub safe_error : WebhookError → Text
safe_error e = if is_invalid_webhook e then lit "invalid_webhook" else lit "processing_failed"

abbrev pub final_status : Bool → EventStatus
final_status done = if done then processed else ignored

abbrev pub decoded : Option Envelope → Result WebhookError Envelope
decoded none = err decode_payload
decoded (some e) = ok e

module _ ⦃go : Platform⦄ {P : Type 0} (scope : WebhookScope) (s : Service) where
  -- From the row that is locked on.
  unfoldable pub process_locked :
      Time
      → Text
      → Envelope
      → List (Event P)
      → Tables
      → Option (Event P)
      → Result WebhookError (WebhookResult × List (Event P) × Tables)
  process_locked now event_id e rows db none = err not_enqueued
  process_locked now event_id e rows db (some r) =
      if is_finished r.status
      then ok (record { status = r.status; duplicate = true }, rows, db)
      else process_event s now event_id e db >>= λ done. ok (
        record { status = final_status done.0; duplicate = false },
        update_event event_id (finish_event now (not done.0)) rows,
        done.1,
      )

  -- `ProcessWebhookEvent`.
  unfoldable pub process_webhook_event :
      Time
      → Text
      → Option Envelope
      → List (Event P)
      → Tables
      → Result WebhookError (WebhookResult × List (Event P) × Tables)
  process_webhook_event now event_id body rows db = do
    fail_if (not (has_prefix event_id (lit "sha256:")) || not (byte_len event_id == 71))
        invalid_event_id
    e ← decoded body
    fail_if (not (is_supported_event (trim_space e.event_name))) unsupported_event
    validate_scope scope e
    process_locked now event_id e rows db (find_event event_id rows)

  module _ (config : WorkerConfig) (interval : ℤ → ℕ) where
    -- `finalizeFailure`: without a row it changes nothing.
    unfoldable pub finalize_failure : Time → Text → WebhookError → List (Event P) → List (Event P)
    finalize_failure now event_id e rows = elim (find_event event_id rows) [
      | none ↦ rows
      | some r ↦
          update_event event_id
            (fail_event now (pos_part config.max_attempts) (is_invalid_webhook e) (safe_error e)
              (interval (retry_delay config r.attempt_count event_id)))
            rows
    ]

    -- The two outcomes of `processOne`: on an error the transaction is rolled back. `recorded` tells
    -- whether the statement of `finalizeFailure` succeeds; its error is only logged.
    abbrev pub settle :
        Time
        → Bool
        → Text
        → List (Event P)
        → Tables
        → Result WebhookError (WebhookResult × List (Event P) × Tables)
        → List (Event P) × Tables
    settle now recorded event_id rows db (ok result) = (result.1, result.2)
    settle now recorded event_id rows db (err e) =
        (if recorded then finalize_failure now event_id e rows else rows, db)

    -- `processOne`.
    unfoldable pub process_one :
        Time → Bool → Text → Option Envelope → List (Event P) → Tables → List (Event P) × Tables
    process_one now recorded event_id body rows db =
        settle now recorded event_id rows db (process_webhook_event now event_id body rows db)
