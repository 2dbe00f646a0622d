-- ===== src/Tests/Processing.antt =====
-- The processing of jobs at sample data.
use albion_market_api.Prelude.{ℕ, refl, true, false, some, List, [], ◌∷◌}
use albion_market_api.Prelude.Int.{pos_part}
use albion_market_api.Text.{Text, lit}
use albion_market_api.Clock.{minute}
use albion_market_api.Billing.Queue.{Event, new_event, lease_event, find_event}
use albion_market_api.Billing.Queue.Invariant.{Reach}
use albion_market_api.Billing.Webhook.{WebhookScope}
use albion_market_api.Billing.Subscriptions.{Tables}
use albion_market_api.Billing.Processing.{process_one}
use albion_market_api.Billing.Processing.Outcome.{Outcome, process_one-Outcome}
use albion_market_api.Tests.{day_one, ascii}
use albion_market_api.Tests.Queue.{config}
use albion_market_api.Tests.Subscriptions.{service, started, tables}

abbrev identity : Text
identity = lit "sha256:00112233445566778899aabbccddeeff00112233445566778899aabbccddeeff"

abbrev scope : WebhookScope
scope = record { store_id = lit "1"; variant_id = lit "9"; expected_test_mode = false }

abbrev held : Event ℕ
held = lease_event day_one (lit "w1") (new_event day_one identity (lit "subscription_updated") 5)

abbrev held_rows : List (Event ℕ)
held_rows = held ∷ []

abbrev after : List (Event ℕ) × Tables
after =
    process_one scope service config pos_part day_one true held.event_id (some started) held_rows
      tables

process_one-Outcome_example :
    Outcome scope service config pos_part day_one true (some started) held held_rows tables after
    × Reach 8 minute held_rows after.0
unfolding find_event lease_event new_event
process_one-Outcome_example =
    process_one-Outcome scope service config pos_part minute day_one true (some started) held
      held_rows tables refl refl
