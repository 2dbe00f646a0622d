-- ===== src/Billing/Handlers.antt =====
-- What the events of an order and of a payment do to the tables, and the choice of the handler:
-- internal/billing/webhook_order.go, webhook_payment.go and webhook_processing.go.
pub mod Provisional
use albion_market_api.Prelude.{
  ℕ, ◌+◌, ◌*◌, ◌≡◌, Bool, true, false, not, ◌&&◌, ◌||◌, Option, none, some, List, [], ◌∷◌, ◌++◌,
  ltb, leb, ◌==◌, if◌then◌else◌, Result, ok, err, ◌>>=◌, ◌>>◌, fail_if,
}
use albion_market_api.Text.{Text, Platform, lit, text_eq, is_empty, format_int, trim_space}
use albion_market_api.Clock.{in_microseconds, Time, coalesce, greatest, minute}
use albion_market_api.Billing.Webhook.{
  Attributes, Envelope, WebhookError, not_synchronized, any_of, payment_events, provider_time,
}
use albion_market_api.Billing.Access.{active, past_due}
use albion_market_api.Billing.Subscriptions.{
  Subscription, Order, Notification, Tables, Service, pro, find_row, update_rows, has_order,
  has_subscription, not_older, if_zero, resolve_user, process_subscription,
}

-- `enqueueProductionNotification`: once for each event and kind.
unfoldable pub has_notification : Text → Text → List Notification → Bool
has_notification event_id kind [] = false
has_notification event_id kind (n ∷ ns) =
    (text_eq n.event_id event_id && text_eq n.kind kind) || has_notification event_id kind ns

unfoldable pub notify : Text → Text → Text → Tables → Tables
unfolding has_notification
notify user event_id kind db = if has_notification event_id kind db.outbox then db else record db {
  outbox = db.outbox ++ record { user_id = user; event_id = event_id; kind = kind } ∷ [];
}

-- `provisionalOrderAccess`.
abbrev pub provisional_order_access : ℕ
provisional_order_access = 15 * minute

-- `upsertOrder`.
unfoldable pub upsert_order : Order → List Order → List Order
upsert_order new [] = new ∷ []
upsert_order new (o ∷ orders) =
    let rest = upsert_order new orders in
    if text_eq o.order_id new.order_id
    then (if not_older o.provider_updated_at new.provider_updated_at then new else o) ∷ orders
    else o ∷ rest

-- The row of `provisional`.
unfoldable pub provisional_row : Service → Time → Text → Envelope → Time → Subscription
provisional_row s now user e updated_at = record {
  user_id = user;
  provider = s.provider_name;
  customer_id = format_int e.attributes.customer_id;
  subscription_id = none;
  order_id = some e.object_id;
  variant_id = format_int e.attributes.first_variant_id;
  provider_status = lit "order_created";
  provider_updated_at = some (in_microseconds updated_at);
  plan = pro;
  status = active;
  period_start = some now;
  period_end = some (in_microseconds (now + provisional_order_access));
  cancel_at_period_end = false;
  access_until = some (in_microseconds (now + provisional_order_access));
  created_at = now;
  updated_at = now;
}

-- `provisional`: inserted unless a row holds the order.
unfoldable pub insert_provisional : Subscription → Text → List Subscription → List Subscription
unfolding find_row
insert_provisional new id rows = elim (find_row (has_order new.provider id) rows) [
  | none ↦ rows ++ new ∷ []
  | some r ↦ rows
]

-- The assignments of `markPastDue` and of `recoverPayment`.
unfoldable pub mark_past_due : Time → ℕ → Subscription → Subscription
mark_past_due now grace r = record r {
  provider_status = lit "past_due";
  status = past_due;
  access_until = some (greatest (coalesce r.period_end now) now + grace);
  updated_at = now;
}

unfoldable pub recover_payment : Time → Subscription → Subscription
recover_payment now r = record r {
  provider_status = lit "active";
  status = active;
  access_until =
      some (greatest (greatest (coalesce r.access_until now) (coalesce r.period_end now)) now);
  updated_at = now;
}

-- `processProductionPayment`: `true` is `processed`.
unfoldable pub process_payment :
    Service → Time → Text → Envelope → Tables → Result WebhookError (Bool × Tables)
process_payment s now event_id e db =
    let id = format_int e.attributes.subscription_id in
    let held = has_subscription s.provider_name id in
    elim (find_row held db.subscriptions) [
      | none ↦ err not_synchronized
      | some r ↦ ok (
        true,
        (if text_eq e.event_name (lit "subscription_payment_failed")
            then notify r.user_id event_id (lit "payment_failed") (record db {
              subscriptions = update_rows held (mark_past_due now s.grace_period) db.subscriptions;
            })
            else if text_eq e.event_name (lit "subscription_payment_recovered")
            then notify r.user_id event_id (lit "payment_recovered") (record db {
              subscriptions = update_rows held (recover_payment now) db.subscriptions;
            })
            else if text_eq e.event_name (lit "subscription_payment_success")
            then notify r.user_id event_id (lit "payment_success") db
            else db),
      )
    ]

module _ ⦃go : Platform⦄ where
  -- The date of an order: its update, its creation, or now.
  unfoldable pub order_date : Time → Attributes → Time
  order_date now a = if_zero (if_zero (provider_time a.updated_at) (provider_time a.created_at)) now

  -- `processProductionOrder`: `true` is `processed`.
  unfoldable pub process_order :
      Service → Time → Text → Envelope → Tables → Result WebhookError (Bool × Tables)
  process_order s now event_id e db = do
    user ← resolve_user s.provider_name e db
    let updated_at = order_date now e.attributes
    let order : Order = record {
      user_id = user;
      order_id = e.object_id;
      customer_id = format_int e.attributes.customer_id;
      variant_id = format_int e.attributes.first_variant_id;
      provider_status = e.attributes.status;
      provider_updated_at = some (in_microseconds updated_at);
    }
    ok (
      true,
      notify user event_id (lit "order_confirmed") (record db {
        orders = upsert_order order db.orders;
        subscriptions =
            insert_provisional (provisional_row s now user e updated_at) e.object_id
              db.subscriptions;
      }),
    )

  -- The `switch` of `ProcessWebhookEvent`.
  unfoldable pub process_event :
      Service → Time → Text → Envelope → Tables → Result WebhookError (Bool × Tables)
  process_event s now event_id e db =
      if text_eq (trim_space e.event_name) (lit "order_created")
      then process_order s now event_id e db
      else if any_of (trim_space e.event_name) payment_events
      then process_payment s now event_id e db
      else process_subscription s now e db
