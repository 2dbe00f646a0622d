-- ===== src/Billing/Subscriptions.antt =====
-- The tables that a webhook changes, and what the event of a subscription does to them:
-- internal/billing/webhook_subscription.go and webhook_user.go. A handler returns the new tables or
-- an error; on an error the transaction is rolled back. The unique index on the order
-- of a subscription (migration 0018) is part of the model, since an insert can violate it; the
-- length checks of the columns are not.
pub mod Rows
pub mod SameAccess
pub mod Stale
use albion_market_api.Prelude.{
  ℕ, ◌+◌, ◌≡◌, Bool, true, false, not, ◌&&◌, ◌||◌, Option, none, some, List, [], ◌∷◌, ◌++◌, map,
  ltb, leb, ◌==◌, if◌then◌else◌, Result, ok, err, ◌>>=◌, ◌>>◌, fail_if,
}
use albion_market_api.Prelude.Int.{ℤ, pos}
use albion_market_api.Int64.{lt}
use albion_market_api.Text.{Text, Platform, lit, text_eq, is_empty, format_int}
use albion_market_api.Clock.{
  Time, coalesce, greatest, minute, zero_time, in_microseconds, date_in_microseconds,
}
use albion_market_api.Billing.Webhook.{
  Attributes, Envelope, WebhookError, unknown_user, no_user, not_synchronized, database, any_of,
  payment_events, custom_string, provider_time, optional_provider_time,
}
use albion_market_api.Billing.Access.{
  Status, trialing, active, past_due, canceled, expired, resolve_access,
}

-- `plans.code`, as far as the billing writes it.
pub data Plan : Type 0 where
  free pro : Plan

-- A row of `subscriptions`.
pub record Subscription : Type 0 where
  pub user_id : Text
  pub provider : Text
  pub customer_id : Text
  pub subscription_id : Option Text
  pub order_id : Option Text
  pub variant_id : Text
  pub provider_status : Text
  pub provider_updated_at : Option Time
  pub plan : Plan
  pub status : Status
  pub period_start : Option Time
  pub period_end : Option Time
  pub cancel_at_period_end : Bool
  pub access_until : Option Time
  pub created_at : Time
  pub updated_at : Time

-- A row of `billing_orders`.
pub record Order : Type 0 where
  pub user_id : Text
  pub order_id : Text
  pub customer_id : Text
  pub variant_id : Text
  pub provider_status : Text
  pub provider_updated_at : Option Time

-- A row of `billing_notification_outbox`.
pub record Notification : Type 0 where
  pub user_id : Text
  pub event_id : Text
  pub kind : Text

pub record Tables : Type 0 where
  pub users : List Text
  pub subscriptions : List Subscription
  pub orders : List Order
  pub outbox : List Notification

-- The fields of `Service`.
pub record Service : Type 0 where
  pub provider_name : Text
  pub variant_id : Text
  pub grace_period : ℕ

abbrev pub same_text : Option Text → Text → Bool
same_text none t = false
same_text (some s) t = text_eq s t

abbrev pub is_null : Option Text → Bool
is_null none = true
is_null (some t) = false

-- `provider = $1 and provider_subscription_id = $2`
abbrev pub has_subscription : Text → Text → Subscription → Bool
has_subscription provider id r = text_eq r.provider provider && same_text r.subscription_id id

-- `provider = $1 and provider_order_id = $2`
abbrev pub has_order : Text → Text → Subscription → Bool
has_order provider id r = text_eq r.provider provider && same_text r.order_id id

unfoldable pub find_row : (Subscription → Bool) → List Subscription → Option Subscription
find_row test [] = none
find_row test (r ∷ rows) = if test r then some r else find_row test rows

unfoldable pub update_rows :
    (Subscription → Bool) → (Subscription → Subscription) → List Subscription → List Subscription
update_rows test f [] = []
update_rows test f (r ∷ rows) = (if test r then f r else r) ∷ update_rows test f rows

unfoldable pub delete_rows : (Subscription → Bool) → List Subscription → List Subscription
delete_rows test [] = []
delete_rows test (r ∷ rows) = let rest = delete_rows test rows in if test r then rest else r ∷ rest

-- `subscriptions.provider_updated_at is null or excluded.provider_updated_at >= ...`
abbrev pub not_older : Option Time → Option Time → Bool
not_older none new = true
not_older (some old) none = false
not_older (some old) (some new) = leb old new

-- The assignments of `upsertSubscription` on a conflict.
unfoldable pub merge_subscription : Time → Subscription → Subscription → Subscription
merge_subscription now excluded r = record r {
  user_id = excluded.user_id;
  customer_id = excluded.customer_id;
  order_id = excluded.order_id;
  variant_id = excluded.variant_id;
  provider_status = excluded.provider_status;
  provider_updated_at = excluded.provider_updated_at;
  plan = excluded.plan;
  status = excluded.status;
  period_start = elim excluded.period_start [ none ↦ r.period_start | some t ↦ some t ];
  period_end = excluded.period_end;
  cancel_at_period_end = excluded.cancel_at_period_end;
  access_until = excluded.access_until;
  updated_at = now;
}

abbrev pub row_order : Subscription → Option Text → Bool
row_order r none = false
row_order r (some id) = same_text r.order_id id

-- Does another row than that of subscription `id` hold the order of `new`? (the unique index)
unfoldable pub order_taken : Subscription → Text → List Subscription → Bool
order_taken new id [] = false
order_taken new id (r ∷ rows) =
    (text_eq r.provider new.provider
      && row_order r new.order_id
      && not (same_text r.subscription_id id))
    || order_taken new id rows

-- The statement, given the row of the conflict target if there is one.
unfoldable pub upsert_at :
    Time
    → Text
    → Subscription
    → List Subscription
    → Option Subscription
    → Result WebhookError (Bool × List Subscription)
upsert_at now id new rows none =
    if order_taken new id rows then err database else ok (true, rows ++ new ∷ [])
upsert_at now id new rows (some r) =
    if not (not_older r.provider_updated_at new.provider_updated_at)
    then ok (false, rows)
    else if order_taken new id rows
    then err database
    else ok (true, update_rows (has_subscription new.provider id) (merge_subscription now new) rows)

-- `upsertSubscription`: whether a row was affected, and the table. `id` is the subscription of `new`.
unfoldable pub upsert_subscription :
    Time → Text → Subscription → List Subscription → Result WebhookError (Bool × List Subscription)
unfolding upsert_at
upsert_subscription now id new rows =
    upsert_at now id new rows (find_row (has_subscription new.provider id) rows)

-- What PostgreSQL reads and prints as a `uuid`, of a text in its form: in lower case.
abbrev pub uuid_digit : ℕ → ℕ
uuid_digit c = if leb 65 c && leb c 70 then c + 32 else c

unfoldable pub uuid_text : Text → Text
uuid_text s = map uuid_digit s

-- `resolveProductionWebhookUser`. The user is given as the column holds it.
unfoldable pub resolve_user : Text → Envelope → Tables → Result WebhookError Text
unfolding uuid_text
resolve_user provider e db =
    let user = custom_string e.custom_data (lit "user_id") in
    if not (is_empty user)
    then if any_of (uuid_text user) db.users then ok (uuid_text user) else err unknown_user
    else elim (find_row (has_subscription provider e.object_id) db.subscriptions) [
      | none ↦ err no_user
      | some r ↦ ok r.user_id
    ]

abbrev pub is_canceled : Status → Bool
is_canceled canceled = true
is_canceled _ = false

-- `if value.IsZero()`
abbrev pub if_zero : Time → Time → Time
if_zero t fallback = if t == zero_time then fallback else t

module _ ⦃go : Platform⦄ where
  -- The plan, the status and the date: a subscription of another variant gives nothing.
  unfoldable pub entitle :
      Service → Attributes → Time → Result WebhookError (Plan × Status × Option Time)
  entitle s a updated_at = do
    access ← resolve_access a updated_at s.grace_period
    let (status, access_until) = access
    ok (
        if text_eq (format_int a.variant_id) s.variant_id
        then (pro, status, access_until)
        else (free, expired, some updated_at))

  -- The row that `upsertSubscription` inserts.
  unfoldable pub subscription_row :
      Service → Time → Text → Envelope → Time → Plan → Status → Option Time → Subscription
  subscription_row s now user e updated_at plan status access_until =
      let a = e.attributes in
      record {
        user_id = user;
        provider = s.provider_name;
        customer_id = format_int a.customer_id;
        subscription_id = some e.object_id;
        order_id = if lt (pos 0) a.order_id then some (format_int a.order_id) else none;
        variant_id = format_int a.variant_id;
        provider_status = a.status;
        provider_updated_at = some (in_microseconds updated_at);
        plan = plan;
        status = status;
        period_start = date_in_microseconds (optional_provider_time a.created_at);
        period_end = date_in_microseconds (optional_provider_time a.renews_at);
        cancel_at_period_end = a.cancelled || is_canceled status;
        access_until = date_in_microseconds access_until;
        created_at = now;
        updated_at = now;
      }

  -- `removeProvisional`, for an order that is known.
  unfoldable pub remove_provisional : Service → Attributes → List Subscription → List Subscription
  remove_provisional s a rows =
      if lt (pos 0) a.order_id
      then delete_rows
          (λ r. has_order s.provider_name (format_int a.order_id) r && is_null r.subscription_id)
          rows
      else rows

  -- `processProductionSubscription`: `true` is `processed`, `false` is `ignored`.
  unfoldable pub process_subscription :
      Service → Time → Envelope → Tables → Result WebhookError (Bool × Tables)
  process_subscription s now e db = do
    user ← resolve_user s.provider_name e db
    let updated_at = if_zero (provider_time e.attributes.updated_at) now
    entitled ← entitle s e.attributes updated_at
    let (plan, status, access_until) = entitled
    result ←
        upsert_subscription now e.object_id
          (subscription_row s now user e updated_at plan status access_until)
          (remove_provisional s e.attributes db.subscriptions)
    let (affected, rows) = result
    ok (affected, record db { subscriptions = rows })
