-- ===== src/Tests/Subscriptions.antt =====
-- Subscriptions, orders and access at sample data.
use albion_market_api.Prelude.{
  ◌+◌, ◌*◌, ◌<◌, ◌≡◌, refl, Bool, true, false, Option, none, some, [], ◌∷◌, All, Result, ok, err,
}
use albion_market_api.Prelude.Int.{pos}
use albion_market_api.Text.{Text, is_empty, lit, format_int, text_eq, trim_space, to_lower}
use albion_market_api.Clock.{Time, minute, hour}
use albion_market_api.Billing.Webhook.{
  Attributes, Envelope, WebhookError, string, custom_string, provider_time, optional_provider_time,
}
use albion_market_api.Billing.Access.{active, canceled, resolve_access}
use albion_market_api.Billing.Subscriptions.{
  pro, Subscription, Service, Tables, find_row, process_subscription, resolve_user, entitle,
  upsert_subscription, remove_provisional, order_taken, delete_rows,
}
use albion_market_api.Billing.Subscriptions.SameAccess.{SameAccess}
use albion_market_api.Billing.Handlers.{provisional_row}
use albion_market_api.Billing.Handlers.Provisional.{
  is_provisional, process_subscription-no_provisional, provisional_access,
}
use albion_market_api.Accounts.{grants}
use albion_market_api.Accounts.Until.{Grants, resolve_access-gives}
use albion_market_api.Tests.{day_one, day_two, day_three, ascii}

abbrev pub service : Service
service = record {
  provider_name = lit "lemonsqueezy";
  variant_id = lit "9";
  grace_period = 72 * hour;
}

abbrev user : Text
user = lit "u1"

abbrev attributes : Text → Text → Attributes
attributes status updated_at = record {
  store_id = pos 1;
  customer_id = pos 2;
  order_id = pos 3;
  subscription_id = pos 0;
  variant_id = pos 9;
  status = status;
  cancelled = false;
  renews_at = lit "2022-09-23T00:00:00Z";
  ends_at = [];
  created_at = lit "2022-09-21T00:00:00Z";
  updated_at = updated_at;
  test_mode = false;
  first_variant_id = pos 9;
}

abbrev event : Text → Text → Envelope
event status updated_at = record {
  event_name = lit "subscription_updated";
  custom_data = (lit "user_id", string user) ∷ [];
  object_type = lit "subscriptions";
  object_id = lit "s1";
  attributes = attributes status updated_at;
}

abbrev pub started : Envelope
started = event (lit "active") (lit "2022-09-21T00:00:00Z")

abbrev stopped : Envelope
stopped = event (lit "cancelled") (lit "2022-09-22T00:00:00Z")

-- A user whose order has given provisional access.
abbrev pub tables : Tables
tables = record {
  users = user ∷ [];
  subscriptions =
      record {
        user_id = user;
        provider = lit "lemonsqueezy";
        customer_id = lit "2";
        subscription_id = none;
        order_id = some (lit "3");
        variant_id = lit "9";
        provider_status = lit "order_created";
        provider_updated_at = some day_one;
        plan = pro;
        status = active;
        period_start = some day_one;
        period_end = some (day_one + 15 * minute);
        cancel_at_period_end = false;
        access_until = some (day_one + 15 * minute);
        created_at = day_one;
        updated_at = day_one;
      }
      ∷ [];
  orders = [];
  outbox = [];
}

abbrev tables_of : Result WebhookError (Bool × Tables) → Tables
tables_of (ok (x, t)) = t
tables_of (err e) = tables

abbrev after : Time → Envelope → Tables → Tables
after now e db = tables_of (process_subscription service now e db)

abbrev row_of : Option Subscription → Subscription
row_of none = provisional_row service day_one user started day_one
row_of (some r) = r

process_subscription-no_provisional_example :
    All
      (λ r. is_provisional service.provider_name (format_int (pos 3)) r ≡ false)
      (after day_one started tables).subscriptions
unfolding process_subscription provider_time trim_space resolve_user is_empty custom_string entitle
    resolve_access to_lower optional_provider_time upsert_subscription find_row remove_provisional
    delete_rows format_int order_taken
process_subscription-no_provisional_example =
    process_subscription-no_provisional service day_one started tables
      (after day_one started tables) true refl refl

provisional_access_example :
    (text_eq user user ≡ true) × (day_one + minute < day_one + 15 * 60 * 1000000000)
unfolding grants provisional_row
provisional_access_example =
    provisional_access service day_one (day_one + minute) day_one user user started refl

resolve_access-gives_example :
    Grants stopped.attributes day_two (72 * hour) day_two canceled (some day_three)
unfolding resolve_access to_lower trim_space optional_provider_time provider_time
resolve_access-gives_example =
    resolve_access-gives stopped.attributes day_two (72 * hour) day_two canceled (some day_three)
      refl
