-- ===== src/Billing/Subscriptions/Stale.antt =====
-- Two events of one subscription, in either order: internal/billing/webhook_subscription.go.
use albion_market_api.Prelude.{
  ◌≡◌, refl, sym, ap, ◌∙◌, inl, inr, Bool, true, false, ◌&&◌, Option, some, List, arith, Bool-cases,
  ok, >>=-eq-ok,
}
use albion_market_api.Text.{Text, Platform, lit, format_int}
use albion_market_api.Int64.{lt}
use albion_market_api.Prelude.Int.{pos}
use albion_market_api.Clock.{Time}
use albion_market_api.Billing.Webhook.{Envelope, custom_string, provider_time}
use albion_market_api.Billing.Access.{Status}
use albion_market_api.Billing.Subscriptions.{
  Subscription, Plan, Service, Tables, find_row, has_subscription, has_order, is_null,
  upsert_subscription, resolve_user, if_zero, entitle, subscription_row, remove_provisional,
  process_subscription,
}
use albion_market_api.Billing.Subscriptions.Rows.{find_row-delete_rows, applied, upsert-applied}
use albion_market_api.Billing.Subscriptions.SameAccess.{SameAccess}

-- An upsert into the table without the provisional rows, as a change of the table with them.
landed :
    (now : Time) (id provider : Text) (row : Subscription) (removed rows later : List Subscription)
    (x : Bool)
    → row.subscription_id ≡ some id
    → row.provider ≡ provider
    → upsert_subscription now id row removed ≡ ok (x, later)
    → find_row (has_subscription provider id) removed ≡ find_row (has_subscription provider id) rows
    → find_row (has_subscription provider id) later
      ≡ some (applied now row (find_row (has_subscription provider id) rows))
landed now id provider row removed rows later x key held h apart =
    rw (← apart) (rw (← held) (upsert-applied now id row removed later x key h))

module _ ⦃go : Platform⦄ (s : Service) where
  -- The row that an event writes: that of its user, plan, status and date.
  pub record Writes (now : Time) (e : Envelope) (row : Subscription) : Type 0 where
    pub user : Text
    pub tables : Tables
    pub resolved : resolve_user s.provider_name e tables ≡ ok user
    pub plan : Plan
    pub status : Status
    pub access_until : Option Time
    pub entitled :
        entitle s e.attributes (if_zero (provider_time e.attributes.updated_at) now)
        ≡ ok (plan, status, access_until)
    pub is_row :
        row
        ≡ subscription_row s now user e
            (if_zero (provider_time e.attributes.updated_at) now)
            plan
            status
            access_until

  provisional_apart :
      (e : Envelope) (id : Text) (r : Subscription)
      → has_subscription s.provider_name id r ≡ true
      → (has_order s.provider_name (format_int e.attributes.order_id) r
          && is_null r.subscription_id)
        ≡ false
  provisional_apart e id r h = ground arith

  find_row-remove_provisional :
      (e : Envelope) (id : Text) (rows : List Subscription)
      → find_row (has_subscription s.provider_name id) (remove_provisional s e.attributes rows)
        ≡ find_row (has_subscription s.provider_name id) rows
  unfolding remove_provisional
  find_row-remove_provisional e id rows = elim (Bool-cases (lt (pos 0) e.attributes.order_id)) [
    | inl known ↦ rw known (find_row-delete_rows _ _ rows (provisional_apart e id))
    | inr unknown ↦ rw unknown refl
  ]

  -- After an event the row of its subscription is the event's, applied to the row before.
  pub process-applied :
      (now : Time) (e : Envelope) (db later : Tables) (x : Bool)
      → process_subscription s now e db ≡ ok (x, later)
      → (row : Subscription) × Writes now e row
        × (find_row (has_subscription s.provider_name e.object_id) later.subscriptions
            ≡ some (
                applied now row
                  (find_row (has_subscription s.provider_name e.object_id) db.subscriptions)))
  unfolding process_subscription
  process-applied now e db later x h =
      let date = if_zero (provider_time e.attributes.updated_at) now in
      let (user, hu, h1) = >>=-eq-ok (resolve_user s.provider_name e db) _ h in
      let (entitled, he, h2) = >>=-eq-ok (entitle s e.attributes date) _ h1 in
      let row = subscription_row s now user e date entitled.0 entitled.1 entitled.2 in
      let (result, hr, h3) =
        >>=-eq-ok
          (upsert_subscription now e.object_id row
            (remove_provisional s e.attributes db.subscriptions))
          _ h2 in
      let is : later.subscriptions ≡ result.1 = cc h3 in
      let wrote : Writes now e row = record {
        user = user;
        tables = db;
        resolved = hu;
        plan = entitled.0;
        status = entitled.1;
        access_until = entitled.2;
        entitled = he;
        is_row = refl;
      } in
      (
        row,
        wrote,
        landed now e.object_id s.provider_name row
            (remove_provisional s e.attributes db.subscriptions) db.subscriptions
            later.subscriptions result.0 (unfold subscription_row in refl)
            (unfold subscription_row in refl) (hr ∙ ap (λ t. ok (result.0, t)) (sym is))
            (find_row-remove_provisional e e.object_id db.subscriptions),
      )

  -- The user whom an event names, if it names one.
  abbrev pub named_user : Envelope → Text
  named_user e = custom_string e.custom_data (lit "user_id")
