-- ===== src/Billing/Handlers/Provisional.antt =====
-- The end of the access that an order gives before its subscription is known.
use albion_market_api.Prelude.{
  ◌+◌, ◌*◌, ◌<◌, ◌≡◌, refl, inl, inr, Bool, true, false, ◌&&◌, Option, none, some, List, [], ◌∷◌,
  ◌++◌, arith, All, All-append, Bool-cases, if-eq, ok, >>=-eq-ok,
}
use albion_market_api.Prelude.Int.{pos}
use albion_market_api.Int64.{lt}
use albion_market_api.Text.{Text, Platform, format_int, text_eq}
use albion_market_api.Clock.{Time}
use albion_market_api.Billing.Webhook.{Envelope, provider_time}
use albion_market_api.Billing.Subscriptions.{
  Subscription, Service, Tables, update_rows, delete_rows, has_subscription, has_order, is_null,
  not_older, merge_subscription, order_taken, upsert_at, upsert_subscription, resolve_user, if_zero,
  entitle, subscription_row, remove_provisional, process_subscription,
}
use albion_market_api.Billing.Handlers.{provisional_row}
use albion_market_api.Accounts.{grants}

-- A provisional row of the order.
abbrev pub is_provisional : Text → Text → Subscription → Bool
is_provisional provider order r = has_order provider order r && is_null r.subscription_id

delete_rows-none :
    (gone : Subscription → Bool) (rows : List Subscription)
    → All (λ r. gone r ≡ false) (delete_rows gone rows)
unfolding delete_rows
delete_rows-none gone [] = tt
delete_rows-none gone (r ∷ rows) = elim (Bool-cases (gone r)) [
  | inl e ↦ rw e (delete_rows-none gone rows)
  | inr n ↦ rw n (n, delete_rows-none gone rows)
]

All-update_rows :
    (P : Subscription → Type 0) (test : Subscription → Bool) (f : Subscription → Subscription)
    (rows : List Subscription)
    → ((r : Subscription) → test r ≡ true → P (f r))
    → All P rows
    → All P (update_rows test f rows)
unfolding update_rows
All-update_rows P test f [] k h = tt
All-update_rows P test f (r ∷ rows) k h = elim (Bool-cases (test r)) [
  | inl e ↦ rw e (k r e, All-update_rows P test f rows k h.1)
  | inr n ↦ rw n (h.0, All-update_rows P test f rows k h.1)
]

merged_kept :
    (now : Time) (provider order id : Text) (new r : Subscription)
    → has_subscription new.provider id r ≡ true
    → is_provisional provider order (merge_subscription now new r) ≡ false
unfolding merge_subscription
merged_kept now provider order id new r h = ground arith

upsert_at-none :
    (now : Time) (provider order id : Text) (new : Subscription) (rows later : List Subscription)
    (x : Bool) (o : Option Subscription)
    → new.subscription_id ≡ some id
    → All (λ r. is_provisional provider order r ≡ false) rows
    → upsert_at now id new rows o ≡ ok (x, later)
    → All (λ r. is_provisional provider order r ≡ false) later
unfolding upsert_at
upsert_at-none now provider order id new rows later x none key h e =
    elim (if-eq (order_taken new id rows) _ _ e) [
      | inl (_, k) ↦ cc
      | inr (_, k) ↦
          let is : later ≡ rows ++ new ∷ [] = cc in
          let other : is_provisional provider order new ≡ false = ground (arith, key) in
          rw is (
            All-append (λ r. is_provisional provider order r ≡ false) rows (new ∷ []) h (other, tt))
    ]
upsert_at-none now provider order id new rows later x (some r) key h e =
    elim (Bool-cases (not_older r.provider_updated_at new.provider_updated_at)) [
      | inr stale ↦ let is : later ≡ rows = cc (rw stale at e) in rw is h
      | inl fresh ↦ elim (if-eq (order_taken new id rows) _ _ (rw fresh at e)) [
        | inl (_, k) ↦ cc
        | inr (_, k) ↦
            let is : later
                ≡ update_rows (has_subscription new.provider id) (merge_subscription now new) rows =
              cc in
            rw is (
              All-update_rows _ (has_subscription new.provider id) (merge_subscription now new) rows
                (merged_kept now provider order id new) h)
      ]
    ]

upsert_subscription-none :
    (now : Time) (provider order id : Text) (new : Subscription) (rows later : List Subscription)
    (x : Bool)
    → new.subscription_id ≡ some id
    → All (λ r. is_provisional provider order r ≡ false) rows
    → upsert_subscription now id new rows ≡ ok (x, later)
    → All (λ r. is_provisional provider order r ≡ false) later
unfolding upsert_subscription
upsert_subscription-none now provider order id new rows later x key h e =
    upsert_at-none now provider order id new rows later x _ key h e

module _ ⦃go : Platform⦄ (s : Service) where
  -- After a subscription event with a positive order is processed, whether it was applied or
  -- ignored, no row of that order without a subscription is left.
  pub process_subscription-no_provisional :
      (now : Time) (e : Envelope) (db later : Tables) (x : Bool)
      → lt (pos 0) e.attributes.order_id ≡ true
      → process_subscription s now e db ≡ ok (x, later)
      → All
          (λ r. is_provisional s.provider_name (format_int e.attributes.order_id) r ≡ false)
          later.subscriptions
  unfolding process_subscription
  process_subscription-no_provisional now e db later x known h =
      let date = if_zero (provider_time e.attributes.updated_at) now in
      let (user, hu, h1) = >>=-eq-ok (resolve_user s.provider_name e db) _ h in
      let (entitled, he, h2) = >>=-eq-ok (entitle s e.attributes date) _ h1 in
      let row = subscription_row s now user e date entitled.0 entitled.1 entitled.2 in
      let removed = remove_provisional s e.attributes db.subscriptions in
      let (result, hr, h3) = >>=-eq-ok (upsert_subscription now e.object_id row removed) _ h2 in
      let is : later.subscriptions ≡ result.1 = cc h3 in
      let left : All
          (λ r. is_provisional s.provider_name (format_int e.attributes.order_id) r ≡ false)
          removed =
        unfold remove_provisional in rw known (delete_rows-none _ db.subscriptions) in
      rw is (
        upsert_subscription-none now s.provider_name (format_int e.attributes.order_id) e.object_id
          row removed result.1 result.0 (unfold subscription_row in refl) left hr)

  -- The provisional row of an order made at `now` grants access to its user alone, and only for
  -- fifteen minutes.
  pub provisional_access :
      (now t date : Time) (user other : Text) (e : Envelope)
      → grants other t (provisional_row s now user e date) ≡ true
      → (text_eq user other ≡ true) × (t < now + 15 * 60 * 1000000000)
  unfolding grants provisional_row
  provisional_access now t date user other e h = ground arith
