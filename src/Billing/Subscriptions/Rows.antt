-- ===== src/Billing/Subscriptions/Rows.antt =====
-- Laws of finding, updating and deleting rows of `subscriptions`, and of the upsert.
use albion_market_api.Prelude.{
  ◌≡◌, refl, inl, inr, Bool, true, false, Option, none, some, List, [], ◌∷◌, ◌++◌, arith,
  if◌then◌else◌, Bool-cases, if-eq, ok,
}
use albion_market_api.Text.{Text}
use albion_market_api.Text.Equality.{text_eq_refl}
use albion_market_api.Clock.{Time}
use albion_market_api.Billing.Subscriptions.{
  Subscription, find_row, update_rows, delete_rows, has_subscription, not_older, merge_subscription,
  order_taken, upsert_at, upsert_subscription,
}

module _ (test : Subscription → Bool) where
  pub find_row-update_rows :
      (f : Subscription → Subscription) (rows : List Subscription)
      → ((x : Subscription) → test (f x) ≡ test x)
      → (r : Subscription) → find_row test rows ≡ some r
      → find_row test (update_rows test f rows) ≡ some (f r)
  unfolding find_row update_rows
  find_row-update_rows f [] keeps r h = cc
  find_row-update_rows f (x ∷ rows) keeps r h = elim (Bool-cases (test x)) [
    | inl e ↦ ground (arith, e, h, keeps x)
    | inr n ↦ rw (n, n) (find_row-update_rows f rows keeps r (rw n at h))
  ]

  pub find_row-append :
      (rows : List Subscription) (new : Subscription)
      → find_row test rows ≡ none
      → test new ≡ true
      → find_row test (rows ++ new ∷ []) ≡ some new
  unfolding find_row
  find_row-append [] new h t = rw t
  find_row-append (x ∷ rows) new h t = elim (Bool-cases (test x)) [
    | inl e ↦ absurd (ground (arith, e, h))
    | inr n ↦ rw n (find_row-append rows new (rw n at h) t)
  ]

  pub find_row-delete_rows :
      (gone : Subscription → Bool) (rows : List Subscription)
      → ((x : Subscription) → test x ≡ true → gone x ≡ false)
      → find_row test (delete_rows gone rows) ≡ find_row test rows
  unfolding find_row delete_rows
  find_row-delete_rows gone [] apart = refl
  find_row-delete_rows gone (x ∷ rows) apart =
      ground (arith, apart x, find_row-delete_rows gone rows apart)

  pub find_row-passes :
      (rows : List Subscription) (r : Subscription) → find_row test rows ≡ some r → test r ≡ true
  unfolding find_row
  find_row-passes [] r h = cc
  find_row-passes (x ∷ rows) r h = ground (arith, find_row-passes rows r)

-- The row of the subscription after an upsert: the new one if there was none, the merged one if the
-- old was not newer, and the old one otherwise.
abbrev pub applied : Time → Subscription → Option Subscription → Subscription
applied now new none = new
applied now new (some r) =
    if not_older r.provider_updated_at new.provider_updated_at
    then merge_subscription now new r
    else r

merge-keeps_key :
    (now : Time) (new x : Subscription) (provider id : Text)
    → has_subscription provider id (merge_subscription now new x) ≡ has_subscription provider id x
unfolding merge_subscription
merge-keeps_key now new x provider id = refl

upsert_at-applied :
    (now : Time) (id : Text) (new : Subscription) (rows later : List Subscription) (x : Bool)
    (o : Option Subscription)
    → new.subscription_id ≡ some id
    → find_row (has_subscription new.provider id) rows ≡ o
    → upsert_at now id new rows o ≡ ok (x, later)
    → find_row (has_subscription new.provider id) later ≡ some (applied now new o)
unfolding upsert_at
upsert_at-applied now id new rows later x none key absent h =
    elim (if-eq (order_taken new id rows) _ _ h) [
      | inl (_, k) ↦ cc
      | inr (_, k) ↦
          let is : later ≡ rows ++ new ∷ [] = cc in
          rw is (
            find_row-append (has_subscription new.provider id) rows new absent
              (rw (text_eq_refl new.provider, key) (text_eq_refl id)))
    ]
upsert_at-applied now id new rows later x (some r) key found h =
    elim (Bool-cases (not_older r.provider_updated_at new.provider_updated_at)) [
      | inr stale ↦ let is : later ≡ rows = cc (rw stale at h) in rw (is, stale) found
      | inl fresh ↦ elim (if-eq (order_taken new id rows) _ _ (rw fresh at h)) [
        | inl (_, k) ↦ cc
        | inr (_, k) ↦
            let is : later
                ≡ update_rows (has_subscription new.provider id) (merge_subscription now new) rows =
              cc in
            rw (is, fresh)
              (find_row-update_rows (has_subscription new.provider id) (merge_subscription now new)
                rows (λ q. merge-keeps_key now new q new.provider id) r found)
      ]
    ]

pub upsert-applied :
    (now : Time) (id : Text) (new : Subscription) (rows later : List Subscription) (x : Bool)
    → new.subscription_id ≡ some id
    → upsert_subscription now id new rows ≡ ok (x, later)
    → find_row (has_subscription new.provider id) later
      ≡ some (applied now new (find_row (has_subscription new.provider id) rows))
unfolding upsert_subscription
upsert-applied now id new rows later x key h =
    upsert_at-applied now id new rows later x (find_row (has_subscription new.provider id) rows) key
      refl h
