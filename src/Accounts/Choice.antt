-- ===== src/Accounts/Choice.antt =====
-- The choice of the subscription: the query `activeSubscription` of internal/accounts/accounts.go.
use albion_market_api.Prelude.{◌≤◌, ◌<◌, ◌≡◌, ◌⊎◌, false, Option, none, some, arith}
use albion_market_api.Text.{Text}
use albion_market_api.Clock.{Time}
use albion_market_api.Billing.Subscriptions.{Subscription}
use albion_market_api.Billing.Access.{trialing, active, past_due, canceled}
use albion_market_api.Accounts.{later}

later_trans_false :
    (a b c : Option Time) → later b a ≡ false → later c b ≡ false → later c a ≡ false
later_trans_false a b c h k = ground arith

-- A date that has not come, or no date at all.
abbrev pub IsAhead : Time → Option Time → Type 0
IsAhead now until = (until ≡ none) ⊎ ((t : Time) × (until ≡ some t) × (now < t))

-- What gives a user access at `now`: a running subscription that does not end before, or a late or
-- cancelled one with a date that has not come.
pub record IsGranting (user : Text) (now : Time) (r : Subscription) : Type 0 where
  pub of_user : r.user_id ≡ user
  pub allowed :
      (((r.status ≡ trialing) ⊎ (r.status ≡ active)) × IsAhead now r.access_until)
      ⊎ (((r.status ≡ past_due) ⊎ (r.status ≡ canceled))
          × ((t : Time) × (r.access_until ≡ some t) × (now < t)))

-- The status groups in the order in which they are chosen: active, trialing, any other.
pub record OutRanks (r s : Subscription) : Type 0 where
  pub if_active : s.status ≡ active → r.status ≡ active
  pub if_trialing : s.status ≡ trialing → (r.status ≡ active) ⊎ (r.status ≡ trialing)

-- A date that is not before another, no date being the last one.
abbrev pub IsNotBefore : Option Time → Option Time → Type 0
IsNotBefore a b = (a ≡ none) ⊎ ((t : Time) × (u : Time) × (a ≡ some t) × (b ≡ some u) × (u ≤ t))

-- `r` is the right choice when `s` could be taken too.
pub record IsBetter (r s : Subscription) : Type 0 where
  pub status_first : OutRanks r s
  pub date_next : r.status ≡ s.status → IsNotBefore r.access_until s.access_until
  pub update_last :
      r.status ≡ s.status → r.access_until ≡ s.access_until → s.updated_at ≤ r.updated_at
