-- ===== src/Accounts.antt =====
-- internal/accounts/accounts.go: the subscription that decides a user's access (`Current`, the query
-- `activeSubscription`).
pub mod Choice
pub mod Until
use albion_market_api.Prelude.{
  ℕ, ◌≡◌, Bool, true, false, not, ◌&&◌, ◌||◌, Option, none, some, List, [], ◌∷◌, ltb, ◌==◌,
  if◌then◌else◌,
}
use albion_market_api.Text.{Text, text_eq}
use albion_market_api.Sql.{select_first}
use albion_market_api.Clock.{Time}
use albion_market_api.Billing.Access.{Status, trialing, active, past_due, canceled, expired}
use albion_market_api.Billing.Subscriptions.{Subscription, Plan, free}

-- `access_until > now()`, which `null` fails.
abbrev pub is_after : Option Time → Time → Bool
is_after none now = false
is_after (some t) now = ltb now t

-- `access_until is null or access_until > now()`
abbrev pub is_open_at : Option Time → Time → Bool
is_open_at none now = true
is_open_at (some t) now = ltb now t

-- `status in ('trialing', 'active') or (status in ('past_due', 'canceled') and ...)`
abbrev pub status_grants : Status → Option Time → Time → Bool
status_grants trialing t now = true
status_grants active t now = true
status_grants past_due t now = is_after t now
status_grants canceled t now = is_after t now
status_grants expired t now = false

-- The `where` clause.
unfoldable pub grants : Text → Time → Subscription → Bool
grants user now r =
    text_eq r.user_id user
    && status_grants r.status r.access_until now
    && is_open_at r.access_until now

-- The ranks of `case status`.
abbrev pub rank : Status → ℕ
rank active = 1
rank trialing = 2
rank past_due = 3
rank canceled = 4
rank expired = 4

-- `coalesce(access_until, 'infinity') desc`: is `a` strictly later than `b`?
abbrev pub later : Option Time → Option Time → Bool
later none none = false
later none (some b) = true
later (some a) none = false
later (some a) (some b) = ltb b a

-- `order by`: does `r` come strictly before `s`?
unfoldable pub preferred : Subscription → Subscription → Bool
preferred r s =
    ltb (rank r.status) (rank s.status)
    || (rank r.status == rank s.status
        && (later r.access_until s.access_until
            || (not (later s.access_until r.access_until) && ltb s.updated_at r.updated_at)))

-- `limit 1`.
unfoldable pub active_subscription : Text → Time → List Subscription → Option Subscription
active_subscription user now rows = select_first preferred (grants user now) rows

-- The subscription of `Access`: a free plan with the status `none` where no row grants access.
pub record Access : Type 0 where
  pub plan : Plan
  pub status : Option Status
  pub access_until : Option Time

unfoldable pub current : Text → Time → List Subscription → Access
current user now rows = elim (active_subscription user now rows) [
  | none ↦ record { plan = free; status = none; access_until = none }
  | some r ↦ record { plan = r.plan; status = some r.status; access_until = r.access_until }
]
