-- ===== src/Billing/Access.antt =====
-- `resolveProductionAccess` (internal/billing/webhook_subscription.go): what the provider's status
-- of a subscription means here, and until when it gives access.
use albion_market_api.Prelude.{
  ℕ, ◌+◌, Option, none, some, List, [], ◌∷◌, ltb, if◌then◌else◌, Result, ok, err,
}
use albion_market_api.Text.{Text, Platform, lit, text_eq, trim_space, to_lower}
use albion_market_api.Clock.{Time}
use albion_market_api.Billing.Webhook.{
  Attributes, WebhookError, unsupported_status, access_date_missing, any_of, optional_provider_time,
}

-- The check constraint of the column `subscriptions.status`.
pub data Status : Type 0 where
  trialing active past_due canceled expired : Status

abbrev pub or_else : Option Time → Option Time → Option Time
or_else none b = b
or_else (some a) b = some a

-- The later of the update and the renewal, if that is after it.
abbrev pub grace_base : Time → Option Time → Time
grace_base updated_at none = updated_at
grace_base updated_at (some renews_at) = if ltb updated_at renews_at then renews_at else updated_at

-- The last guard: only an expired subscription may lack a date.
abbrev pub require_date : Status → Option Time → Result WebhookError (Status × Option Time)
require_date expired none = ok (expired, none)
require_date s none = err access_date_missing
require_date s (some t) = ok (s, some t)

abbrev pub late_statuses : List Text
late_statuses = lit "paused" ∷ lit "past_due" ∷ lit "unpaid" ∷ []

module _ ⦃go : Platform⦄ where
  unfoldable pub resolve_access : Attributes → Time → ℕ → Result WebhookError (Status × Option Time)
  resolve_access a updated_at grace =
      let s = to_lower (trim_space a.status) in
      let renews_at = optional_provider_time a.renews_at in
      let ends_at = optional_provider_time a.ends_at in
      if text_eq s (lit "on_trial")
      then require_date trialing renews_at
      else if text_eq s (lit "active")
      then require_date active renews_at
      else if any_of s late_statuses
      then require_date past_due (some (grace_base updated_at renews_at + grace))
      else if text_eq s (lit "cancelled")
      then require_date canceled (or_else ends_at renews_at)
      else if text_eq s (lit "expired")
      then require_date expired (or_else ends_at (some updated_at))
      else err unsupported_status
