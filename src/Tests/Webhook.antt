-- ===== src/Tests/Webhook.antt =====
-- The validation of a delivery at sample data.
use albion_market_api.Prelude.{◌≡◌, refl, [], ◌∷◌}
use albion_market_api.Text.{lit, is_empty, trim_space, byte_len}
use albion_market_api.Billing.Webhook.{
  Envelope, string, sanitize, is_supported_event, custom_string, looks_like_uuid,
  validate_and_sanitize,
}
use albion_market_api.Billing.Webhook.Kept.{IsKept, validate_and_sanitize-IsKept}
use albion_market_api.Tests.Subscriptions.{started}

abbrev delivery : Envelope
delivery = record started {
  custom_data =
      (lit "email", string (lit "a@b.c"))
      ∷ (lit "user_id", string (lit " 123e4567-e89b-12d3-a456-426614174000"))
      ∷ [];
}

validate_and_sanitize-IsKept_example :
    (delivery ≡ delivery) × IsKept delivery (lit "subscription_updated ") (sanitize delivery)
unfolding validate_and_sanitize is_empty trim_space is_supported_event byte_len custom_string
    looks_like_uuid
validate_and_sanitize-IsKept_example =
    validate_and_sanitize-IsKept delivery delivery (sanitize delivery) (lit "subscription_updated ")
      refl
