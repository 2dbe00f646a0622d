-- ===== src/Billing/Webhook.antt =====
-- internal/billing/webhook_types.go and the validation in webhook_queue.go: the decoded envelope,
-- what a delivery must satisfy to be queued, and what is kept of it. The decoding of JSON is the
-- caller's: `none` stands for a body that does not decode, or that has more behind the envelope.
pub mod Kept
use albion_market_api.Prelude.{
  ℕ, ◌+◌, Bool, true, false, not, ◌&&◌, ◌||◌, Option, none, some, List, [], ◌∷◌, ltb, leb, ◌==◌,
  if◌then◌else◌, Result, ok, err, ◌>>◌, fail_if,
}
use albion_market_api.Prelude.Int.{ℤ, pos}
use albion_market_api.Int64.{le}
use albion_market_api.Text.{
  Text, Platform, lit, text_eq, is_empty, trim_space, format_int, utf8, byte_len,
}
use albion_market_api.Clock.{Time, zero_time}

-- A value of `map[string]any`: a string, a `json.Number`, or something else.
pub data CustomValue : Type 0 where
  string : Text → CustomValue
  number : Text → CustomValue
  other : CustomValue

abbrev pub CustomData : Type 0
CustomData = List (Text × CustomValue)

pub record Attributes : Type 0 where
  pub store_id : ℤ
  pub customer_id : ℤ
  pub order_id : ℤ
  pub subscription_id : ℤ
  pub variant_id : ℤ
  pub status : Text
  pub cancelled : Bool
  pub renews_at : Text
  pub ends_at : Text
  pub created_at : Text
  pub updated_at : Text
  pub test_mode : Bool
  pub first_variant_id : ℤ

pub record Envelope : Type 0 where
  pub event_name : Text
  pub custom_data : CustomData
  pub object_type : Text
  pub object_id : Text
  pub attributes : Attributes

-- `ErrInvalidWebhook` with its details, and the other errors of the processing.
pub data WebhookError : Type 0 where
  decode_payload header_mismatch unsupported_event invalid_identity invalid_user : WebhookError
  scope_mismatch invalid_order invalid_invoice invalid_subscription : WebhookError
  unsupported_status access_date_missing unknown_user no_user : WebhookError
  invalid_event_id not_enqueued not_synchronized database : WebhookError

-- `errors.Is(err, ErrInvalidWebhook)`.
abbrev pub is_invalid_webhook : WebhookError → Bool
is_invalid_webhook not_synchronized = false
is_invalid_webhook database = false
is_invalid_webhook _ = true

unfoldable pub lookup_custom : Text → CustomData → Option CustomValue
lookup_custom key [] = none
lookup_custom key ((k, v) ∷ rest) = if text_eq k key then some v else lookup_custom key rest

abbrev pub custom_text : Option CustomValue → Text
custom_text none = []
custom_text (some (string s)) = trim_space s
custom_text (some (number s)) = s
custom_text (some other) = []

-- `customString`.
unfoldable pub custom_string : CustomData → Text → Text
unfolding lookup_custom
custom_string values key = custom_text (lookup_custom key values)

abbrev pub any_of : Text → List Text → Bool
any_of s [] = false
any_of s (t ∷ ts) = text_eq s t || any_of s ts

abbrev pub payment_events : List Text
payment_events =
    lit "subscription_payment_failed"
    ∷ lit "subscription_payment_recovered"
    ∷ lit "subscription_payment_success"
    ∷ []

abbrev pub subscription_events : List Text
subscription_events =
    lit "subscription_created"
    ∷ lit "subscription_updated"
    ∷ lit "subscription_cancelled"
    ∷ lit "subscription_resumed"
    ∷ lit "subscription_expired"
    ∷ lit "subscription_paused"
    ∷ lit "subscription_unpaused"
    ∷ []

-- `isSupportedWebhookEvent`.
unfoldable pub is_supported_event : Text → Bool
is_supported_event name =
    let s = trim_space name in
    text_eq s (lit "order_created") || any_of s subscription_events || any_of s payment_events

abbrev pub is_hex_digit : ℕ → Bool
is_hex_digit c =
    (leb b'0' c && leb c b'9') || (leb b'a' c && leb c b'f') || (leb b'A' c && leb c b'F')

abbrev pub is_dash_place : ℕ → Bool
is_dash_place i = i == 8 || i == 13 || i == 18 || i == 23

-- The characters from index `i` on: dashes at their four places, hexadecimal digits elsewhere.
unfoldable pub uuid_from : ℕ → Text → Bool
uuid_from i [] = true
uuid_from i (c ∷ s) = (if is_dash_place i then c == b'-' else is_hex_digit c) && uuid_from (i + 1) s

-- `looksLikeUUID`. The bytes of the text are 36; the loop over its runes lets only ASCII through.
unfoldable pub looks_like_uuid : Text → Bool
unfolding uuid_from
looks_like_uuid value =
    let s = utf8 (trim_space value) in byte_len (trim_space value) == 36 && uuid_from 0 s

-- The fields of `Service` that the validation reads.
pub record WebhookScope : Type 0 where
  pub store_id : Text
  pub variant_id : Text
  pub expected_test_mode : Bool

-- The branches of `validateWebhookScope`, by the name of the event.
unfoldable pub validate_object : WebhookScope → Envelope → Result WebhookError (Unit {0})
validate_object s e =
    if text_eq e.event_name (lit "order_created")
    then fail_if
        (not (text_eq e.object_type (lit "orders"))
          || not (text_eq e.attributes.status (lit "paid"))
          || not (text_eq (format_int e.attributes.first_variant_id) s.variant_id))
        invalid_order
    else if any_of e.event_name payment_events
    then fail_if
        (not (text_eq e.object_type (lit "subscription-invoices"))
          || le e.attributes.subscription_id (pos 0))
        invalid_invoice
    else if text_eq e.event_name (lit "subscription_created")
    then fail_if
        (not (text_eq e.object_type (lit "subscriptions"))
          || not (text_eq (format_int e.attributes.variant_id) s.variant_id))
        invalid_subscription
    else fail_if
        (not (text_eq e.object_type (lit "subscriptions")) || le e.attributes.variant_id (pos 0))
        invalid_subscription

abbrev pub same_flag : Bool → Bool → Bool
same_flag true b = b
same_flag false b = not b

-- `validateWebhookScope`.
unfoldable pub validate_scope : WebhookScope → Envelope → Result WebhookError (Unit {0})
validate_scope s e = do
  fail_if
      (not (text_eq (format_int e.attributes.store_id) s.store_id)
        || not (same_flag e.attributes.test_mode s.expected_test_mode))
      scope_mismatch
  validate_object s e

-- The envelope that is stored: the event, the user, the object, and nothing else of the custom data.
unfoldable pub sanitize : Envelope → Envelope
sanitize e =
    let user = custom_string e.custom_data (lit "user_id") in
    record e { custom_data = if is_empty user then [] else (lit "user_id", string user) ∷ [] }

-- `validateAndSanitizeWebhook`.
unfoldable pub validate_and_sanitize :
    Option Envelope → Text → Result WebhookError (Envelope × Envelope)
validate_and_sanitize none header = err decode_payload
validate_and_sanitize (some e) header = do
  fail_if (is_empty (trim_space e.event_name) || not (text_eq e.event_name (trim_space header)))
      header_mismatch
  fail_if (not (is_supported_event e.event_name)) unsupported_event
  fail_if
      (is_empty (trim_space e.object_type)
        || is_empty (trim_space e.object_id)
        || ltb 128 (byte_len e.object_id))
      invalid_identity
  let user = custom_string e.custom_data (lit "user_id")
  fail_if (not (is_empty user) && not (looks_like_uuid user)) invalid_user
  ok (e, sanitize e)

-- `productionProviderTime`: the zero time for a text that does not parse.
unfoldable pub provider_time : ⦃go : Platform⦄ → Text → Time
provider_time ⦃go⦄ value = elim (go.parse_rfc3339 (trim_space value)) [
  | none ↦ zero_time
  | some t ↦ t
]

-- `productionOptionalProviderTime`.
unfoldable pub optional_provider_time : ⦃go : Platform⦄ → Text → Option Time
optional_provider_time value =
    let t = provider_time value in if t == zero_time then none else some t
