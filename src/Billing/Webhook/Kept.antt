-- ===== src/Billing/Webhook/Kept.antt =====
-- What is kept of a delivery: `validateAndSanitizeWebhook` in internal/billing/webhook_queue.go.
use albion_market_api.Prelude.{
  ℕ, ◌≤◌, ◌≡◌, refl, ◌⊎◌, inl, inr, Bool, true, false, not, ◌&&◌, ◌||◌, some, [], ◌∷◌, ltb,
  if◌then◌else◌, arith, Bool-cases, ok, >>=-eq-ok, fail_if, fail_if-eq-ok,
}
use albion_market_api.Text.{Text, lit, text_eq, is_empty, trim_space, byte_len}
use albion_market_api.Text.Equality.{text_eq_iff}
use albion_market_api.Billing.Webhook.{
  string, CustomData, Envelope, custom_string, is_supported_event, looks_like_uuid, sanitize,
  validate_and_sanitize,
}

-- No custom data, or the identity of a user alone, which has the form of a UUID.
abbrev pub UserOnly : CustomData → Type 0
UserOnly values =
    (values ≡ [])
    ⊎ ((user : Text) × (values ≡ (lit "user_id", string user) ∷ []) × (looks_like_uuid user ≡ true))

pub record IsKept (e : Envelope) (header : Text) (stored : Envelope) : Type 0 where
  pub announced : e.event_name ≡ trim_space header
  pub supported : is_supported_event stored.event_name ≡ true
  pub same_event : stored.event_name ≡ e.event_name
  pub same_type : stored.object_type ≡ e.object_type
  pub same_object : stored.object_id ≡ e.object_id
  pub same_attributes : stored.attributes ≡ e.attributes
  pub short_id : byte_len stored.object_id ≤ 128
  pub user_only : UserOnly stored.custom_data

supported_of : (b : Bool) → not b ≡ false → b ≡ true
supported_of b h = ground arith

announced_of : (b : Bool) (s t : Text) → (b || not (text_eq s t)) ≡ false → s ≡ t
announced_of b s t h = (text_eq_iff s t).0 (ground arith)

short_of : (a b : Bool) (n : ℕ) → (a || b || ltb 128 n) ≡ false → n ≤ 128
short_of a b n h = ground arith

user_of :
    (user : Text)
    → (not (is_empty user) && not (looks_like_uuid user)) ≡ false
    → UserOnly (if is_empty user then [] else (lit "user_id", string user) ∷ [])
user_of user h = elim (Bool-cases (is_empty user)) [
  | inl anonymous ↦ rw anonymous (inl refl)
  | inr named ↦ rw named (inr (user, refl, ground (arith, named, h)))
]

-- Of a delivery that is accepted, the stored envelope has the name of the event, which is supported
-- and the one of the header, the type, identity (of at most 128 bytes) and attributes of its
-- object, and of the custom data at most the identity of the user, in the form of a UUID.
pub validate_and_sanitize-IsKept :
    (e returned stored : Envelope) (header : Text)
    → validate_and_sanitize (some e) header ≡ ok (returned, stored)
    → (returned ≡ e) × IsKept e header stored
unfolding validate_and_sanitize sanitize
validate_and_sanitize-IsKept e returned stored header h =
    let (x₀, h₀, k₀) =
      >>=-eq-ok
        (fail_if
          (is_empty (trim_space e.event_name) || not (text_eq e.event_name (trim_space header))) _)
        _ h in
    let (x₁, h₁, k₁) = >>=-eq-ok (fail_if (not (is_supported_event e.event_name)) _) _ k₀ in
    let (x₂, h₂, k₂) =
      >>=-eq-ok
        (fail_if
          (is_empty (trim_space e.object_type)
            || is_empty (trim_space e.object_id)
            || ltb 128 (byte_len e.object_id))
          _)
        _ k₁ in
    let user = custom_string e.custom_data (lit "user_id") in
    let (x₃, h₃, k₃) =
      >>=-eq-ok (fail_if (not (is_empty user) && not (looks_like_uuid user)) _) _ k₂ in
    let is : stored ≡ sanitize e = cc k₃ in
    (
      cc k₃,
      rw is (record {
        announced =
            announced_of (is_empty (trim_space e.event_name)) e.event_name (trim_space header)
              (fail_if-eq-ok _ _ h₀);
        supported = supported_of (is_supported_event e.event_name) (fail_if-eq-ok _ _ h₁);
        same_event = refl;
        same_type = refl;
        same_object = refl;
        same_attributes = refl;
        short_id =
            short_of (is_empty (trim_space e.object_type)) (is_empty (trim_space e.object_id))
              (byte_len e.object_id) (fail_if-eq-ok _ _ h₂);
        user_only = user_of user (fail_if-eq-ok _ _ h₃);
      }),
    )
