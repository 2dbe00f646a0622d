-- ===== src/Accounts/Until.antt =====
-- Until when the status and the date that a subscription event yields (`resolveProductionAccess`,
-- internal/billing/webhook_subscription.go) pass the `where` clause of `activeSubscription`
-- (internal/accounts/accounts.go).
use albion_market_api.Prelude.{
  ℕ, ◌+◌, ◌≡◌, ◌⊎◌, refl, inl, inr, Bool, true, false, ◌&&◌, ◌||◌, Option, none, some, arith, ltb,
  ok, if-eq, Bool-cases,
}
use albion_market_api.Text.{Text, Platform, lit, text_eq, trim_space, to_lower}
use albion_market_api.Text.Equality.{text_eq_iff}
use albion_market_api.Clock.{Time}
use albion_market_api.Billing.Webhook.{Attributes, any_of, optional_provider_time}
use albion_market_api.Billing.Access.{
  Status, trialing, active, past_due, canceled, expired, or_else, grace_base, require_date,
  late_statuses, resolve_access,
}
use albion_market_api.Accounts.{is_open_at, status_grants}

-- Does a row with this status and date give its user access at `t`?
abbrev pub gives : Time → Status → Option Time → Bool
gives t s d = status_grants s d t && is_open_at d t

-- Is `t` before the date, if there is one, put off by `grace`?
abbrev pub is_before : Time → Option Time → ℕ → Bool
is_before t none grace = false
is_before t (some r) grace = ltb t (r + grace)

module _ (t : Time) where
  trialing-gives :
      (o : Option Time) (s : Status) (d : Option Time)
      → require_date trialing o ≡ ok (s, d)
      → (r : Time) × (o ≡ some r) × (gives t s d ≡ ltb t r)
  trialing-gives none s d h = cc
  trialing-gives (some r) s d h =
      let same : s ≡ trialing = cc in let date : d ≡ some r = cc in (r, refl, rw (same, date) refl)

  active-gives :
      (o : Option Time) (s : Status) (d : Option Time)
      → require_date active o ≡ ok (s, d)
      → (r : Time) × (o ≡ some r) × (gives t s d ≡ ltb t r)
  active-gives none s d h = cc
  active-gives (some r) s d h =
      let same : s ≡ active = cc in let date : d ≡ some r = cc in (r, refl, rw (same, date) refl)

  late-gives :
      (updated_at : Time) (renews_at : Option Time) (grace : ℕ) (s : Status) (d : Option Time)
      → require_date past_due (some (grace_base updated_at renews_at + grace)) ≡ ok (s, d)
      → gives t s d ≡ (ltb t (updated_at + grace) || is_before t renews_at grace)
  late-gives updated_at none grace s d h =
      let same : s ≡ past_due = cc in
      let date : d ≡ some (updated_at + grace) = cc in rw (same, date) (ground arith)
  late-gives updated_at (some r) grace s d h =
      let same : s ≡ past_due = cc in
      let date : d ≡ some (grace_base updated_at (some r) + grace) = cc in
      rw (same, date) (ground arith)

  canceled-gives :
      (ends_at renews_at : Option Time) (s : Status) (d : Option Time)
      → require_date canceled (or_else ends_at renews_at) ≡ ok (s, d)
      → (r : Time) × ((ends_at ≡ some r) ⊎ ((ends_at ≡ none) × (renews_at ≡ some r)))
        × (gives t s d ≡ ltb t r)
  canceled-gives (some r) o s d h =
      let same : s ≡ canceled = cc in
      let date : d ≡ some r = cc in (r, inl refl, rw (same, date) (ground arith))
  canceled-gives none none s d h = cc
  canceled-gives none (some r) s d h =
      let same : s ≡ canceled = cc in
      let date : d ≡ some r = cc in (r, inr (refl, refl), rw (same, date) (ground arith))

  expired-gives :
      (o : Option Time) (s : Status) (d : Option Time)
      → require_date expired o ≡ ok (s, d)
      → gives t s d ≡ false
  expired-gives none s d h = let same : s ≡ expired = cc in rw same refl
  expired-gives (some r) s d h = let same : s ≡ expired = cc in rw same refl

any_late :
    (w : Text)
    → any_of w late_statuses ≡ true
    → (w ≡ lit "paused") ⊎ (w ≡ lit "past_due") ⊎ (w ≡ lit "unpaid")
any_late w h = elim (Bool-cases (text_eq w (lit "paused"))) [
  | inl e ↦ inl ((text_eq_iff w (lit "paused")).0 e)
  | inr n ↦ elim (Bool-cases (text_eq w (lit "past_due"))) [
    | inl e ↦ inr (inl ((text_eq_iff w (lit "past_due")).0 e))
    | inr m ↦ inr (inr ((text_eq_iff w (lit "unpaid")).0 (ground (arith, rw (n, m) at h))))
  ]
]

module _ ⦃go : Platform⦄ (a : Attributes) (updated_at : Time) (grace : ℕ) (t : Time) where
  abbrev pub word : Text
  word = to_lower (trim_space a.status)

  abbrev pub renews : Option Time
  renews = optional_provider_time a.renews_at

  abbrev pub ends : Option Time
  ends = optional_provider_time a.ends_at

  -- When the provider's status gives access.
  abbrev pub Grants : Status → Option Time → Type 0
  Grants s d =
      (((word ≡ lit "on_trial") ⊎ (word ≡ lit "active"))
        × ((r : Time) × (renews ≡ some r) × (gives t s d ≡ ltb t r)))
      ⊎ (((word ≡ lit "paused") ⊎ (word ≡ lit "past_due") ⊎ (word ≡ lit "unpaid"))
          × (gives t s d ≡ (ltb t (updated_at + grace) || is_before t renews grace)))
      ⊎ ((word ≡ lit "cancelled")
          × ((r : Time) × ((ends ≡ some r) ⊎ ((ends ≡ none) × (renews ≡ some r)))
              × (gives t s d ≡ ltb t r)))
      ⊎ ((word ≡ lit "expired") × (gives t s d ≡ false))

  -- The status and the date of an accepted subscription give access at a time as follows, by the
  -- provider's status: on_trial and active until the renewal, which is there; paused, past_due and
  -- unpaid for the grace period after the update or the renewal, whichever is later; cancelled until
  -- the end, or without one the renewal, one of which is there; expired never.
  pub resolve_access-gives :
      (s : Status) (d : Option Time) → resolve_access a updated_at grace ≡ ok (s, d) → Grants s d
  unfolding resolve_access
  resolve_access-gives s d h = elim (if-eq (text_eq word (lit "on_trial")) _ _ h) [
    | inl (e, k) ↦
        inl (inl ((text_eq_iff word (lit "on_trial")).0 e), trialing-gives t renews s d k)
    | inr (_, h₁) ↦ elim (if-eq (text_eq word (lit "active")) _ _ h₁) [
      | inl (e, k) ↦ inl (inr ((text_eq_iff word (lit "active")).0 e), active-gives t renews s d k)
      | inr (_, h₂) ↦ elim (if-eq (any_of word late_statuses) _ _ h₂) [
        | inl (e, k) ↦ inr (inl (any_late word e, late-gives t updated_at renews grace s d k))
        | inr (_, h₃) ↦ elim (if-eq (text_eq word (lit "cancelled")) _ _ h₃) [
          | inl (e, k) ↦ inr (
              inr (
                inl ((text_eq_iff word (lit "cancelled")).0 e, canceled-gives t ends renews s d k)))
          | inr (_, h₄) ↦ elim (if-eq (text_eq word (lit "expired")) _ _ h₄) [
            | inl (e, k) ↦
                inr (inr (inr ((text_eq_iff word (lit "expired")).0 e, expired-gives t _ s d k)))
            | inr (_, h₅) ↦ cc
          ]
        ]
      ]
    ]
  ]
