-- ===== src/Billing/Subscriptions/SameAccess.antt =====
-- Rows of a subscription that give the same access, and two upserts in either order:
-- internal/billing/webhook_subscription.go.
use albion_market_api.Prelude.{ℕ, ◌≡◌, ◌≢◌, ◌<◌, sym, ◌∙◌, ◌⊎◌, inl, inr, Option, none, some, arith}
use albion_market_api.Clock.{Time}
use albion_market_api.Billing.Subscriptions.{Subscription, merge_subscription}
use albion_market_api.Billing.Subscriptions.Rows.{applied}

-- What two rows agree on if they give the same access.
pub record SameAccess (r q : Subscription) : Type 0 where
  pub same_user : r.user_id ≡ q.user_id
  pub same_plan : r.plan ≡ q.plan
  pub same_status : r.status ≡ q.status
  pub same_access : r.access_until ≡ q.access_until
  pub same_update : r.provider_updated_at ≡ q.provider_updated_at
  pub same_end : r.period_end ≡ q.period_end
  pub same_cancel : r.cancel_at_period_end ≡ q.cancel_at_period_end
  pub same_variant : r.variant_id ≡ q.variant_id

-- Two rows with different update dates, applied in either order to any row or none, give the same
-- access.
applied_comm :
    (n₁ n₂ m₁ m₂ : Time) (a b a' b' : Subscription) (o : Option Subscription) (u v : Time)
    → a.provider_updated_at ≡ some u
    → b.provider_updated_at ≡ some v
    → u < v
    → SameAccess a a'
    → SameAccess b b'
    → SameAccess (applied n₂ b (some (applied n₁ a o))) (applied m₂ a' (some (applied m₁ b' o)))
unfolding merge_subscription
applied_comm n₁ n₂ m₁ m₂ a b a' b' none u v p q h s t = ground arith
applied_comm n₁ n₂ m₁ m₂ a b a' b' (some r) u v p q h s t = ground arith

apart : (u v : ℕ) → u ≢ v → (u < v) ⊎ (v < u)
apart u v ne = omega arith

SameAccess-sym : (r q : Subscription) → SameAccess r q → SameAccess q r
SameAccess-sym r q h = record {
  same_user = sym h.same_user;
  same_plan = sym h.same_plan;
  same_status = sym h.same_status;
  same_access = sym h.same_access;
  same_update = sym h.same_update;
  same_end = sym h.same_end;
  same_cancel = sym h.same_cancel;
  same_variant = sym h.same_variant;
}

pub commute :
    (n₁ n₂ m₁ m₂ : Time) (a b a' b' : Subscription) (o : Option Subscription) (u v : Time)
    → a.provider_updated_at ≡ some u
    → b.provider_updated_at ≡ some v
    → u ≢ v
    → SameAccess a a'
    → SameAccess b b'
    → SameAccess (applied n₂ b (some (applied n₁ a o))) (applied m₁ a' (some (applied m₂ b' o)))
commute n₁ n₂ m₁ m₂ a b a' b' o u v p q ne s t = elim (apart u v ne) [
  | inl less ↦ applied_comm n₁ n₂ m₂ m₁ a b a' b' o u v p q less s t
  | inr more ↦ SameAccess-sym _ _ (
      applied_comm m₂ m₁ n₁ n₂ b' a' b a o v u (sym t.same_update ∙ q) (sym s.same_update ∙ p) more
        (SameAccess-sym b b' t) (SameAccess-sym a a' s))
]
