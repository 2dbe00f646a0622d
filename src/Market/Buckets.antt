-- ===== src/Market/Buckets.antt =====
-- The columns of market_history_buckets (internal/repository/history_repository.go): its primary key
-- and what a bucket measures.
use albion_market_api.Prelude.{◌≡◌, refl, ◌↔◌, Bool, true, ◌&&◌, Option, ◌==◌, ==_iff, arith}
use albion_market_api.Prelude.Int.{ℤ}
use albion_market_api.Text.{Text, text_eq}
use albion_market_api.Text.Equality.{text_eq_iff}
use albion_market_api.Clock.{Time}
use albion_market_api.Seen.{Eq}
use albion_market_api.Maps.{beq_ℤ, beq_ℤ_iff}
use albion_market_api.Market.Server.{same_price, same_price_iff}

pub record Measure : Type 0 where
  pub item_count : ℤ
  pub average_unit_price : Option ℤ

unfoldable pub same_measure : Measure → Measure → Bool
same_measure a b =
    beq_ℤ a.item_count b.item_count && same_price a.average_unit_price b.average_unit_price

pub same_measure_iff : (a b : Measure) → (same_measure a b ≡ true) ↔ (a ≡ b)
unfolding same_measure
same_measure_iff a b = (
  λ h.
      let e₁ = (beq_ℤ_iff a.item_count b.item_count).0 (ground (arith, h)) in
      let e₂ = (same_price_iff a.average_unit_price b.average_unit_price).0 (ground (arith, h)) in
      cc (e₁, e₂),
  λ e.
      rw
        (
          e,
          (beq_ℤ_iff b.item_count b.item_count).1 refl,
          (same_price_iff b.average_unit_price b.average_unit_price).1 refl,
        )
        refl,
)

instance abbrev pub measures : Eq Measure
measures = record { beq = same_measure; beq_iff = same_measure_iff }

pub record BucketKey : Type 0 where
  pub server : ℤ
  pub location_id : ℤ
  pub item_key : Text
  pub quality : ℤ
  pub bucket_at : Time

unfoldable pub same_bucket : BucketKey → BucketKey → Bool
same_bucket a b =
    beq_ℤ a.server b.server
    && beq_ℤ a.location_id b.location_id
    && text_eq a.item_key b.item_key
    && beq_ℤ a.quality b.quality
    && a.bucket_at == b.bucket_at

pub same_bucket_iff : (a b : BucketKey) → (same_bucket a b ≡ true) ↔ (a ≡ b)
unfolding same_bucket
same_bucket_iff a b = (
  λ h.
      let e₁ = (beq_ℤ_iff a.server b.server).0 (ground (arith, h)) in
      let e₂ = (beq_ℤ_iff a.location_id b.location_id).0 (ground (arith, h)) in
      let e₃ = (text_eq_iff a.item_key b.item_key).0 (ground (arith, h)) in
      let e₄ = (beq_ℤ_iff a.quality b.quality).0 (ground (arith, h)) in
      let e₅ = (==_iff a.bucket_at b.bucket_at).0 (ground (arith, h)) in cc (e₁, e₂, e₃, e₄, e₅),
  λ e.
      rw
        (
          e,
          (beq_ℤ_iff b.server b.server).1 refl,
          (beq_ℤ_iff b.location_id b.location_id).1 refl,
          (text_eq_iff b.item_key b.item_key).1 refl,
          (beq_ℤ_iff b.quality b.quality).1 refl,
          (==_iff b.bucket_at b.bucket_at).1 refl,
        )
        refl,
)

instance abbrev pub bucket_keys : Eq BucketKey
bucket_keys = record { beq = same_bucket; beq_iff = same_bucket_iff }
