-- ===== src/BlackMarket/Risk/Levels.antt =====
-- An older price is never a smaller risk.
use albion_market_api.Prelude.{ℕ, ◌+◌, ◌≤◌, ◌≢◌, Option, List, [], ◌∷◌, arith}
use albion_market_api.Prelude.Int.{ℤ}
use albion_market_api.Text.{Text}
use albion_market_api.BlackMarket.Risk.{
  Competition, RiskLevel, low, medium, high, RiskReason, age_risk, level_of, or_nothing, risk_score,
  opportunity_risk,
}

abbrev pub rank : RiskLevel → ℕ
rank low = 0
rank medium = 1
rank high = 2

age_risk_mono :
    (a b most : ℕ) (near half : RiskReason)
    → a ≤ b
    → (age_risk a most near half).0 ≤ (age_risk b most near half).0
age_risk_mono a b most near half h = ground (arith, h)

level_of_mono : (m n : ℕ) → m ≤ n → rank (level_of m) ≤ rank (level_of n)
level_of_mono m n h = ground (arith, h)

score_mono :
    (m n p q x y : ℕ)
    → m ≤ n
    → p ≤ q
    → rank (level_of (m + p + x + y)) ≤ rank (level_of (n + q + x + y))
score_mono m n p q x y h k = level_of_mono (m + p + x + y) (n + q + x + y) (omega (arith, h, k))

or_nothing-some : (reasons : List RiskReason) → or_nothing reasons ≢ []
or_nothing-some [] h = cc
or_nothing-some (r ∷ reasons) h = cc

-- Of two opportunities that differ in the ages of their prices alone, the one with the older
-- prices has no lower level of risk; and an assessment always has a reason.
pub opportunity_risk_mono :
    (market : Text) (a b c d most_city most_black_market : ℕ) (sell : Option ℤ) (buy : ℤ)
    (competition : Competition)
    → a ≤ b
    → c ≤ d
    → (rank (opportunity_risk market a c most_city most_black_market sell buy competition).0
        ≤ rank (opportunity_risk market b d most_city most_black_market sell buy competition).0)
      × ((opportunity_risk market a c most_city most_black_market sell buy competition).1 ≢ [])
unfolding opportunity_risk risk_score
opportunity_risk_mono market a b c d most_city most_black_market sell buy competition h k =
    let one =
      age_risk_mono a b most_city RiskReason.purchase_near_limit RiskReason.purchase_half_used h in
    let two =
      age_risk_mono c d most_black_market RiskReason.black_market_near_limit
        RiskReason.black_market_half_used k in
    (score_mono _ _ _ _ _ _ one two, or_nothing-some _)
