-- ===== src/Tests/BlackMarket.antt =====
-- The black market at sample prices. The numbers of the sample are integers in place of `float64`.
use albion_market_api.Prelude.{arith, ◌≤◌, ◌≡◌, ◌≢◌, refl, false, none, some, List, [], ◌∷◌}
use albion_market_api.Prelude.Int.{ℤ, pos}
use albion_market_api.Int64.{lt, sub64, mul64}
use albion_market_api.Text.{lit}
use albion_market_api.BlackMarket.Economics.{
  Floating, Totals, totals_of, black_market_order, calculate_economics,
}
use albion_market_api.BlackMarket.Economics.Exact.{IsProduct, calculate_economics-exact}
use albion_market_api.BlackMarket.Risk.{no_competition, opportunity_risk}
use albion_market_api.BlackMarket.Risk.Levels.{rank, opportunity_risk_mono}

abbrev whole : Floating
whole = record {
  Float = ℤ;
  of_int = λ n. n;
  to_int = λ n. n;
  literal = λ n. pos n;
  times = mul64;
  divided = λ a b. a;
  minus = sub64;
  round = λ n. n;
  ceil = λ n. n;
  is_nan = λ n. false;
  is_inf = λ n. false;
  less = lt;
  default_tax = pos 0;
}

abbrev totals : Totals whole
totals = totals_of whole 3 (pos 30) (pos 60) (pos 0) (pos 5)

calculate_economics-exact_example :
    (p s : ℤ) × (some (pos 10) ≡ some p)
    × (some (pos 20) ≡ some s)
    × IsProduct p (pos 3) totals.purchase_cost
    × IsProduct s (pos 3) totals.gross_revenue
unfolding calculate_economics mul64
calculate_economics-exact_example =
    calculate_economics-exact whole 3 (some (pos 10)) (some (pos 20)) black_market_order (pos 0)
      (pos 5) totals refl

abbrev tiers : List ℤ
tiers = pos 8 ∷ pos 5 ∷ pos 8 ∷ []

opportunity_risk_mono_example :
    (rank (opportunity_risk (lit "martlock") 3 4 30 20 none (pos 7) no_competition).0
      ≤ rank (opportunity_risk (lit "martlock") 25 19 30 20 none (pos 7) no_competition).0)
    × ((opportunity_risk (lit "martlock") 3 4 30 20 none (pos 7) no_competition).1 ≢ [])
opportunity_risk_mono_example =
    opportunity_risk_mono (lit "martlock") 3 25 4 19 30 20 none (pos 7) no_competition (omega arith)
      (omega arith)
