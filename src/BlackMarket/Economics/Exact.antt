-- ===== src/BlackMarket/Economics/Exact.antt =====
-- The products of an analysis are exact.
use albion_market_api.Prelude.{
  ℕ, zero, suc, sym, ◌∙◌, Bool-cases, ◌*◌, ◌/◌, ◌^◌, ◌<◌, ◌≤◌, ◌≡◌, refl, inl, inr, Option, none,
  some, arith,
}
use mathlib.Core.Path.{subst}
use native.Mathlib.Nat.{le-div_iff_mul-le, mul_comm}
use albion_market_api.Prelude.Int.{ℤ, pos, negsuc}
use albion_market_api.Int64.{lt, mul64, mul64_pos}
use albion_market_api.BlackMarket.Economics.{
  max_int64, multiply, Floating, Totals, totals_of, totals_if, product_of, SaleSource,
  calculate_economics,
}

-- Both factors are not negative, and their product, which is the answer, fits.
pub record IsProduct (left right answer : ℤ) : Type 0 where
  pub a : ℕ
  pub b : ℕ
  pub left_is : left ≡ pos a
  pub right_is : right ≡ pos b
  pub answer_is : answer ≡ pos (a * b)
  pub fits : a * b < 2 ^ 63

product_fits : (a b : ℕ) → 0 < a → b ≤ max_int64 / a → a * b < 2 ^ 63
product_fits a b h k =
    let fits = (le-div_iff_mul-le {k = a} {x = b} {y = max_int64} h).0 k in
    let same : a * b ≡ b * a = mul_comm a b in omega (arith, fits, same)

multiply-IsProduct :
    (left right answer : ℤ) → multiply left right ≡ some answer → IsProduct left right answer
unfolding multiply
multiply-IsProduct (negsuc a) right answer h = ground (arith, h)
multiply-IsProduct (pos a) (negsuc b) answer h = ground (arith, h)
multiply-IsProduct (pos zero) (pos b) answer h =
    let is : mul64 (pos 0) (pos b) ≡ answer = ground (arith, h) in
    record {
      a = 0;
      b = b;
      left_is = refl;
      right_is = refl;
      answer_is = sym is ∙ mul64_pos 0 b (omega arith);
      fits = omega arith;
    }
multiply-IsProduct (pos (suc a)) (pos b) answer h =
    elim (Bool-cases (lt (pos (max_int64 / suc a)) (pos b))) [
      | inl over ↦ ground (arith, h, over)
      | inr within ↦
          let small = product_fits (suc a) b (omega arith) (ground (arith, within)) in
          let is : mul64 (pos (suc a)) (pos b) ≡ answer = ground (arith, h, within) in
          record {
            a = suc a;
            b = b;
            left_is = refl;
            right_is = refl;
            answer_is = sym is ∙ mul64_pos (suc a) b small;
            fits = small;
          }
    ]

module _ (math : Floating) where
  totals_if-some :
      (quantity : ℕ) (cost gross : Option ℤ) (rate : math.Float) (transport : ℤ) (t : Totals math)
      → totals_if math quantity cost gross rate transport ≡ some t
      → (c g : ℤ) × (cost ≡ some c)
        × (gross ≡ some g)
        × (t.purchase_cost ≡ c)
        × (t.gross_revenue ≡ g)
  unfolding totals_of
  totals_if-some quantity none gross rate transport t h = cc
  totals_if-some quantity (some c) none rate transport t h = cc
  totals_if-some quantity (some c) (some g) rate transport t h = (c, g, refl, refl, cc, cc)

  product_of-IsProduct :
      (price : Option ℤ) (quantity : ℕ) (answer : ℤ)
      → product_of math price quantity ≡ some answer
      → (p : ℤ) × (price ≡ some p) × IsProduct p (pos quantity) answer
  product_of-IsProduct none quantity answer h = cc
  product_of-IsProduct (some p) quantity answer h =
      (p, refl, multiply-IsProduct p (pos quantity) answer h)

  -- Where the economics are ready both prices are there and not negative, and the cost of the purchase
  -- and the gross revenue are their exact products with the quantity, below 2^63: the
  -- multiplication has not wrapped.
  pub calculate_economics-exact :
      (quantity : ℕ) (purchase sale : Option ℤ) (source : SaleSource) (rate : math.Float)
      (transport : ℤ) (t : Totals math)
      → (calculate_economics math quantity purchase sale source rate transport).totals ≡ some t
      → (p s : ℤ) × (purchase ≡ some p)
        × (sale ≡ some s)
        × IsProduct p (pos quantity) t.purchase_cost
        × IsProduct s (pos quantity) t.gross_revenue
  unfolding calculate_economics
  calculate_economics-exact quantity purchase sale source rate transport t h =
      let (c, g, hc, hg, is_c, is_g) =
        totals_if-some quantity (product_of math purchase quantity) (product_of math sale quantity)
          rate transport t h in
      let one = product_of-IsProduct purchase quantity c hc in
      let two = product_of-IsProduct sale quantity g hg in
      (
        one.0,
        two.0,
        one.1,
        two.1,
        subst (λ x. IsProduct one.0 (pos quantity) x) (sym is_c) one.2,
        subst (λ x. IsProduct two.0 (pos quantity) x) (sym is_g) two.2,
      )
