-- ===== src/Market/Prices/Order.antt =====
-- The order of the rows of an answer.
use albion_market_api.Prelude.{
  ℕ, ◌≡◌, refl, Bool, true, false, not, ◌==◌, ltb, List, if◌then◌else◌, arith,
}
use albion_market_api.Prelude.Int.{ℤ}
use albion_market_api.Int64.{lt}
use albion_market_api.Text.{Text, text_eq, text_lt}
use albion_market_api.Text.Equality.{
  text_eq_iff, text_lt_irrefl, text_lt_asym, text_lt_total, text_lt_trans_false,
}
use albion_market_api.Sql.First.{IsOrder}
use albion_market_api.Market.Domain.{CurrentPrice}
use albion_market_api.Market.Prices.{rank_of, price_before}

-- The three comparisons of a row, on ranks instead of markets.
ranked : ℕ → Text → ℤ → ℕ → Text → ℤ → Bool
ranked m s a n t b =
    if not (m == n) then ltb m n else if not (text_eq s t) then text_lt s t else lt a b

ranked_trans_false :
    (m n o : ℕ) (s t u : Text) (a b c : ℤ)
    → ranked n t b m s a ≡ false
    → ranked o u c n t b ≡ false
    → ranked o u c m s a ≡ false
unfolding ranked
ranked_trans_false m n o s t u a b c h k = ground (
  arith,
  text_lt_trans_false s t u,
  text_lt_total s t,
  text_lt_total t u,
  text_lt_total s u,
  text_eq_iff t s,
  text_eq_iff u t,
  text_eq_iff u s,
  text_eq_iff s t,
  text_eq_iff t u,
  text_eq_iff s u,
  text_lt_asym s t,
  text_lt_asym t u,
  text_lt_asym u t,
)

ranked_irrefl : (m : ℕ) (s : Text) (a : ℤ) → ranked m s a m s a ≡ false
unfolding ranked
ranked_irrefl m s a = ground (arith, text_lt_irrefl s)

ranked_asym :
    (m n : ℕ) (s t : Text) (a b : ℤ) → ranked n t b m s a ≡ true → ranked m s a n t b ≡ false
unfolding ranked
ranked_asym m n s t a b h = ground (arith, text_lt_asym t s, text_eq_iff s t, text_eq_iff t s)

module _ (order : List (Text × ℕ)) where
  ranked_eq :
      (p q : CurrentPrice)
      → price_before order p q
        ≡ ranked
            (rank_of p.market_key order)
            p.item_key
            p.quality
            (rank_of q.market_key order)
            q.item_key
            q.quality
  unfolding price_before ranked
  ranked_eq p q = refl

  pub price_before-IsOrder : IsOrder (price_before order)
  price_before-IsOrder = record {
    irrefl = λ p. rw (ranked_eq p p) (ranked_irrefl _ _ _);
    asym = λ p q h. rw (ranked_eq p q) (ranked_asym _ _ _ _ _ _ (rw (ranked_eq q p) at h));
    trans = λ p q r h k.
        rw (ranked_eq r p) (
          ranked_trans_false _ _ _ _ _ _ _ _ _ (rw (ranked_eq q p) at h) (rw (ranked_eq r q) at k));
  }
