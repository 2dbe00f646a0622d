-- ===== src/Billing/Queue/Pick.antt =====
-- The order of the query `candidate`, and the row that it picks.
use albion_market_api.Prelude.{ℕ, ◌≡◌, Bool, true, false, Option, none, some, List, arith, In}
use albion_market_api.Clock.{Time}
use albion_market_api.Sql.First.{IsFirst, IsOrder, select_first-some, select_first-none}
use albion_market_api.Billing.Queue.{Event, is_claimable, comes_before, is_open, candidate, taken}

module _ {P : Type 0} where
  pub taken-some :
      (answered : Bool) (o : Option (Event P)) (r : Event P)
      → taken answered o ≡ some r
      → o ≡ some r
  taken-some false o r h = cc
  taken-some true o r h = h

  irrefl : (r : Event P) → comes_before r r ≡ false
  unfolding comes_before
  irrefl r = ground arith

  asym : (r s : Event P) → comes_before s r ≡ true → comes_before r s ≡ false
  unfolding comes_before
  asym r s h = ground arith

  trans :
      (r s t : Event P)
      → comes_before s r ≡ false
      → comes_before t s ≡ false
      → comes_before t r ≡ false
  unfolding comes_before
  trans r s t h k = ground arith

  comes_before-IsOrder : IsOrder (comes_before {P = P})
  comes_before-IsOrder = record { irrefl = irrefl; asym = asym; trans = trans }

  module _ (skipped : Event P → Bool) (now : Time) (max_attempts lease : ℕ) where
    pub candidate-IsFirst :
        (rows : List (Event P)) (r : Event P)
        → candidate skipped now max_attempts lease rows ≡ some r
        → IsFirst comes_before (is_open skipped now max_attempts lease) rows r
    unfolding candidate
    candidate-IsFirst = select_first-some comes_before comes_before-IsOrder _

    pub candidate-none :
        (rows : List (Event P))
        → candidate skipped now max_attempts lease rows ≡ none
        → (s : Event P) → In s rows
        → is_open skipped now max_attempts lease s ≡ false
    unfolding candidate
    candidate-none = select_first-none comes_before comes_before-IsOrder _

    pub open-is_claimable :
        (r : Event P)
        → is_open skipped now max_attempts lease r ≡ true
        → is_claimable now max_attempts lease r ≡ true
    open-is_claimable r h = ground arith
