-- ===== src/BlackMarket/Filters/Normal.antt =====
-- What an accepted request for opportunities is.
use albion_market_api.Prelude.{ℕ, ◌≡◌, Distinct, false, List, In, All}
use albion_market_api.Prelude.Int.{ℤ, pos}
use albion_market_api.Int64.{lt}
use albion_market_api.Maps.{location_keys}
use albion_market_api.Sort.Laws.{IsSorted}

-- The values of a filter that was accepted: in range, ascending, and those that were asked for.
pub record IsFilter (minimum maximum : ℕ) (asked kept : List ℤ) : Type 0 where
  pub in_range : All (λ v. (lt v (pos minimum) ≡ false) × (lt (pos maximum) v ≡ false)) kept
  pub ascending : IsSorted lt kept
  pub distinct : Distinct kept
  pub complete : (v : ℤ) → In v asked → In v kept
  pub sound : (v : ℤ) → In v kept → In v asked
