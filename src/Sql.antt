-- ===== src/Sql.antt =====
-- `select ... where test order by ... limit 1`: the first of the rows that pass the test. Of rows
-- that the order leaves equal PostgreSQL may return any; here it is the one that stands first.
pub mod First
pub mod Upsert
use albion_market_api.Prelude.{Bool, true, false, Option, none, some, List, [], ◌∷◌, if◌then◌else◌}

module _ {A : Type 0} (before : A → A → Bool) where
  -- `r` stands in front of the choice so far and loses only to one that comes strictly before it.
  abbrev pub earlier : A → Option A → Option A
  earlier r none = some r
  earlier r (some s) = if before s r then some s else some r

  unfoldable pub select_first : (A → Bool) → List A → Option A
  select_first test [] = none
  select_first test (r ∷ rows) =
      let rest = select_first test rows in if test r then earlier r rest else rest
