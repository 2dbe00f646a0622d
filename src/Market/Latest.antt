-- ===== src/Market/Latest.antt =====
-- The reduction of the rows of one ingest to the newest of each key, and the merge of the result with
-- the row of a read model: `latest_sell`, `latest_buy` and the assignments of `upsertCurrent`
-- (internal/repository/market_repository.go), `latest_buckets` and those of `upsertHistory`
-- (history_repository.go).
pub mod Laws
use albion_market_api.Prelude.{
  ℕ, ◌≡◌, Bool, true, false, not, ◌&&◌, ◌||◌, Option, none, some, List, ltb, leb, ◌==◌,
  if◌then◌else◌,
}
use albion_market_api.Clock.{Time}
use albion_market_api.Seen.{Eq}
use albion_market_api.Sql.{select_first}

-- A value and the date it is of, as two columns that may be null; or the columns of `excluded` and of
-- the stored row that an upsert compares.
pub record Dated (V : Type 0) : Type 0 where
  pub value : V
  pub at : Option Time

-- `excluded.at is not null and (stored.at is null or excluded.at >= stored.at)`
abbrev pub at_least : Option Time → Option Time → Bool
at_least none stored = false
at_least (some t) none = true
at_least (some t) (some u) = leb u t

module _ {V : Type 0} where
  -- The `case` of one assignment, for the value and for the date.
  unfoldable pub newest : Dated V → Dated V → Dated V
  newest excluded stored = if at_least excluded.at stored.at then excluded else stored

module _ {V : Type 0} ⦃e : Eq V⦄ where
  -- `excluded.at is not null and (stored.at is null or excluded.at > stored.at or (excluded.at =
  -- stored.at and excluded.value is distinct from stored.value))`
  unfoldable pub is_change : Dated V → Dated V → Bool
  is_change excluded stored = elim excluded.at [
    | none ↦ false
    | some t ↦ elim stored.at [
      | none ↦ true
      | some u ↦ ltb u t || (t == u && not (e.beq excluded.value stored.value))
    ]
  ]

abbrev pub date_of : Option Time → Time
date_of none = 0
date_of (some t) = t

abbrev pub has_date : Option Time → Bool
has_date none = false
has_date (some t) = true

module _ {Raw V : Type 0} (dated : Raw → Dated V) where
  -- `distinct on (key)`, joined on the left: no row gives null.
  abbrev pub or_absent : V → Option Raw → Dated V
  or_absent absent none = record { value = absent; at = none }
  or_absent absent (some r) = dated r

  module _ (observed : Raw → Time) (id : Raw → ℕ) where
    -- `order by at desc, observed_at desc, id desc`, of rows whose date is not null.
    unfoldable pub comes_first : Raw → Raw → Bool
    comes_first r s =
        let at_r = date_of (dated r).at in
        let at_s = date_of (dated s).at in
        ltb at_s at_r
        || (at_s == at_r
            && (ltb (observed s) (observed r) || (observed s == observed r && ltb (id s) (id r))))

module _ {Raw K V : Type 0} ⦃e : Eq K⦄ (key : Raw → K) (dated : Raw → Dated V) where
  -- `where at is not null`, of the rows with the key `k`.
  abbrev pub is_dated_at : K → Raw → Bool
  is_dated_at k r = e.beq (key r) k && has_date (dated r).at

  module _ (observed : Raw → Time) (id : Raw → ℕ) where
    unfoldable pub latest : V → K → List Raw → Dated V
    unfolding comes_first
    latest absent k rows =
        or_absent dated absent (select_first (comes_first dated observed id) (is_dated_at k) rows)
