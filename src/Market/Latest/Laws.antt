-- ===== src/Market/Latest/Laws.antt =====
-- The newest value of a key, in a set of rows and after a merge.
use albion_market_api.Prelude.{
  ℕ, ◌≤◌, ◌≡◌, refl, ◌⊎◌, inl, inr, true, false, ◌&&◌, Option, none, some, List, arith, ltb, leb,
  ◌==◌, ◌||◌, not, In, Bool-cases, Option-cases,
}
use albion_market_api.Clock.{Time}
use albion_market_api.Seen.{Eq}
use albion_market_api.Sql.{select_first}
use albion_market_api.Sql.First.{IsOrder, select_first-some, select_first-none}
use albion_market_api.Market.Latest.{
  Dated, at_least, newest, is_change, comes_first, is_dated_at, or_absent, latest,
}

-- An update that the `where` clause suppresses would have changed nothing.
pub newest-unchanged :
    {V : Type 0} ⦃e : Eq V⦄ (excluded stored : Dated V)
    → is_change excluded stored ≡ false
    → newest excluded stored ≡ stored
unfolding newest is_change
newest-unchanged ⦃e = e⦄ excluded stored h = elim (Option-cases excluded.at) [
  | inl n ↦ rw n refl
  | inr (t, is_t) ↦ elim (Option-cases stored.at) [
    | inl n ↦ cc (rw (is_t, n) at h)
    | inr (u, is_u) ↦ elim (Bool-cases (leb u t)) [
      | inr older ↦
          let shut : at_least excluded.at stored.at ≡ false = rw (is_t, is_u) older in rw shut refl
      | inl newer ↦
          let k : (ltb u t || (t == u && not (e.beq excluded.value stored.value))) ≡ false =
            rw (is_t, is_u) at h in
          let same_at : t ≡ u = ground arith in
          let same : excluded.value ≡ stored.value =
            (e.beq_iff excluded.value stored.value).0 (ground arith) in
          let equal : excluded ≡ stored = cc (same, is_t, is_u, same_at) in
          let taken : at_least excluded.at stored.at ≡ true = rw (is_t, is_u) newer in
          rw taken equal
    ]
  ]
]

-- And one that it lets through replaces the row.
pub newest-changed :
    {V : Type 0} ⦃e : Eq V⦄ (excluded stored : Dated V)
    → is_change excluded stored ≡ true
    → newest excluded stored ≡ excluded
unfolding newest is_change
newest-changed ⦃e = e⦄ excluded stored h = elim (Option-cases excluded.at) [
  | inl n ↦ cc (rw n at h)
  | inr (t, is_t) ↦ elim (Option-cases stored.at) [
    | inl n ↦ let taken : at_least excluded.at stored.at ≡ true = rw (is_t, n) refl in rw taken refl
    | inr (u, is_u) ↦
        let k : (ltb u t || (t == u && not (e.beq excluded.value stored.value))) ≡ true =
          rw (is_t, is_u) at h in
        let le : leb u t ≡ true = ground (arith, k) in
        let taken : at_least excluded.at stored.at ≡ true = rw (is_t, is_u) le in rw taken refl
  ]
]

-- What the test of an assignment says of the two dates.
at_least-le :
    (a b : Option Time) (u : Time)
    → at_least a b ≡ true
    → b ≡ some u
    → (t : Time) × (a ≡ some t) × (u ≤ t)
at_least-le none b u h k = cc
at_least-le (some t) none u h k = cc
at_least-le (some t) (some v) u h k = (t, refl, ground arith)

at_least-lt :
    (a b : Option Time) (u : Time)
    → at_least a b ≡ false
    → a ≡ some u
    → (t : Time) × (b ≡ some t) × (u ≤ t)
at_least-lt none b u h k = cc
at_least-lt (some t) none u h k = cc
at_least-lt (some t) (some v) u h k = (v, refl, ground arith)

-- A value without a date is the absent one.
abbrev pub IsBlank : {V : Type 0} → V → Dated V → Type 0
IsBlank absent q = q.at ≡ none → q.value ≡ absent

pub newest-IsBlank :
    {V : Type 0} (absent : V) (p q : Dated V)
    → IsBlank absent p
    → IsBlank absent q
    → IsBlank absent (newest p q)
unfolding newest
newest-IsBlank absent p q hp hq = elim (Bool-cases (at_least p.at q.at)) [
  | inl newer ↦ rw newer hp
  | inr older ↦ rw older hq
]

module _ {Raw K V : Type 0} ⦃e : Eq K⦄ (key : Raw → K) (dated : Raw → Dated V) where
  -- `q` is a value of the key `k` in the rows, with no later one; without a date there is none.
  pub record IsNewest (rows : List Raw) (k : K) (q : Dated V) : Type 0 where
    pub from : (t : Time) → q.at ≡ some t → (r : Raw) × In r rows × (key r ≡ k) × (dated r ≡ q)
    pub bound :
        (r : Raw) (u : Time)
        → In r rows
        → key r ≡ k
        → (dated r).at ≡ some u
        → (t : Time) × (q.at ≡ some t) × (u ≤ t)

  -- Rows of other keys do not count.
  pub IsNewest-within :
      (all part : List Raw) (k : K) (p : Dated V)
      → ((r : Raw) → In r part → In r all)
      → ((r : Raw) → In r all → key r ≡ k → In r part)
      → IsNewest part k p
      → IsNewest all k p
  IsNewest-within all part k p sub within is = record {
    from = λ t e. let (r, m, at_key, same) = is.from t e in (r, sub r m, at_key, same);
    bound = λ r u m at_key dates. is.bound r u (within r m at_key) at_key dates;
  }

  -- The newest value of a table is the newer one of those of two parts of it.
  pub newest-IsNewest :
      (all old part : List Raw) (k : K) (p q : Dated V)
      → ((r : Raw) → In r old → In r all)
      → ((r : Raw) → In r part → In r all)
      → ((r : Raw) → In r all → In r old ⊎ In r part)
      → IsNewest old k q
      → IsNewest part k p
      → IsNewest all k (newest p q)
  unfolding newest
  newest-IsNewest all old part k p q sub₁ sub₂ cover of_old of_part =
      elim (Bool-cases (at_least p.at q.at)) [
        | inl newer ↦
            let taken : IsNewest all k p = record {
              from = λ t e. let (r, m, at_key, is) = of_part.from t e in (r, sub₂ r m, at_key, is);
              bound = λ r u m at_key dates. elim (cover r m) [
                | inr in_part ↦ of_part.bound r u in_part at_key dates
                | inl in_old ↦
                    let (t, is_t, le) = of_old.bound r u in_old at_key dates in
                    let (v, is_v, le₂) = at_least-le p.at q.at t newer is_t in
                    (v, is_v, omega (arith, le, le₂))
              ];
            } in
            rw newer taken
        | inr older ↦
            let kept : IsNewest all k q = record {
              from = λ t e. let (r, m, at_key, is) = of_old.from t e in (r, sub₁ r m, at_key, is);
              bound = λ r u m at_key dates. elim (cover r m) [
                | inl in_old ↦ of_old.bound r u in_old at_key dates
                | inr in_part ↦
                    let (t, is_t, le) = of_part.bound r u in_part at_key dates in
                    let (v, is_v, le₂) = at_least-lt p.at q.at t older is_t in
                    (v, is_v, omega (arith, le, le₂))
              ];
            } in
            rw older kept
      ]

  module _ (observed : Raw → Time) (id : Raw → ℕ) where
    pub comes_first-IsOrder : IsOrder (comes_first dated observed id)
    unfolding comes_first
    comes_first-IsOrder = record {
      irrefl = λ r. ground arith;
      asym = λ r s h. ground arith;
      trans = λ r s t h k. ground arith;
    }

    pub of_test :
        (k : K) (r : Raw)
        → is_dated_at key dated k r ≡ true
        → (key r ≡ k) × (t : Time) × ((dated r).at ≡ some t)
    of_test k r h = elim (Option-cases (dated r).at) [
      | inl n ↦ ground (arith, rw n at h)
      | inr (t, is_t) ↦
          let same : e.beq (key r) k ≡ true = ground (arith, h) in
          ((e.beq_iff (key r) k).0 same, t, is_t)
    ]

    pub to_test :
        (k : K) (r : Raw) (t : Time)
        → key r ≡ k
        → (dated r).at ≡ some t
        → is_dated_at key dated k r ≡ true
    to_test k r t same dates = rw ((e.beq_iff (key r) k).1 same, dates) refl

    not_before :
        (s r : Raw) (u t : Time)
        → (dated s).at ≡ some u
        → (dated r).at ≡ some t
        → comes_first dated observed id s r ≡ false
        → u ≤ t
    unfolding comes_first
    not_before s r u t hs hr h = ground (arith, rw (hs, hr) at h)

    pub latest-of :
        (absent : V) (k : K) (rows : List Raw) (o : Option Raw)
        → select_first (comes_first dated observed id) (is_dated_at key dated k) rows ≡ o
        → IsNewest rows k (or_absent dated absent o)
    latest-of absent k rows none none_at = record {
      from = λ t e. cc;
      bound = λ r u m at_key dates.
          let shut =
            select_first-none (comes_first dated observed id) comes_first-IsOrder
              (is_dated_at key dated k) rows none_at r m in
          cc (to_test k r u at_key dates, shut);
    }
    latest-of absent k rows (some r) chosen =
        let is =
          select_first-some (comes_first dated observed id) comes_first-IsOrder
            (is_dated_at key dated k) rows r chosen in
        let (at_key, t, dated_at) = of_test k r is.passes in
        record {
          from = λ u e. (r, is.stands, at_key, refl);
          bound = λ s u m same dates. (
            t,
            dated_at,
            not_before s r u t dates dated_at (is.first s m (to_test k s u same dates)),
          );
        }

    pub latest-IsNewest :
        (absent : V) (k : K) (rows : List Raw)
        → IsNewest rows k (latest key dated observed id absent k rows)
    unfolding latest
    latest-IsNewest absent k rows = latest-of absent k rows _ refl

    IsBlank-of :
        (absent : V) (k : K) (rows : List Raw) (o : Option Raw)
        → select_first (comes_first dated observed id) (is_dated_at key dated k) rows ≡ o
        → IsBlank absent (or_absent dated absent o)
    IsBlank-of absent k rows none none_at = λ h. refl
    IsBlank-of absent k rows (some r) chosen =
        let is =
          select_first-some (comes_first dated observed id) comes_first-IsOrder
            (is_dated_at key dated k) rows r chosen in
        let (at_key, t, dated_at) = of_test k r is.passes in λ undated. cc (dated_at, undated)

    pub latest-IsBlank :
        (absent : V) (k : K) (rows : List Raw)
        → IsBlank absent (latest key dated observed id absent k rows)
    unfolding latest
    latest-IsBlank absent k rows = IsBlank-of absent k rows _ refl
