-- ===== src/Market/History/Ranges.antt =====
-- The dates of a history query.
use albion_market_api.Prelude.{
  ℕ, ◌+◌, ◌*◌, ◌/◌, ◌%◌, ◌≤◌, ◌≡◌, refl, false, Option, none, some, arith, ltb, Result, ok, err,
  >>=-eq-ok, fail_if, fail_if-eq-ok,
}
use albion_market_api.Text.{Text, is_empty, trim_space}
use albion_market_api.Clock.{Time}
use albion_market_api.Market.Domain.{QueryError}
use albion_market_api.Market.History.Query.{
  day, max_days, duration_between, parsed, HistoryRange, parse_history_range,
}

parsed-some :
    (o : Option Time) (e : QueryError) (t : Time)
    → ◌≡◌ {A = Result QueryError Time} (elim o [ none ↦ err e | some s ↦ ok s ]) (ok t)
    → o ≡ some t
parsed-some none e t h = cc
parsed-some (some s) e t h = cc

-- Not saturated, if it is short.
days_bound :
    (start end : ℕ)
    → start % day ≡ 0
    → end % day ≡ 0
    → ltb end start ≡ false
    → ltb max_days (duration_between start end / day + 1) ≡ false
    → (start ≤ end) × (end + day ≤ start + 366 * day)
days_bound start end s e h k = ground arith

-- The dates of an accepted range.
pub record IsRange (parse_date : Text → Option Time) (raw_start raw_end : Text) (r : HistoryRange)
    : Type 0 where
  pub last_day : Time
  pub first_parsed : parse_date (trim_space raw_start) ≡ some r.start
  pub last_parsed : parse_date (trim_space raw_end) ≡ some last_day
  pub exclusive : r.end_exclusive ≡ last_day + day
  pub ordered : r.start ≤ last_day
  pub short : r.end_exclusive ≤ r.start + 366 * day

-- Where the dates that `time.Parse` returns are midnights, an accepted range starts at the date of `rangeStart`, ends one day after the date of `rangeEnd`,
-- which is not before the start, and covers at most 366 days; the saturation of `end.Sub(start)`
-- admits no longer one.
pub parse_history_range-IsRange :
    (parse_date : Text → Option Time) (raw_start raw_end : Text) (r : HistoryRange)
    → ((text : Text) (t : Time) → parse_date text ≡ some t → t % day ≡ 0)
    → parse_history_range parse_date raw_start raw_end ≡ ok r
    → IsRange parse_date raw_start raw_end r
unfolding parse_history_range
parse_history_range-IsRange parse_date raw_start raw_end r midnights h =
    let (x₀, h₀, k₀) = >>=-eq-ok (fail_if (is_empty (trim_space raw_start)) _) _ h in
    let (x₁, h₁, k₁) = >>=-eq-ok (fail_if (is_empty (trim_space raw_end)) _) _ k₀ in
    let (start, hs, ks) = >>=-eq-ok (parsed parse_date (trim_space raw_start) _) _ k₁ in
    let (end, he, ke) = >>=-eq-ok (parsed parse_date (trim_space raw_end) _) _ ks in
    let (x₂, h₂, k₂) = >>=-eq-ok (fail_if (ltb end start) _) _ ke in
    let (x₃, h₃, k₃) =
      >>=-eq-ok (fail_if (ltb max_days (duration_between start end / day + 1)) _) _ k₂ in
    let first = parsed-some (parse_date (trim_space raw_start)) _ start hs in
    let last = parsed-some (parse_date (trim_space raw_end)) _ end he in
    let bounds =
      days_bound start end (midnights _ start first) (midnights _ end last) (fail_if-eq-ok _ _ h₂)
        (fail_if-eq-ok _ _ h₃) in
    let is : r ≡ record {
      start = start;
      end_exclusive = end + day;
      start_text = trim_space raw_start;
      end_text = trim_space raw_end;
    } =
      cc in
    rw is (record {
      last_day = end;
      first_parsed = first;
      last_parsed = last;
      exclusive = refl;
      ordered = bounds.0;
      short = bounds.1;
    })
