-- ===== src/Market/History/Ingested.antt =====
-- What an accepted ingest of histories is.
use albion_market_api.Prelude.{
  ℕ, suc, ◌+◌, ◌≤◌, ◌≡◌, refl, Bool, true, false, not, ◌||◌, Option, none, some, List, [], ◌∷◌,
  arith, ltb, ◌==◌, All, length, ok, >>=-eq-ok, fail_if, fail_if-eq-ok, map_err, map_err-ok,
}
use albion_market_api.Prelude.Int.{ℤ, pos}
use albion_market_api.Int64.{lt, le}
use albion_market_api.Text.{is_empty, trim_space}
use albion_market_api.Clock.{zero_time}
use albion_market_api.Maps.{beq_ℤ}
use albion_market_api.Market.Domain.{
  HistoryBucketIngest, HistoryIngest, IngestHistoryRequest, invalid_server,
}
use albion_market_api.Market.Prices.{validate_server}
use albion_market_api.Market.History.{
  max_histories, max_buckets, is_uuid, check_average, check_bucket, check_buckets, check_history,
  check_histories, normalize_history_ingest,
}

-- No price, or one above zero.
abbrev pub IsAverage : Option ℤ → Type 0
IsAverage none = Unit
IsAverage (some price) = lt (pos 0) price ≡ true

pub record IsBucket (b : HistoryBucketIngest) : Type 0 where
  pub dated : b.timestamp == zero_time ≡ false
  pub counted : lt b.item_count (pos 0) ≡ false
  pub priced : IsAverage b.average_unit_price

pub record IsHistory (entry : HistoryIngest) : Type 0 where
  pub observed : entry.observed_at == zero_time ≡ false
  pub located : lt (pos 0) entry.location_id ≡ true
  pub named : is_empty entry.item_key ≡ false
  pub quality_low : lt entry.quality (pos 1) ≡ false
  pub quality_high : lt (pos 5) entry.quality ≡ false
  pub some_buckets : 1 ≤ length entry.history
  pub buckets : All IsBucket entry.history

abbrev pub total_buckets : List HistoryIngest → ℕ
total_buckets [] = 0
total_buckets (entry ∷ entries) = length entry.history + total_buckets entries

check_average-IsAverage : (i j : ℕ) (o q : Option ℤ) → check_average i j o ≡ ok q → IsAverage q
unfolding check_average beq_ℤ
check_average-IsAverage i j none q h = let is : q ≡ none = cc in rw is tt
check_average-IsAverage i j (some price) none h = tt
check_average-IsAverage i j (some price) (some p) h = ground arith

check_bucket-IsBucket :
    (i j : ℕ) (b c : HistoryBucketIngest) → check_bucket i j b ≡ ok c → IsBucket c
unfolding check_bucket
check_bucket-IsBucket i j b c h =
    let (x₀, h₀, k₀) = >>=-eq-ok (fail_if (b.timestamp == zero_time) _) _ h in
    let (x₁, h₁, k₁) = >>=-eq-ok (fail_if (lt b.item_count (pos 0)) _) _ k₀ in
    let (average, ha, ka) = >>=-eq-ok (check_average i j b.average_unit_price) _ k₁ in
    let is : c ≡ record b { average_unit_price = average } = cc in
    rw is (record {
      dated = fail_if-eq-ok _ _ h₀;
      counted = fail_if-eq-ok _ _ h₁;
      priced = check_average-IsAverage i j b.average_unit_price average ha;
    })

check_buckets-All :
    (i j : ℕ) (buckets cs : List HistoryBucketIngest)
    → check_buckets i j buckets ≡ ok cs
    → All IsBucket cs × (length cs ≡ length buckets)
check_buckets-All i j [] cs h = let is : cs ≡ [] = cc in rw is (tt, refl)
check_buckets-All i j (b ∷ buckets) cs h =
    let (c, hc, k) = >>=-eq-ok (check_bucket i j b) _ h in
    let (rest, hr, l) = >>=-eq-ok (check_buckets i (suc j) buckets) _ k in
    let is : cs ≡ c ∷ rest = cc in
    let (all, same) = check_buckets-All i (suc j) buckets rest hr in
    rw is ((check_bucket-IsBucket i j b c hc, all), omega (arith, same))

check_history-IsHistory :
    (i total : ℕ) (entry c : HistoryIngest)
    → check_history i total entry ≡ ok c
    → IsHistory c
      × (length c.history ≡ length entry.history)
      × (total + length entry.history ≤ 100000)
unfolding check_history
check_history-IsHistory i total entry c h =
    let (x₀, h₀, k₀) = >>=-eq-ok (fail_if (entry.observed_at == zero_time) _) _ h in
    let (x₁, h₁, k₁) = >>=-eq-ok (fail_if (le entry.location_id (pos 0)) _) _ k₀ in
    let (x₂, h₂, k₂) = >>=-eq-ok (fail_if (is_empty (trim_space entry.item_key)) _) _ k₁ in
    let (x₃, h₃, k₃) =
      >>=-eq-ok (fail_if (lt entry.quality (pos 1) || lt (pos 5) entry.quality) _) _ k₂ in
    let (x₄, h₄, k₄) = >>=-eq-ok (fail_if (length entry.history == 0) _) _ k₃ in
    let (x₅, h₅, k₅) =
      >>=-eq-ok (fail_if (ltb max_buckets (total + length entry.history)) _) _ k₄ in
    let (buckets, hb, kb) = >>=-eq-ok (check_buckets i 0 entry.history) _ k₅ in
    let (all, same) = check_buckets-All i 0 entry.history buckets hb in
    let is : c ≡ record entry { item_key = trim_space entry.item_key; history = buckets } = cc in
    let nowhere = fail_if-eq-ok (le entry.location_id (pos 0)) _ h₁ in
    let quality = fail_if-eq-ok (lt entry.quality (pos 1) || lt (pos 5) entry.quality) _ h₃ in
    let empty = fail_if-eq-ok (length entry.history == 0) _ h₄ in
    let many = fail_if-eq-ok (ltb max_buckets (total + length entry.history)) _ h₅ in
    rw is (
      record {
        observed = fail_if-eq-ok _ _ h₀;
        located = ground (arith, nowhere);
        named = fail_if-eq-ok _ _ h₂;
        quality_low = ground (arith, quality);
        quality_high = ground (arith, quality);
        some_buckets = ground (arith, empty, same);
        buckets = all;
      },
      same,
      ground (arith, many),
    )

check_histories-All :
    (i total : ℕ) (entries cs : List HistoryIngest)
    → check_histories i total entries ≡ ok cs
    → total ≤ 100000
    → All IsHistory cs × (length cs ≡ length entries) × (total + total_buckets cs ≤ 100000)
check_histories-All i total [] cs h bound = let is : cs ≡ [] = cc in rw is (tt, refl, omega arith)
check_histories-All i total (entry ∷ entries) cs h bound =
    let (c, hc, k) = >>=-eq-ok (check_history i total entry) _ h in
    let (rest, hr, l) =
      >>=-eq-ok (check_histories (suc i) (total + length entry.history) entries) _ k in
    let (one, same, within) = check_history-IsHistory i total entry c hc in
    let (all, count, sum) =
      check_histories-All (suc i) (total + length entry.history) entries rest hr within in
    let is : cs ≡ c ∷ rest = cc in
    rw is ((one, all), omega (arith, count), omega (arith, sum, same))

pub record IsIngest (req out : IngestHistoryRequest) : Type 0 where
  pub identified : is_uuid out.request_id ≡ true
  pub trimmed_id : out.request_id ≡ trim_space req.request_id
  pub server_known : validate_server out.server ≡ ok tt
  pub same_server : out.server ≡ req.server
  pub same_count : length out.entries ≡ length req.entries
  pub some_entries : 1 ≤ length out.entries
  pub few_entries : length out.entries ≤ 2000
  pub few_buckets : total_buckets out.entries ≤ 100000
  pub entries_valid : All IsHistory out.entries

nonempty : (n m : ℕ) → n == 0 ≡ false → m ≡ n → 1 ≤ m
nonempty n m h e = ground arith

at_most : (n m : ℕ) → ltb max_histories n ≡ false → m ≡ n → m ≤ 2000
at_most n m h e = ground arith

not-not : (b : Bool) → not b ≡ false → b ≡ true
not-not b h = ground arith

-- Every ingest of histories that `normalizeHistoryIngestRequest` accepts goes to the repository with
-- a UUID, a known server, between 1 and 2000 entries, as many as the request has, and at most 100000
-- buckets; each entry has a date, a positive location, an item, a quality from 1 to 5 and at
-- least one bucket, and each bucket has a date, a count that is not negative, and no average price
-- or a positive one.
pub normalize_history_ingest-IsIngest :
    (req out : IngestHistoryRequest) → normalize_history_ingest req ≡ ok out → IsIngest req out
unfolding normalize_history_ingest
normalize_history_ingest-IsIngest req out h =
    let (x₀, h₀, k₀) = >>=-eq-ok (fail_if (is_empty (trim_space req.request_id)) _) _ h in
    let (x₁, h₁, k₁) = >>=-eq-ok (fail_if (not (is_uuid (trim_space req.request_id))) _) _ k₀ in
    let (x₂, h₂, k₂) = >>=-eq-ok (map_err invalid_server (validate_server req.server)) _ k₁ in
    let (x₃, h₃, k₃) = >>=-eq-ok (fail_if (length req.entries == 0) _) _ k₂ in
    let (x₄, h₄, k₄) = >>=-eq-ok (fail_if (ltb max_histories (length req.entries)) _) _ k₃ in
    let (entries, he, ke) = >>=-eq-ok (check_histories 0 0 req.entries) _ k₄ in
    let (all, count, sum) = check_histories-All 0 0 req.entries entries he (omega arith) in
    let is : out ≡ record {
      request_id = trim_space req.request_id;
      server = req.server;
      entries = entries;
    } =
      cc in
    let uuid = fail_if-eq-ok (not (is_uuid (trim_space req.request_id))) _ h₁ in
    let empty = fail_if-eq-ok (length req.entries == 0) _ h₃ in
    let many = fail_if-eq-ok (ltb max_histories (length req.entries)) _ h₄ in
    rw is (record {
      identified = not-not _ uuid;
      trimmed_id = refl;
      server_known = map_err-ok invalid_server _ h₂;
      same_server = refl;
      same_count = count;
      some_entries = nonempty (length req.entries) (length entries) empty count;
      few_entries = at_most (length req.entries) (length entries) many count;
      few_buckets = omega (arith, sum);
      entries_valid = all;
    })
