-- ===== src/Market/HistoryStore/Proposed.antt =====
-- The rows that `upsertHistory` proposes: of each key of the request its newest row.
use albion_market_api.Prelude.{
  ◌≡◌, ◌∙◌, refl, sym, inl, inr, none, some, List, [], ◌∷◌, map, In, Distinct, Bool-cases,
  Option-cases,
}
use mathlib.Core.Path.{subst}
use albion_market_api.Clock.{Time}
use albion_market_api.Sql.First.{select_first-some, select_first-none}
use albion_market_api.Sql.Upsert.{find_by, find_by-none}
use albion_market_api.Market.Latest.{comes_first, is_dated_at}
use albion_market_api.Market.Latest.Laws.{
  IsNewest, latest-of, of_test, to_test, comes_first-IsOrder,
}
use albion_market_api.Market.Buckets.{
  measures, BucketKey, bucket_keys, same_bucket, same_bucket_iff,
}
use albion_market_api.Market.HistoryStore.{
  RawBucket, BucketRow, raw_capture, newest_bucket, bucket_row, latest_buckets,
}

abbrev pub raw_key : RawBucket → BucketKey
raw_key r = r.key

abbrev pub row_key : BucketRow → BucketKey
row_key r = r.key

-- The first row of a key is one of the key.
pub newest_bucket-key :
    (rows : List RawBucket) (k : BucketKey) (r : RawBucket)
    → newest_bucket rows k ≡ some r
    → r.key ≡ k
unfolding newest_bucket
newest_bucket-key rows k r h =
    let first =
      comes_first raw_capture (λ (r : RawBucket). r.observed_at) (λ (r : RawBucket). r.id) in
    let order = comes_first-IsOrder raw_key raw_capture (λ r. r.observed_at) (λ r. r.id) in
    let is = select_first-some first order (is_dated_at raw_key raw_capture k) rows r h in
    (of_test raw_key raw_capture (λ r. r.observed_at) (λ r. r.id) k r is.passes).0

pub newest_bucket-none :
    (rows : List RawBucket) (k : BucketKey)
    → newest_bucket rows k ≡ none
    → (r : RawBucket) → In r rows
    → r.key ≡ k
    → ⊥
unfolding newest_bucket
newest_bucket-none rows k h r m at_key =
    let first =
      comes_first raw_capture (λ (r : RawBucket). r.observed_at) (λ (r : RawBucket). r.id) in
    let order = comes_first-IsOrder raw_key raw_capture (λ r. r.observed_at) (λ r. r.id) in
    let shut = select_first-none first order (is_dated_at raw_key raw_capture k) rows h r m in
    cc (
      to_test raw_key raw_capture (λ r. r.observed_at) (λ r. r.id) k r r.observed_at at_key refl,
      shut,
    )

pub newest_bucket-IsNewest :
    (rows : List RawBucket) (k : BucketKey) (r : RawBucket)
    → newest_bucket rows k ≡ some r
    → IsNewest raw_key raw_capture rows k (raw_capture r)
unfolding newest_bucket
newest_bucket-IsNewest rows k r h =
    latest-of raw_key raw_capture (λ r. r.observed_at) (λ r. r.id) r.measure k rows (some r) h

pub In-latest_buckets :
    (now : Time) (rows : List RawBucket) (keys : List BucketKey) (k : BucketKey)
    → In k (map row_key (latest_buckets now rows keys))
    → In k keys × (r : RawBucket) × (newest_bucket rows k ≡ some r)
unfolding latest_buckets
In-latest_buckets now rows [] k m = absurd m
In-latest_buckets now rows (j ∷ keys) k m = elim (Option-cases (newest_bucket rows j)) [
  | inl n ↦ let (i, r, is) = In-latest_buckets now rows keys k (rw n at m) in (inr i, r, is)
  | inr (r, is) ↦ elim (rw is at m) [
    | inl e ↦ let at_j : k ≡ j = e ∙ newest_bucket-key rows j r is in (inl at_j, r, rw at_j is)
    | inr later ↦ let (i, q, eq) = In-latest_buckets now rows keys k later in (inr i, q, eq)
  ]
]

pub latest_buckets-Distinct :
    (now : Time) (rows : List RawBucket) (keys : List BucketKey)
    → Distinct keys
    → Distinct (map row_key (latest_buckets now rows keys))
unfolding latest_buckets
latest_buckets-Distinct now rows [] d = tt
latest_buckets-Distinct now rows (k ∷ keys) d = elim (Option-cases (newest_bucket rows k)) [
  | inl n ↦ rw n (latest_buckets-Distinct now rows keys d.1)
  | inr (r, is) ↦ rw is (
    λ m. d.0 (
        subst (λ j. In j keys) (newest_bucket-key rows k r is)
          (In-latest_buckets now rows keys r.key m).0),
    latest_buckets-Distinct now rows keys d.1,
  )
]

-- The proposed row of a key of the request is its first row.
pub find_by-latest_buckets :
    (now : Time) (rows : List RawBucket) (keys : List BucketKey) (k : BucketKey) (r : RawBucket)
    → In k keys
    → newest_bucket rows k ≡ some r
    → find_by row_key k (latest_buckets now rows keys) ≡ some (bucket_row now r)
unfolding latest_buckets find_by
find_by-latest_buckets now rows [] k r m is = absurd m
find_by-latest_buckets now rows (j ∷ keys) k r m is = elim (Option-cases (newest_bucket rows j)) [
  | inl n ↦ elim m [
    | inl e ↦ cc (rw e at is, n)
    | inr later ↦ rw n (find_by-latest_buckets now rows keys k r later is)
  ]
  | inr (q, is_q) ↦ elim (Bool-cases (same_bucket q.key k)) [
    | inl e ↦
        let at_k : q.key ≡ k = (same_bucket_iff q.key k).0 e in
        let at_j : j ≡ k = sym (newest_bucket-key rows j q is_q) ∙ at_k in
        let same : q ≡ r = cc (rw at_j at is_q, is) in rw (is_q, e, same) refl
    | inr n ↦ elim m [
      | inl at_j ↦ cc ((same_bucket_iff q.key k).1 (newest_bucket-key rows j q is_q ∙ sym at_j), n)
      | inr later ↦ rw (is_q, n) (find_by-latest_buckets now rows keys k r later is)
    ]
  ]
]

pub find_by-no_bucket :
    (now : Time) (rows : List RawBucket) (keys : List BucketKey) (k : BucketKey)
    → (In k keys × (r : RawBucket) × (newest_bucket rows k ≡ some r) → ⊥)
    → find_by row_key k (latest_buckets now rows keys) ≡ none
find_by-no_bucket now rows keys k not_there =
    find_by-none row_key k (latest_buckets now rows keys)
      (λ m. not_there (In-latest_buckets now rows keys k m))
