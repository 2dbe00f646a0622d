-- ===== src/Market/HistoryStore/View.antt =====
-- The buckets are the view of the audit trail that keeps the newest capture of each key.
use albion_market_api.Prelude.{
  ℕ, suc, ◌≡◌, ◌⊎◌, refl, sym, inl, inr, true, Option, none, some, List, [], ◌∷◌, ◌++◌, map, In,
  In-append, In-append_left, Distinct, Bool-cases, Option-cases,
}
use mathlib.Core.Path.{subst}
use albion_market_api.Prelude.Int.{ℤ}
use albion_market_api.Text.{Text, text_eq}
use albion_market_api.Text.Equality.{text_eq_refl}
use albion_market_api.Clock.{Time}
use albion_market_api.Seen.{contains}
use albion_market_api.Seen.Passes.{contains→In, In-not-contains}
use albion_market_api.Sql.Upsert.{
  find_by, group_keys, updated, settled, find_by-upsert_all, group_keys-Distinct,
  group_keys_complete, upsert_all-Distinct,
}
use albion_market_api.Market.Domain.{HistoryIngest, HistoryBucketIngest}
use albion_market_api.Market.Latest.{newest}
use albion_market_api.Market.Latest.Laws.{
  IsNewest, IsNewest-within, newest-IsNewest, newest-unchanged, newest-changed,
}
use albion_market_api.Market.Buckets.{measures, BucketKey, bucket_keys}
use albion_market_api.Market.HistoryStore.Proposed.{
  raw_key, row_key, newest_bucket-none, newest_bucket-IsNewest, latest_buckets-Distinct,
  find_by-latest_buckets, find_by-no_bucket,
}
use albion_market_api.Market.HistoryStore.{
  RawBucket, BucketRow, raw_buckets, buckets_of_request, raw_capture, capture, newest_bucket,
  bucket_row, latest_buckets, is_newer_bucket, replace_bucket, upsert_history,
}

-- The row of a key: the newest capture; no row only if the trail has none of the key.
abbrev pub ViewAt : List RawBucket → BucketKey → Option BucketRow → Type 0
ViewAt raw k none = (r : RawBucket) → In r raw → r.key ≡ k → ⊥
ViewAt raw k (some c) = IsNewest raw_key raw_capture raw k (capture c)

pub record IsView (raw : List RawBucket) (buckets : List BucketRow) : Type 0 where
  pub unique : Distinct (map row_key buckets)
  pub at_key : (k : BucketKey) → ViewAt raw k (find_by row_key k buckets)

updated-capture :
    (excluded stored : BucketRow)
    → capture (updated row_key is_newer_bucket replace_bucket excluded (some stored))
      ≡ newest (capture excluded) (capture stored)
unfolding is_newer_bucket replace_bucket
updated-capture excluded stored = elim (Bool-cases (is_newer_bucket excluded stored)) [
  | inl newer ↦ rw newer (sym (newest-changed (capture excluded) (capture stored) newer))
  | inr kept ↦ rw kept (sym (newest-unchanged (capture excluded) (capture stored) kept))
]

module _ (request : Text) where
  buckets_of_request-In :
      (rows : List RawBucket) (r : RawBucket) → In r (buckets_of_request request rows) → In r rows
  unfolding buckets_of_request
  buckets_of_request-In [] r m = m
  buckets_of_request-In (q ∷ rows) r m = elim (Bool-cases (text_eq q.request_id request)) [
    | inl e ↦ elim (rw e at m) [ inl i ↦ inl i | inr i ↦ inr (buckets_of_request-In rows r i) ]
    | inr n ↦ inr (buckets_of_request-In rows r (rw n at m))
  ]

  buckets_of_request_complete :
      (rows : List RawBucket) (r : RawBucket)
      → In r rows
      → text_eq r.request_id request ≡ true
      → In r (buckets_of_request request rows)
  unfolding buckets_of_request
  buckets_of_request_complete [] r m own = m
  buckets_of_request_complete (q ∷ rows) r (inl i) own = rw (← i, own) (inl refl)
  buckets_of_request_complete (q ∷ rows) r (inr i) own =
      let later = buckets_of_request_complete rows r i own in
      elim (Bool-cases (text_eq q.request_id request)) [
        | inl e ↦ rw e (inr later)
        | inr n ↦ rw n later
      ]

-- What the upsert makes of the row of one key.
module _ (all old part : List RawBucket) (k : BucketKey)
    (has_old : (r : RawBucket) → In r old → In r all)
    (has_part : (r : RawBucket) → In r part → In r all)
    (cover : (r : RawBucket) → In r all → In r old ⊎ In r part) where
  updated-ViewAt :
      (now : Time) (r : RawBucket) (stored : Option BucketRow)
      → newest_bucket part k ≡ some r
      → ViewAt old k stored
      → ViewAt all k
          (some (updated row_key is_newer_bucket replace_bucket (bucket_row now r) stored))
  updated-ViewAt now r none is absent =
      let within : (q : RawBucket) → In q all → q.key ≡ k → In q part = λ q m at_key.
        elim (cover q m) [ inl in_old ↦ absurd (absent q in_old at_key) | inr in_part ↦ in_part ] in
      IsNewest-within raw_key raw_capture all part k _ has_part within
        (newest_bucket-IsNewest part k r is)
  updated-ViewAt now r (some c) is view = rw (updated-capture (bucket_row now r) c) (
      newest-IsNewest raw_key raw_capture all old part k _ (capture c) has_old has_part cover view
        (newest_bucket-IsNewest part k r is))

  other-ViewAt :
      (stored : Option BucketRow)
      → ((r : RawBucket) → In r part → r.key ≡ k → ⊥)
      → ViewAt old k stored
      → ViewAt all k stored
  other-ViewAt none no_part absent = λ r m at_key. elim (cover r m) [
    | inl in_old ↦ absent r in_old at_key
    | inr in_part ↦ no_part r in_part at_key
  ]
  other-ViewAt (some c) no_part view =
      IsNewest-within raw_key raw_capture all old k (capture c) has_old
        (λ r m at_key. elim (cover r m) [
          | inl in_old ↦ in_old
          | inr in_part ↦ absurd (no_part r in_part at_key)
        ])
        view

pub raw_buckets-request :
    (now : Time) (request : Text) (server : ℤ) (id : ℕ)
    (rows : List (HistoryIngest × HistoryBucketIngest)) (r : RawBucket)
    → In r (raw_buckets now request server id rows)
    → text_eq r.request_id request ≡ true
unfolding raw_buckets
raw_buckets-request now request server id [] r m = absurd m
raw_buckets-request now request server id (e ∷ rows) r (inl i) = rw i (text_eq_refl request)
raw_buckets-request now request server id (e ∷ rows) r (inr i) =
    raw_buckets-request now request server (suc id) rows r i

-- The upsert of the rows of a request, after they are added to the trail, keeps the view.
pub upsert_history-IsView :
    (now : Time) (request : Text) (old more : List RawBucket) (buckets : List BucketRow)
    → ((r : RawBucket) → In r more → text_eq r.request_id request ≡ true)
    → IsView old buckets
    → IsView (old ++ more) (upsert_history now request (old ++ more) buckets).1
unfolding upsert_history
upsert_history-IsView now request old more buckets own view =
    let all = old ++ more in
    let part = buckets_of_request request all in
    let keys = group_keys raw_key part in
    let proposed = latest_buckets now part keys in
    let cover : (r : RawBucket) → In r all → In r old ⊎ In r part = λ r m.
      elim (In-append r old more m) [
        | inl i ↦ inl i
        | inr i ↦ inr (buckets_of_request_complete request all r m (own r i))
      ] in
    let has_old : (r : RawBucket) → In r old → In r all = λ r m. In-append_left r old more m in
    let has_part : (r : RawBucket) → In r part → In r all =
      λ r m. buckets_of_request-In request all r m in
    record {
      unique =
          upsert_all-Distinct row_key is_newer_bucket replace_bucket (λ new r. refl) proposed
            buckets view.unique;
      at_key = λ k.
          let found =
            find_by-upsert_all row_key is_newer_bucket replace_bucket (λ new r. refl) k proposed
              buckets (latest_buckets-Distinct now part keys (group_keys-Distinct raw_key part)) in
          let step : ViewAt all k (
              settled row_key is_newer_bucket replace_bucket (find_by row_key k proposed)
                (find_by row_key k buckets)) =
            elim (Bool-cases (contains k keys)) [
              | inr other ↦
                  let no_key = In-not-contains k keys other in
                  let no_part : (r : RawBucket) → In r part → r.key ≡ k → ⊥ = λ r m same.
                    no_key (subst (λ j. In j keys) same (group_keys_complete raw_key r part m)) in
                  rw (find_by-no_bucket now part keys k (λ m. no_key m.0))
                    (other-ViewAt all old part k has_old has_part cover _ no_part (view.at_key k))
              | inl own_key ↦ elim (Option-cases (newest_bucket part k)) [
                | inl n ↦ rw (find_by-no_bucket now part keys k (λ m. cc (m.2, n))) (
                    other-ViewAt all old part k has_old has_part cover _
                      (newest_bucket-none part k n) (view.at_key k))
                | inr (r, is) ↦
                    rw (find_by-latest_buckets now part keys k r (contains→In k keys own_key) is) (
                      updated-ViewAt all old part k has_old has_part cover now r _ is
                        (view.at_key k))
              ]
            ] in
          rw found step;
    }
