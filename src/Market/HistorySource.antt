-- ===== src/Market/HistorySource.antt =====
-- `rawHistoryCopySource` of internal/repository/history_repository.go, which walks the buckets of the
-- entries for COPY, and `countHistoryBuckets`.
pub mod Walk
use albion_market_api.Prelude.{
  ℕ, zero, suc, ◌+◌, Bool, true, false, not, none, some, List, [], ◌∷◌, ltb, length, get_elem?,
  if◌then◌else◌, Result, ok, err, ◌>>=◌,
}
use albion_market_api.Text.{lit}
use albion_market_api.Market.Domain.{HistoryBucketIngest, HistoryIngest}
use albion_market_api.Market.Ingest.{StoreError, store_failed}

-- `countHistoryBuckets`.
unfoldable pub count_buckets : List HistoryIngest → ℕ
count_buckets [] = 0
count_buckets (e ∷ entries) = length e.history + count_buckets entries

-- `rawHistoryCopySource`; its array `values` is filled anew for each row.
pub record BucketSource : Type 0 where
  pub entries : List HistoryIngest
  pub entry_index : ℕ
  pub bucket_index : ℕ
  pub current_entry : ℕ
  pub current_bucket : ℕ
  pub positioned : Bool

-- `newRawHistoryCopySource`.
abbrev pub bucket_source : List HistoryIngest → BucketSource
bucket_source entries = record {
  entries = entries;
  entry_index = 0;
  bucket_index = 0;
  current_entry = 0;
  current_bucket = 0;
  positioned = false;
}

-- `Next`. Each turn of its loop but the last moves to another entry, so one more turn than there are
-- entries is enough.
unfoldable pub next_from : ℕ → BucketSource → Bool × BucketSource
next_from zero s = (false, record s { positioned = false })
next_from (suc fuel) s =
    let rest = next_from fuel (record s { entry_index = suc s.entry_index; bucket_index = 0 }) in
    elim (get_elem? s.entries s.entry_index) [
      | none ↦ (false, record s { positioned = false })
      | some entry ↦
          if ltb s.bucket_index (length entry.history)
          then (
            true,
            record s {
              current_entry = s.entry_index;
              current_bucket = s.bucket_index;
              bucket_index = suc s.bucket_index;
              positioned = true;
            },
          )
          else rest
    ]

unfoldable pub next_bucket : BucketSource → Bool × BucketSource
unfolding next_from
next_bucket s = next_from (suc (length s.entries)) s

-- `Values`: the entry and the bucket of the row.
unfoldable pub bucket_values :
    BucketSource → Result StoreError (HistoryIngest × HistoryBucketIngest)
bucket_values s =
    let unplaced = store_failed (lit "raw history copy source is not positioned on a row") in
    if not s.positioned then err unplaced else elim (get_elem? s.entries s.current_entry) [
      | none ↦ err unplaced
      | some entry ↦ elim (get_elem? entry.history s.current_bucket) [
        | none ↦ err unplaced
        | some bucket ↦ ok (entry, bucket)
      ]
    ]

-- How COPY reads the source.
unfoldable pub drain_buckets :
    ℕ → BucketSource → Result StoreError (List (HistoryIngest × HistoryBucketIngest))
unfolding next_bucket bucket_values
drain_buckets zero s = ok []
drain_buckets (suc fuel) s =
    let (more, moved) = next_bucket s in
    let rest =
      bucket_values moved >>= λ row. drain_buckets fuel moved >>= λ rows. ok (row ∷ rows) in
    if more then rest else ok []
