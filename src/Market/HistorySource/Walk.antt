-- ===== src/Market/HistorySource/Walk.antt =====
-- The walk of the copy source gives every bucket of every entry, once and in order.
use albion_market_api.Prelude.{
  ℕ, zero, suc, ◌+◌, ◌<◌, ◌≡◌, refl, sym, ◌∙◌, ◌⊎◌, inl, inr, Bool, true, false, none, some, List,
  [], ◌∷◌, ◌++◌, map, arith, ltb, length, length-append, length-map, get_elem?, get_elem?-none,
  get_elem?-some, drop, drop-cons, drop_all, ok, Bool-cases, Option-cases,
}
use mathlib.Core.Path.{subst}
use albion_market_api.Market.Domain.{HistoryBucketIngest, HistoryIngest}
use albion_market_api.Market.HistorySource.{
  count_buckets, BucketSource, bucket_source, next_from, next_bucket, bucket_values, drain_buckets,
}

-- The buckets of the entries, each with its entry.
abbrev pub flattened : List HistoryIngest → List (HistoryIngest × HistoryBucketIngest)
flattened [] = []
flattened (e ∷ entries) = map (λ b. (e, b)) e.history ++ flattened entries

pub length-flattened :
    (entries : List HistoryIngest) → length (flattened entries) ≡ count_buckets entries
unfolding count_buckets
length-flattened [] = refl
length-flattened (e ∷ entries) =
    let pairs : List (HistoryIngest × HistoryBucketIngest) = map (λ b. (e, b)) e.history in
    let counted : length pairs ≡ length e.history = length-map e.history _ in
    rw (length-append pairs (flattened entries), counted, length-flattened entries) refl

-- What is left from a place on: the rest of the entry there, then the later entries.
abbrev left_in : List HistoryIngest → ℕ → List (HistoryIngest × HistoryBucketIngest)
left_in [] b = []
left_in (e ∷ entries) b = map (λ c. (e, c)) (drop b e.history) ++ flattened entries

abbrev remaining : BucketSource → List (HistoryIngest × HistoryBucketIngest)
remaining s = left_in (drop s.entry_index s.entries) s.bucket_index

left_in-start : (entries : List HistoryIngest) → left_in entries 0 ≡ flattened entries
left_in-start [] = refl
left_in-start (e ∷ entries) = refl

-- A turn of the copy: nothing is left, or the first of what is left is the row, and the rest stays.
abbrev Moves : BucketSource → Bool × BucketSource → Type 0
Moves s m =
    ((m.0 ≡ false) × (remaining s ≡ []))
    ⊎ ((row : HistoryIngest × HistoryBucketIngest) × (m.0 ≡ true)
        × (bucket_values m.1 ≡ ok row)
        × (remaining s ≡ row ∷ remaining m.1)
        × (m.1.entries ≡ s.entries))

-- The turns of the loop of `Next`.
next_from-stop : (s : BucketSource) → next_from zero s ≡ (false, record s { positioned = false })
unfolding next_from
next_from-stop s = refl

next_from-behind :
    (fuel : ℕ) (s : BucketSource)
    → get_elem? s.entries s.entry_index ≡ none
    → next_from (suc fuel) s ≡ (false, record s { positioned = false })
unfolding next_from
next_from-behind fuel s absent = rw (next_from, absent) refl

abbrev placed : BucketSource → BucketSource
placed s = record s {
  current_entry = s.entry_index;
  current_bucket = s.bucket_index;
  bucket_index = suc s.bucket_index;
  positioned = true;
}

next_from-inside :
    (fuel : ℕ) (s : BucketSource) (e : HistoryIngest)
    → get_elem? s.entries s.entry_index ≡ some e
    → ltb s.bucket_index (length e.history) ≡ true
    → next_from (suc fuel) s ≡ (true, placed s)
unfolding next_from
next_from-inside fuel s e found more = rw (next_from, found, more) refl

abbrev next_entry : BucketSource → BucketSource
next_entry s = record s { entry_index = suc s.entry_index; bucket_index = 0 }

next_from-done :
    (fuel : ℕ) (s : BucketSource) (e : HistoryIngest)
    → get_elem? s.entries s.entry_index ≡ some e
    → ltb s.bucket_index (length e.history) ≡ false
    → next_from (suc fuel) s ≡ next_from fuel (next_entry s)
unfolding next_from
next_from-done fuel s e found over = rw (next_from, found, over) refl

bucket_values-placed :
    (s : BucketSource) (e : HistoryIngest) (c : HistoryBucketIngest)
    → get_elem? s.entries s.entry_index ≡ some e
    → get_elem? e.history s.bucket_index ≡ some c
    → bucket_values (placed s) ≡ ok (e, c)
unfolding bucket_values
bucket_values-placed s e c found there = rw (found, there) refl

Moves-entry :
    (s : BucketSource) (m : Bool × BucketSource)
    → remaining s ≡ remaining (next_entry s)
    → Moves (next_entry s) m
    → Moves s m
Moves-entry s m same (inl (stops, none_left)) = inl (stops, same ∙ none_left)
Moves-entry s m same (inr (row, goes, gives, split, kept)) =
    inr (row, goes, gives, same ∙ split, kept)

next_from-Moves :
    (fuel : ℕ) (s : BucketSource)
    → length s.entries < s.entry_index + fuel
    → Moves s (next_from fuel s)
next_from-Moves zero s h =
    let behind = drop_all s.entries s.entry_index (omega (arith, h)) in
    subst (Moves s) (sym (next_from-stop s)) (inl (refl, rw behind refl))
next_from-Moves (suc fuel) s h = elim (Option-cases (get_elem? s.entries s.entry_index)) [
  | inl absent ↦
      let behind =
        drop_all s.entries s.entry_index (get_elem?-none s.entries s.entry_index absent) in
      subst (Moves s) (sym (next_from-behind fuel s absent)) (inl (refl, rw behind refl))
  | inr (e, found) ↦
      let (f, found_f, split) =
        drop-cons s.entries s.entry_index (get_elem?-some s.entries s.entry_index e found) in
      let same : e ≡ f = cc in
      let here : drop s.entry_index s.entries ≡ e ∷ drop (suc s.entry_index) s.entries =
        rw same split in
      elim (Bool-cases (ltb s.bucket_index (length e.history))) [
        | inl more ↦
            let (c, there, rest) = drop-cons e.history s.bucket_index (ground arith) in
            subst (Moves s) (sym (next_from-inside fuel s e found more)) (
              inr
                ((e, c), refl, bucket_values-placed s e c found there, rw (here, rest) refl, refl))
        | inr over ↦
            let behind = drop_all e.history s.bucket_index (ground arith) in
            subst (Moves s) (sym (next_from-done fuel s e found over)) (
              Moves-entry s (next_from fuel (next_entry s))
                (rw (here, behind, left_in-start (drop (suc s.entry_index) s.entries)) refl)
                (next_from-Moves fuel (next_entry s) (omega (arith, h))))
      ]
]

drain-remaining :
    (fuel : ℕ) (s : BucketSource)
    → length (remaining s) < fuel
    → drain_buckets fuel s ≡ ok (remaining s)
unfolding drain_buckets next_bucket
drain-remaining zero s h = absurd (omega (arith, h))
drain-remaining (suc fuel) s h = elim (next_from-Moves (suc (length s.entries)) s (omega arith)) [
  | inl (stops, none_left) ↦ rw (stops, none_left) refl
  | inr (row, goes, gives, split, kept) ↦
      let shorter : length (remaining (next_bucket s).1) < fuel = ground (arith, rw split at h) in
      rw (goes, gives, drain-remaining fuel (next_bucket s).1 shorter, split) refl
]

-- The copy source of an ingest of histories, read until it has no next row, gives the buckets of
-- the entries, each once, with its entry, in the order of the entries and of their
-- buckets; and their number is the one that `countHistoryBuckets` gives.
pub drain_buckets-flattened :
    (entries : List HistoryIngest)
    → (drain_buckets (suc (count_buckets entries)) (bucket_source entries) ≡ ok (flattened entries))
      × (length (flattened entries) ≡ count_buckets entries)
drain_buckets-flattened entries =
    let start : remaining (bucket_source entries) ≡ flattened entries = left_in-start entries in
    let counted = length-flattened entries in
    (
      rw (← start) (
          drain-remaining (suc (count_buckets entries)) (bucket_source entries)
            (rw start (omega (arith, counted)))),
      counted,
    )
