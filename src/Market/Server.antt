-- ===== src/Market/Server.antt =====
-- `mapServer` and `unmapServer`, `equalHashes` and the sentinel errors of internal/repository/
-- market_repository.go, and what the two ingests share: the statements of a transaction, which may
-- each fail, the times that are measured, and the functions of other packages that they call.
use albion_market_api.Prelude.{
  ℕ, ◌≡◌, refl, ap, ◌↔◌, inl, inr, Bool, true, false, ◌&&◌, Option, none, some, List, [], ◌∷◌, ◌++◌,
  ◌==◌, if◌then◌else◌, arith, Result, ok, err, if-eq,
}
use albion_market_api.Prelude.Int.{ℤ, pos}
use albion_market_api.Text.{Text, lit, text_eq}
use albion_market_api.Text.Equality.{text_eq_iff}
use albion_market_api.Clock.{Time}
use albion_market_api.Seen.{Eq}
use albion_market_api.Maps.{beq_ℤ, beq_ℤ_iff}
use albion_market_api.Market.Domain.{IngestHistoryRequest}
use albion_market_api.Market.Ingest.{
  IngestPricesRequest, StoreError, store_failed, PersistenceTiming,
}

-- `mapServer`.
unfoldable pub map_server : Text → Result StoreError ℤ
map_server s =
    if text_eq s (lit "west")
    then ok (pos 1)
    else if text_eq s (lit "east")
    then ok (pos 2)
    else if text_eq s (lit "europe")
    then ok (pos 3)
    else err (store_failed (lit "invalid server: " ++ s))

-- `unmapServer`.
unfoldable pub unmap_server : ℤ → Text
unmap_server v =
    if beq_ℤ v (pos 1)
    then lit "west"
    else if beq_ℤ v (pos 2)
    then lit "east"
    else if beq_ℤ v (pos 3)
    then lit "europe"
    else lit "west"

numbered :
    (s name : Text) (v n : ℤ)
    → text_eq s name ≡ true
    → ◌≡◌ {A = Result StoreError ℤ} (ok n) (ok v)
    → unmap_server n ≡ name
    → unmap_server v ≡ s
numbered s name v n same h back = let is : n ≡ v = cc in rw (← is, (text_eq_iff s name).0 same) back

-- A server that `mapServer` accepts is the one that `unmapServer` reads back from its number.
pub unmap_server-map_server : (s : Text) (v : ℤ) → map_server s ≡ ok v → unmap_server v ≡ s
unfolding map_server unmap_server beq_ℤ
unmap_server-map_server s v h = elim (if-eq (text_eq s (lit "west")) _ _ h) [
  | inl (west, k) ↦ numbered s (lit "west") v (pos 1) west k refl
  | inr (not_west, k) ↦ elim (if-eq (text_eq s (lit "east")) _ _ k) [
    | inl (east, l) ↦ numbered s (lit "east") v (pos 2) east l refl
    | inr (not_east, l) ↦ elim (if-eq (text_eq s (lit "europe")) _ _ l) [
      | inl (europe, m) ↦ numbered s (lit "europe") v (pos 3) europe m refl
      | inr (not_europe, m) ↦ cc
    ]
  ]
]

-- `equalHashes`.
unfoldable pub equal_hashes : List ℕ → List ℕ → Bool
equal_hashes [] [] = true
equal_hashes [] (b ∷ bs) = false
equal_hashes (a ∷ xs) [] = false
equal_hashes (a ∷ xs) (b ∷ bs) = a == b && equal_hashes xs bs

pub equal_hashes_iff : (a b : List ℕ) → (equal_hashes a b ≡ true) ↔ (a ≡ b)
unfolding equal_hashes
equal_hashes_iff [] [] = (λ h. refl, λ h. refl)
equal_hashes_iff [] (b ∷ bs) = (λ h. cc, λ h. cc)
equal_hashes_iff (a ∷ xs) [] = (λ h. cc, λ h. cc)
equal_hashes_iff (a ∷ xs) (b ∷ bs) =
    (λ h. ground (arith, equal_hashes_iff xs bs), λ h. ground (arith, equal_hashes_iff xs bs))

-- `status`, whose check constraint allows these two, so that the `default` of the two `switch`
-- statements on it is never reached.
pub data RequestStatus : Type 0 where
  processing completed : RequestStatus

-- The statements of an ingest and the calls that open and end its transaction.
pub data Statement : Type 0 where
  begin_tx register read_existing copy_rows upsert_rows complete commit_tx : Statement

-- One call of the repository: the date of its transaction, the durations it measures, and which
-- of its statements fail, with which text. A commit that fails is taken as rolled back.
pub record Call : Type 0 where
  pub now : Time
  pub transaction_took : ℤ
  pub commit_took : ℤ
  pub fault : Statement → Option Text

unfoldable pub run : Call → Statement → Result StoreError (Unit {0})
run call s = elim (call.fault s) [ none ↦ ok tt | some e ↦ err (store_failed e) ]

-- `json.Marshal` with `sha256.Sum256` over a request, and `pgtype.UUID.Scan`, whose result is the
-- canonical text of the identifier.
pub record Codec : Type 0 where
  pub price_hash : IngestPricesRequest → Result Text (List ℕ)
  pub history_hash : IngestHistoryRequest → Result Text (List ℕ)
  pub scan_uuid : Text → Result Text Text

-- What the deferred function leaves of the measured durations.
abbrev pub timing_of : Call → PersistenceTiming
timing_of call = record {
  transaction = call.transaction_took;
  commit = pos 0;
  transaction_measured = true;
  commit_measured = false;
}

abbrev pub committed_timing : Call → PersistenceTiming
committed_timing call = record {
  transaction = call.transaction_took;
  commit = call.commit_took;
  transaction_measured = true;
  commit_measured = true;
}

-- A primary key of the read models; `bucket_at` is added for the histories.
pub record PriceKey : Type 0 where
  pub server : ℤ
  pub location_id : ℤ
  pub item_key : Text
  pub quality : ℤ

unfoldable pub same_key : PriceKey → PriceKey → Bool
same_key a b =
    beq_ℤ a.server b.server
    && beq_ℤ a.location_id b.location_id
    && text_eq a.item_key b.item_key
    && beq_ℤ a.quality b.quality

pub same_key_iff : (a b : PriceKey) → (same_key a b ≡ true) ↔ (a ≡ b)
unfolding same_key
same_key_iff a b = (
  λ h.
      let e₁ = (beq_ℤ_iff a.server b.server).0 (ground arith) in
      let e₂ = (beq_ℤ_iff a.location_id b.location_id).0 (ground arith) in
      let e₃ = (text_eq_iff a.item_key b.item_key).0 (ground arith) in
      let e₄ = (beq_ℤ_iff a.quality b.quality).0 (ground arith) in cc (e₁, e₂, e₃, e₄),
  λ e. rw e (
      ground (
        arith,
        (beq_ℤ_iff b.server b.server).1 refl,
        (beq_ℤ_iff b.location_id b.location_id).1 refl,
        (text_eq_iff b.item_key b.item_key).1 refl,
        (beq_ℤ_iff b.quality b.quality).1 refl,
      )),
)

instance abbrev pub price_keys : Eq PriceKey
price_keys = record { beq = same_key; beq_iff = same_key_iff }

-- `is not distinct from`, on a column that may be null.
abbrev pub same_price : Option ℤ → Option ℤ → Bool
same_price none none = true
same_price none (some b) = false
same_price (some a) none = false
same_price (some a) (some b) = beq_ℤ a b

pub same_price_iff : (a b : Option ℤ) → (same_price a b ≡ true) ↔ (a ≡ b)
same_price_iff none none = (λ h. refl, λ h. refl)
same_price_iff none (some b) = (λ h. cc, λ h. cc)
same_price_iff (some a) none = (λ h. cc, λ h. cc)
same_price_iff (some a) (some b) =
    (λ h. ap some ((beq_ℤ_iff a b).0 h), λ e. (beq_ℤ_iff a b).1 (cc e))

instance abbrev pub price_values : Eq (Option ℤ)
price_values = record { beq = same_price; beq_iff = same_price_iff }
