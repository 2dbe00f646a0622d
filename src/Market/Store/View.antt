-- ===== src/Market/Store/View.antt =====
-- The read model is the view of the audit trail that keeps the newest prices of each key.
use albion_market_api.Prelude.{
  ℕ, suc, ◌≡◌, ◌⊎◌, refl, sym, inl, inr, true, Option, none, some, List, [], ◌∷◌, ◌++◌, map, arith,
  In, In-append, In-append_left, Distinct, Bool-cases,
}
use mathlib.Core.Path.{subst}
use albion_market_api.Prelude.Int.{ℤ}
use albion_market_api.Text.{Text, text_eq}
use albion_market_api.Text.Equality.{text_eq_refl}
use albion_market_api.Market.Ingest.{PriceIngest}
use albion_market_api.Clock.{Time}
use albion_market_api.Seen.{contains}
use albion_market_api.Seen.Passes.{In-not-contains, contains→In}
use albion_market_api.Sql.Upsert.{
  find_by, group_keys, updated, settled, find_by-upsert_all, find_by-propose, keys-propose,
  group_keys-Distinct, group_keys_complete, group_keys_sound, upsert_all-Distinct,
}
use albion_market_api.Market.Latest.{newest}
use albion_market_api.Market.Latest.Laws.{
  IsNewest, IsNewest-within, newest-IsNewest, latest-IsNewest, newest-unchanged, IsBlank,
  newest-IsBlank, latest-IsBlank,
}
use albion_market_api.Market.Server.{PriceKey, price_keys, price_values}
use albion_market_api.Market.Store.{
  RawPrice, PriceRow, raw_rows, rows_of_request, proposal, is_touched, merge_price, upsert_current,
}

abbrev pub key_of : RawPrice → PriceKey
key_of r = r.key

-- The row of a key: the trail has a row of it, the sell price and the buy price are the newest ones
-- of the trail, and a price without a date is null.
pub record IsViewOf (raw : List RawPrice) (k : PriceKey) (c : PriceRow) : Type 0 where
  pub present : (r : RawPrice) × In r raw × (r.key ≡ k)
  pub sell : IsNewest key_of (λ r. r.sell) raw k c.sell
  pub buy : IsNewest key_of (λ r. r.buy) raw k c.buy
  pub no_sell : IsBlank none c.sell
  pub no_buy : IsBlank none c.buy

-- No row only if the trail has none of the key.
abbrev pub ViewAt : List RawPrice → PriceKey → Option PriceRow → Type 0
ViewAt raw k none = (r : RawPrice) → In r raw → r.key ≡ k → ⊥
ViewAt raw k (some c) = IsViewOf raw k c

-- One row of a key at most, and each the one that the trail calls for.
pub record IsView (raw : List RawPrice) (current : List PriceRow) : Type 0 where
  pub unique : Distinct (map (λ r. r.key) current)
  pub at_key : (k : PriceKey) → ViewAt raw k (find_by (λ r. r.key) k current)

-- Whether the `where` clause holds or not, the prices of the updated row are the newer ones.
updated-prices :
    (excluded stored : PriceRow)
    → ((updated (λ r. r.key) is_touched merge_price excluded (some stored)).sell
        ≡ newest excluded.sell stored.sell)
      × ((updated (λ r. r.key) is_touched merge_price excluded (some stored)).buy
          ≡ newest excluded.buy stored.buy)
unfolding is_touched merge_price
updated-prices excluded stored = elim (Bool-cases (is_touched excluded stored)) [
  | inl touched ↦ rw touched (refl, refl)
  | inr kept ↦
      let sell = newest-unchanged excluded.sell stored.sell (ground (arith, kept)) in
      let buy = newest-unchanged excluded.buy stored.buy (ground (arith, kept)) in
      rw kept (sym sell, sym buy)
]

rows_of_request-In :
    (request : Text) (rows : List RawPrice) (r : RawPrice)
    → In r (rows_of_request request rows)
    → In r rows
unfolding rows_of_request
rows_of_request-In request [] r m = m
rows_of_request-In request (q ∷ rows) r m = elim (Bool-cases (text_eq q.request_id request)) [
  | inl e ↦ elim (rw e at m) [ inl i ↦ inl i | inr i ↦ inr (rows_of_request-In request rows r i) ]
  | inr n ↦ inr (rows_of_request-In request rows r (rw n at m))
]

rows_of_request_complete :
    (request : Text) (rows : List RawPrice) (r : RawPrice)
    → In r rows
    → text_eq r.request_id request ≡ true
    → In r (rows_of_request request rows)
unfolding rows_of_request
rows_of_request_complete request [] r m own = m
rows_of_request_complete request (q ∷ rows) r (inl i) own = rw (← i, own) (inl refl)
rows_of_request_complete request (q ∷ rows) r (inr i) own =
    let later = rows_of_request_complete request rows r i own in
    elim (Bool-cases (text_eq q.request_id request)) [
      | inl e ↦ rw e (inr later)
      | inr n ↦ rw n later
    ]

-- What the upsert makes of the row of one key.
module _ (now : Time) (all old part : List RawPrice) (k : PriceKey)
    (has_old : (r : RawPrice) → In r old → In r all)
    (has_part : (r : RawPrice) → In r part → In r all)
    (cover : (r : RawPrice) → In r all → In r old ⊎ In r part) where
  proposed-IsViewOf : (r : RawPrice) → In r part → r.key ≡ k → IsViewOf part k (proposal now part k)
  unfolding proposal
  proposed-IsViewOf r m same = record {
    present = (r, m, same);
    sell = latest-IsNewest key_of (λ r. r.sell) (λ r. r.observed_at) (λ r. r.id) none k part;
    buy = latest-IsNewest key_of (λ r. r.buy) (λ r. r.observed_at) (λ r. r.id) none k part;
    no_sell = latest-IsBlank key_of (λ r. r.sell) (λ r. r.observed_at) (λ r. r.id) none k part;
    no_buy = latest-IsBlank key_of (λ r. r.buy) (λ r. r.observed_at) (λ r. r.id) none k part;
  }

  within-IsViewOf :
      (some_of : List RawPrice) (c : PriceRow)
      → ((r : RawPrice) → In r some_of → In r all)
      → ((r : RawPrice) → In r all → r.key ≡ k → In r some_of)
      → IsViewOf some_of k c
      → IsViewOf all k c
  within-IsViewOf some_of c sub within view = record {
    present = let (r, m, same) = view.present in (r, sub r m, same);
    sell = IsNewest-within key_of (λ r. r.sell) all some_of k c.sell sub within view.sell;
    buy = IsNewest-within key_of (λ r. r.buy) all some_of k c.buy sub within view.buy;
    no_sell = view.no_sell;
    no_buy = view.no_buy;
  }

  updated-ViewAt :
      (r : RawPrice)
      → In r part
      → r.key ≡ k
      → (stored : Option PriceRow) → ViewAt old k stored
      → ViewAt all k
          (some (updated (λ r. r.key) is_touched merge_price (proposal now part k) stored))
  updated-ViewAt r m same none absent =
      within-IsViewOf part (proposal now part k) has_part
        (λ q i at_key. elim (cover q i) [
          | inl in_old ↦ absurd (absent q in_old at_key)
          | inr in_part ↦ in_part
        ])
        (proposed-IsViewOf r m same)
  updated-ViewAt r m same (some c) view =
      let new = proposed-IsViewOf r m same in
      let (sell, buy) = updated-prices (proposal now part k) c in
      record {
        present = (r, has_part r m, same);
        sell = rw sell (
            newest-IsNewest key_of (λ r. r.sell) all old part k _ c.sell has_old has_part cover
              view.sell new.sell);
        buy = rw buy (
            newest-IsNewest key_of (λ r. r.buy) all old part k _ c.buy has_old has_part cover
              view.buy new.buy);
        no_sell = rw sell (newest-IsBlank none _ c.sell new.no_sell view.no_sell);
        no_buy = rw buy (newest-IsBlank none _ c.buy new.no_buy view.no_buy);
      }

  within-ViewAt :
      (stored : Option PriceRow)
      → ((r : RawPrice) → In r all → r.key ≡ k → In r old)
      → ViewAt old k stored
      → ViewAt all k stored
  within-ViewAt none within absent = λ r m at_key. absent r (within r m at_key) at_key
  within-ViewAt (some c) within view = within-IsViewOf old c has_old within view

  -- A key of which the request has no row.
  other-ViewAt :
      ((r : RawPrice) → In r part → r.key ≡ k → ⊥)
      → (stored : Option PriceRow) → ViewAt old k stored
      → ViewAt all k stored
  other-ViewAt no_part stored view =
      let within : (r : RawPrice) → In r all → r.key ≡ k → In r old = λ r m at_key.
        elim (cover r m) [
          | inl in_old ↦ in_old
          | inr in_part ↦ absurd (no_part r in_part at_key)
        ] in
      within-ViewAt stored within view

pub raw_rows-request :
    (now : Time) (request : Text) (server : ℤ) (id : ℕ) (entries : List PriceIngest) (r : RawPrice)
    → In r (raw_rows now request server id entries)
    → text_eq r.request_id request ≡ true
unfolding raw_rows
raw_rows-request now request server id [] r m = absurd m
raw_rows-request now request server id (e ∷ entries) r (inl i) = rw i (text_eq_refl request)
raw_rows-request now request server id (e ∷ entries) r (inr i) =
    raw_rows-request now request server (suc id) entries r i

-- The upsert of the rows of a request, after they are added to the trail, keeps the view.
pub upsert_current-IsView :
    (now : Time) (request : Text) (old more : List RawPrice) (current : List PriceRow)
    → ((r : RawPrice) → In r more → text_eq r.request_id request ≡ true)
    → IsView old current
    → IsView (old ++ more) (upsert_current now request (old ++ more) current).1
unfolding upsert_current
upsert_current-IsView now request old more current own view =
    let all = old ++ more in
    let part = rows_of_request request all in
    let keys = group_keys key_of part in
    let name : PriceRow → PriceKey = λ r. r.key in
    let proposed = map (proposal now part) keys in
    let for_key : (k : PriceKey) → name (proposal now part k) ≡ k = λ k. refl in
    let cover : (r : RawPrice) → In r all → In r old ⊎ In r part = λ r m.
      elim (In-append r old more m) [
        | inl i ↦ inl i
        | inr i ↦ inr (rows_of_request_complete request all r m (own r i))
      ] in
    let has_old : (r : RawPrice) → In r old → In r all = λ r m. In-append_left r old more m in
    let has_part : (r : RawPrice) → In r part → In r all =
      λ r m. rows_of_request-In request all r m in
    record {
      unique =
          upsert_all-Distinct name is_touched merge_price (λ new r. refl) proposed current
            view.unique;
      at_key = λ k.
          let found =
            find_by-upsert_all name is_touched merge_price (λ new r. refl) k proposed current
              (rw (keys-propose name (proposal now part) for_key keys)
                (group_keys-Distinct key_of part)) in
          let asked = find_by-propose name (proposal now part) for_key k keys in
          let step : ViewAt all k (
              settled name is_touched merge_price (find_by name k proposed)
                (find_by name k current)) =
            elim (Bool-cases (contains k keys)) [
              | inl own_key ↦
                  let (r, m, same) = group_keys_sound key_of k part (contains→In k keys own_key) in
                  rw (rw own_key at asked) (
                    updated-ViewAt now all old part k has_old has_part cover r m same _
                      (view.at_key k))
              | inr other ↦
                  let no_part : (r : RawPrice) → In r part → r.key ≡ k → ⊥ = λ r m same.
                    In-not-contains k keys other
                      (subst (λ j. In j keys) same (group_keys_complete key_of r part m)) in
                  rw (rw other at asked) (
                    other-ViewAt now all old part k has_old has_part cover no_part _
                      (view.at_key k))
            ] in
          rw found step;
    }
