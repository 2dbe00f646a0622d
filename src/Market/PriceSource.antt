-- ===== src/Market/PriceSource.antt =====
-- `rawPriceCopySource` of internal/repository/market_repository.go, which gives the entries of an
-- ingest to COPY.
use albion_market_api.Prelude.{
  ℕ, zero, suc, ◌-◌, Bool, true, false, ◌||◌, none, some, List, [], ◌∷◌, ◌==◌, ltb, leb, length,
  get_elem?, if◌then◌else◌, Result, ok, err, ◌>>=◌,
}
use albion_market_api.Text.{lit}
use albion_market_api.Seen.{text_keys}
use albion_market_api.Market.Ingest.{PriceIngest, StoreError, store_failed}
use albion_market_api.Market.Server.{price_keys, price_values}

-- `rawPriceCopySource`; its array `values` is filled anew for each row.
pub record CopySource : Type 0 where
  pub entries : List PriceIngest
  pub index : ℕ

-- `Next`.
unfoldable pub next : CopySource → Bool × CopySource
next s =
    if leb (length s.entries) s.index then (false, s) else (true, record s { index = suc s.index })

-- `Values`, after the two values that the constructor sets.
unfoldable pub values : CopySource → Result StoreError PriceIngest
values s =
    if s.index == 0 || ltb (length s.entries) s.index
    then err (store_failed (lit "raw price copy source is not positioned on a row"))
    else elim (get_elem? s.entries (s.index - 1)) [
      | none ↦ err (store_failed (lit "index out of range"))
      | some entry ↦ ok entry
    ]

-- How COPY reads a source: `Next`, then `Values`, until there is no next row.
unfoldable pub drain : ℕ → CopySource → Result StoreError (List PriceIngest)
unfolding next values
drain zero s = ok []
drain (suc fuel) s =
    let (more, moved) = next s in
    let rest = values moved >>= λ entry. drain fuel moved >>= λ entries. ok (entry ∷ entries) in
    if more then rest else ok []
