-- ===== src/Market/Store/Copy.antt =====
-- The copy source gives every entry, once and in order.
use albion_market_api.Prelude.{
  ℕ, zero, suc, ◌+◌, ◌-◌, ◌<◌, ◌≡◌, refl, inl, inr, ◌||◌, false, List, arith, ltb, leb, ◌==◌,
  length, drop, drop-cons, drop_all, ok, Bool-cases,
}
use albion_market_api.Market.Ingest.{PriceIngest}
use albion_market_api.Market.PriceSource.{next, values, drain}

drain-drop :
    (fuel : ℕ) (entries : List PriceIngest) (i : ℕ)
    → length entries < i + fuel
    → drain fuel (record { entries = entries; index = i }) ≡ ok (drop i entries)
unfolding drain next values
drain-drop zero entries i h = rw (drop_all entries i (omega (arith, h))) refl
drain-drop (suc fuel) entries i h = elim (Bool-cases (leb (length entries) i)) [
  | inl done ↦ rw (done, drop_all entries i (ground arith)) refl
  | inr more ↦
      let (x, found, split) = drop-cons entries i (ground arith) in
      let inside : (suc i == 0 || ltb (length entries) (suc i)) ≡ false = ground arith in
      let back : suc i - 1 ≡ i = omega arith in
      rw (more, inside, back, found, drain-drop fuel entries (suc i) (omega (arith, h)), split) refl
]

-- The copy source of a request, read from its start until it has no next row, gives the
-- entries of the request, each once and in their order.
pub drain-entries :
    (entries : List PriceIngest)
    → drain (suc (length entries)) (record { entries = entries; index = 0 }) ≡ ok entries
drain-entries entries = drain-drop (suc (length entries)) entries 0 (omega arith)
