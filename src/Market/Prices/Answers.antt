-- ===== src/Market/Prices/Answers.antt =====
-- What a price query answers.
use albion_market_api.Prelude.{
  ℕ, suc, ◌+◌, ◌++◌, In-of-map, All-In, ◌≤◌, ◌≡◌, refl, sym, ◌∙◌, inl, inr, map, true, false, ◌||◌,
  ◌==◌, ltb, List, [], ◌∷◌, arith, In, All, Distinct, length, if-eq, ok, >>=-eq-ok, fail_if,
  fail_if-eq-ok,
}
use albion_market_api.Prelude.Int.{ℤ, pos, negsuc}
use albion_market_api.Int64.{lt}
use albion_market_api.Text.{Platform, Text, trim_space, is_empty, format_int}
use albion_market_api.Seen.{collect, text_keys}
use albion_market_api.Seen.Passes.{
  check_all, first_of_each, collect-passes, first_of_each-Distinct, All-first_of_each,
  first_of_each_complete, In-first_of_each, Distinct-of-map,
}
use albion_market_api.Maps.{location_keys}
use albion_market_api.Market.Domain.{QueryEntry, PriceQueryRequest}
use albion_market_api.Market.Catalog.{Catalog, resolve_enabled}
use albion_market_api.Market.Catalog.Locations.{Resolves, resolve_enabled-Resolves}
use albion_market_api.Market.Prices.{
  max_markets, max_entries, validate_server, check_entry, dedupe_key, order_markets, PriceQuery,
  normalize_price_query,
}

-- The qualities, with the digit that prints each.
abbrev IsQuality : ℤ → Type 0
IsQuality q = (n : ℕ) × (q ≡ pos n) × (format_int q ≡ (48 + n) ∷ [])

IsQuality-cases : (q : ℤ) → lt q (pos 1) ≡ false → lt (pos 5) q ≡ false → IsQuality q
unfolding format_int
IsQuality-cases (negsuc n) low high = ground (arith, low)
IsQuality-cases (pos n) low high =
    let small : ltb n 10 ≡ true = ground (arith, low, high) in (n, refl, rw small refl)

-- The last two characters of a key tell the quality, and the item is before them.
snoc_injective : (s t : Text) (c d : ℕ) → s ++ 0 ∷ c ∷ [] ≡ t ++ 0 ∷ d ∷ [] → (s ≡ t) × (c ≡ d)
snoc_injective [] [] c d h = (refl, cc)
snoc_injective [] (y ∷ []) c d h = cc
snoc_injective [] (y ∷ z ∷ []) c d h = cc
snoc_injective [] (y ∷ z ∷ w ∷ t) c d h = cc
snoc_injective (x ∷ []) [] c d h = cc
snoc_injective (x ∷ z ∷ []) [] c d h = cc
snoc_injective (x ∷ z ∷ w ∷ s) [] c d h = cc
snoc_injective (x ∷ s) (y ∷ t) c d h =
    let tails : s ++ 0 ∷ c ∷ [] ≡ t ++ 0 ∷ d ∷ [] = cc in
    let (same, digit) = snoc_injective s t c d tails in (cc (same, h), digit)

dedupe_key_injective :
    (d e : QueryEntry)
    → IsQuality d.quality
    → IsQuality e.quality
    → dedupe_key d ≡ dedupe_key e
    → d ≡ e
unfolding dedupe_key
dedupe_key_injective d e (m, is_m, print_m) (n, is_n, print_n) h =
    let (item, digit) =
      snoc_injective d.item_key e.item_key (48 + m) (48 + n) (rw (print_m, print_n) at h) in
    let same : m ≡ n = omega (arith, digit) in cc (item, is_m, is_n, same)

module _ ⦃go : Platform⦄ where
  -- An entry as the query passes it on: an item with a trimmed, non-empty key, and a quality from 1
  -- to 5.
  pub record IsEntry (entry : QueryEntry) : Type 0 where
    pub has_item : is_empty entry.item_key ≡ false
    pub quality_low : lt entry.quality (pos 1) ≡ false
    pub quality_high : lt (pos 5) entry.quality ≡ false

  check_entry-IsEntry :
      (i : ℕ) (entry checked : QueryEntry)
      → check_entry i entry ≡ ok checked
      → IsEntry checked
        × (checked ≡ record { item_key = trim_space entry.item_key; quality = entry.quality })
  unfolding check_entry
  check_entry-IsEntry i entry checked h =
      elim (if-eq (is_empty (trim_space entry.item_key)) _ _ h) [
        | inl (_, k) ↦ cc
        | inr (item, k) ↦
            elim (if-eq (lt entry.quality (pos 1) || lt (pos 5) entry.quality) _ _ k) [
              | inl (_, l) ↦ cc
              | inr (range, l) ↦
                  let is : checked
                      ≡ record { item_key = trim_space entry.item_key; quality = entry.quality } =
                    cc in
                  (
                    rw is (record {
                      has_item = item;
                      quality_low = ground (arith, range);
                      quality_high = ground (arith, range);
                    }),
                    is,
                  )
            ]
      ]

  check_all-IsEntry :
      (i : ℕ) (entries checked : List QueryEntry)
      → check_all check_entry i entries ≡ ok checked
      → All IsEntry checked
        × (checked
            ≡ map (λ e. record { item_key = trim_space e.item_key; quality = e.quality }) entries)
  check_all-IsEntry i [] checked h = let is : checked ≡ [] = cc in rw is (tt, refl)
  check_all-IsEntry i (e ∷ entries) checked h =
      let (c, hc, h1) = >>=-eq-ok (check_entry i e) _ h in
      let (cs, hcs, h2) = >>=-eq-ok (check_all check_entry (suc i) entries) _ h1 in
      let is : checked ≡ c ∷ cs = cc in
      let (one, eq) = check_entry-IsEntry i e c hc in
      let (rest, eqs) = check_all-IsEntry (suc i) entries cs hcs in
      rw is ((one, rest), cc (eq, eqs))

  quality_of : (e : QueryEntry) → IsEntry e → IsQuality e.quality
  quality_of e valid = IsQuality-cases e.quality valid.quality_low valid.quality_high

  -- The entries of a request, trimmed.
  abbrev pub trimmed : List QueryEntry → List QueryEntry
  trimmed entries =
      map (λ e. record { item_key = trim_space e.item_key; quality = e.quality }) entries

  -- What the normal form of an accepted request is.
  pub record IsNormal (c : Catalog) (req : PriceQueryRequest) (q : PriceQuery) : Type 0 where
    pub server_known : validate_server req.server ≡ ok tt
    pub same_server : q.looked_up.server ≡ req.server
    pub some_markets : 1 ≤ length req.market_keys
    pub few_markets : length req.market_keys ≤ 32
    pub some_entries : 1 ≤ length req.entries
    pub few_entries : length req.entries ≤ 2000
    pub markets : Resolves c req.market_keys q.looked_up.location_ids q.keys_by_location
    pub entries_valid : All IsEntry q.looked_up.entries
    pub entries_distinct : Distinct q.looked_up.entries
    pub entries_covered : (e : QueryEntry) → In e (trimmed req.entries) → In e q.looked_up.entries
    pub entries_asked : (e : QueryEntry) → In e q.looked_up.entries → In e (trimmed req.entries)

  -- The entries that the loop keeps.
  collected :
      (entries kept : List QueryEntry)
      → collect check_entry dedupe_key 0 [] entries ≡ ok kept
      → All IsEntry kept
        × Distinct kept
        × ((e : QueryEntry) → In e (trimmed entries) → In e kept)
        × ((e : QueryEntry) → In e kept → In e (trimmed entries))
  collected entries kept h =
      let passes = sym (collect-passes check_entry dedupe_key 0 [] entries) ∙ h in
      let (checked, hc, h1) = >>=-eq-ok (check_all check_entry 0 entries) _ passes in
      let (valid, eq) = check_all-IsEntry 0 entries checked hc in
      let firsts = first_of_each dedupe_key [] checked in
      let is : kept ≡ firsts = cc in
      let valid_firsts = All-first_of_each dedupe_key IsEntry [] checked valid in
      rw is (
        valid_firsts,
        Distinct-of-map dedupe_key firsts (first_of_each-Distinct dedupe_key [] checked),
        λ e m. elim (first_of_each_complete dedupe_key [] checked e (rw eq m)) [
          | inl none_seen ↦ absurd none_seen
          | inr k ↦
              let (d, i, same) = In-of-map dedupe_key (dedupe_key e) firsts k in
              let one =
                dedupe_key_injective e d (quality_of e (All-In _ checked valid e (rw eq m)))
                  (quality_of d (All-In _ firsts valid_firsts d i)) same in
              rw one i
        ],
        λ e m. rw (← eq) (In-first_of_each dedupe_key [] checked e m),
      )

  -- Every request that `normalizePriceQuery` accepts has a known server, 1 to 32 market keys and 1
  -- to 2000 entries, and its normal form asks, on the same server, for the locations of
  -- exactly the enabled markets named in the request and for entries with a non-empty item and a
  -- quality from 1 to 5: no two of these are the same, and they are exactly those of the request, with
  -- their items trimmed.
  pub normalize_price_query-IsNormal :
      (c : Catalog) (req : PriceQueryRequest) (q : PriceQuery)
      → normalize_price_query c req ≡ ok q
      → IsNormal c req q
  unfolding normalize_price_query
  normalize_price_query-IsNormal c req q h =
      let (x₀, h₀, k₀) = >>=-eq-ok (validate_server req.server) _ h in
      let (x₁, h₁, k₁) = >>=-eq-ok (fail_if (length req.market_keys == 0) _) _ k₀ in
      let (x₂, h₂, k₂) = >>=-eq-ok (fail_if (ltb max_markets (length req.market_keys)) _) _ k₁ in
      let (x₃, h₃, k₃) = >>=-eq-ok (fail_if (length req.entries == 0) _) _ k₂ in
      let (x₄, h₄, k₄) = >>=-eq-ok (fail_if (ltb max_entries (length req.entries)) _) _ k₃ in
      let (resolved, hr, kr) = >>=-eq-ok (resolve_enabled c req.market_keys) _ k₄ in
      let (entries, he, ke) = >>=-eq-ok (collect check_entry dedupe_key 0 [] req.entries) _ kr in
      let (valid, distinct, covered, of_request) = collected req.entries entries he in
      let is : q ≡ record {
        looked_up = record { server = req.server; location_ids = resolved.0; entries = entries };
        market_order = order_markets [] [] req.market_keys;
        keys_by_location = resolved.1;
      } =
        cc in
      let no_markets_fails = fail_if-eq-ok (length req.market_keys == 0) _ h₁ in
      let markets_fail = fail_if-eq-ok (ltb max_markets (length req.market_keys)) _ h₂ in
      let no_entries_fails = fail_if-eq-ok (length req.entries == 0) _ h₃ in
      let entries_fail = fail_if-eq-ok (ltb max_entries (length req.entries)) _ h₄ in
      rw is (record {
        server_known = h₀;
        same_server = refl;
        some_markets = ground arith;
        few_markets = ground arith;
        some_entries = ground arith;
        few_entries = ground arith;
        markets = resolve_enabled-Resolves c req.market_keys resolved.0 resolved.1 hr;
        entries_valid = valid;
        entries_distinct = distinct;
        entries_covered = covered;
        entries_asked = of_request;
      })
