-- ===== src/Market/Catalog/Locations.antt =====
-- The locations and the labels that `ResolveEnabled` (internal/marketcatalog/catalog.go) returns.
use albion_market_api.Prelude.{
  ◌≡◌, refl, sym, ◌∙◌, ◌⊎◌, inl, inr, map, true, false, Option, none, some, List, [], ◌∷◌, ◌++◌,
  arith, In, In-snoc, In-snoc_old, In-snoc_new, Bool-cases, Option-cases, if-eq, ok, >>=-eq-ok,
}
use mathlib.Core.Path.{subst}
use albion_market_api.Prelude.Int.{ℤ}
use albion_market_api.Text.{Text, Platform, is_empty}
use albion_market_api.Seen.{contains, text_keys}
use albion_market_api.Seen.Passes.{contains→In}
use albion_market_api.Maps.{lookup, put, location_keys, beq_ℤ, beq_ℤ_iff}
use albion_market_api.Market.Catalog.{
  Market, Catalog, Resolved, add_market, normalize_key, resolve_key, resolve_keys, resolve_enabled,
}

-- `m` is the enabled market of the key, at the location.
pub record IsAt (c : Catalog) (key : Text) (id : ℤ) (m : Market) : Type 0 where
  pub found : lookup key c.by_key ≡ some m
  pub on : m.definition.enabled ≡ true
  pub located : m.location_id ≡ some id

-- The key is that of an enabled market at the location.
abbrev pub At : Catalog → Text → ℤ → Type 0
At c key id = (m : Market) × IsAt c key id m

-- The state of the loop after some keys.
record IsResolved (c : Catalog) (r : Resolved) : Type 0 where
  named : (id : ℤ) → In id r.location_ids → (key : Text) × (lookup id r.keys_by_location ≡ some key)
  placed :
      (id : ℤ) (key : Text) → lookup id r.keys_by_location ≡ some key → In key r.seen × At c key id
  covered : (key : Text) → In key r.seen → (id : ℤ) × In id r.location_ids × At c key id

module _ (c : Catalog) where
  lookup-put_other :
      (j id : ℤ) (key : Text) (m : List (ℤ × Text))
      → beq_ℤ j id ≡ false
      → lookup j (put id key m) ≡ lookup j m
  unfolding lookup
  lookup-put_other j id key m n = rw n refl

  lookup-put_eq :
      (j id : ℤ) (key : Text) (m : List (ℤ × Text))
      → beq_ℤ j id ≡ true
      → lookup j (put id key m) ≡ some key
  unfolding lookup
  lookup-put_eq j id key m n = rw n refl

  -- A market that is found and open extends the state.
  extend :
      (r : Resolved) (key : Text) (id : ℤ)
      → IsResolved c r
      → At c key id
      → IsResolved c (record {
        location_ids = r.location_ids ++ id ∷ [];
        keys_by_location = put id key r.keys_by_location;
        seen = key ∷ r.seen;
      })
  extend r key id h at = record {
    named = λ j m. elim (Bool-cases (beq_ℤ j id)) [
      | inl e ↦ (key, lookup-put_eq j id key r.keys_by_location e)
      | inr n ↦ elim (In-snoc j r.location_ids id m) [
        | inl old ↦
            let (k, found) = h.named j old in
            (k, lookup-put_other j id key r.keys_by_location n ∙ found)
        | inr new ↦ absurd (cc (n, (beq_ℤ_iff j id).1 new))
      ]
    ];
    placed = λ j k found. elim (Bool-cases (beq_ℤ j id)) [
      | inl e ↦
          let same : k ≡ key = cc (found, lookup-put_eq j id key r.keys_by_location e) in
          let there : j ≡ id = (beq_ℤ_iff j id).0 e in
          (inl same, subst (λ t. At c t j) (sym same) (subst (λ t. At c key t) (sym there) at))
      | inr n ↦
          let (seen, rest) =
            h.placed j k (sym (lookup-put_other j id key r.keys_by_location n) ∙ found) in
          (inr seen, rest)
    ];
    covered = λ k. elim [
      | inl same ↦ (id, In-snoc_new id r.location_ids, subst (λ t. At c t id) (sym same) at)
      | inr old ↦ let (j, m, rest) = h.covered k old in (j, In-snoc_old j id r.location_ids m, rest)
    ];
  }

  add_market-IsResolved :
      (r : Resolved) (key : Text) (o : Option Market) (next : Resolved)
      → IsResolved c r
      → lookup key c.by_key ≡ o
      → add_market r key o ≡ ok next
      → IsResolved c next × In key next.seen × ((k : Text) → In k r.seen → In k next.seen)
  unfolding add_market
  add_market-IsResolved r key none next h found e = cc
  add_market-IsResolved r key (some m) next h found e = elim (Bool-cases m.definition.enabled) [
    | inr off ↦ cc (rw off at e)
    | inl on ↦ elim (Option-cases m.location_id) [
      | inl nowhere ↦ cc (rw (on, nowhere) at e)
      | inr (id, located) ↦
          let e' = rw (on, located) at e in
          let is : next ≡ (record {
            location_ids = r.location_ids ++ id ∷ [];
            keys_by_location = put id key r.keys_by_location;
            seen = key ∷ r.seen;
          }) =
            cc in
          let at : At c key id = (m, record { found = found; on = on; located = located }) in
          rw is (extend r key id h at, inl refl, λ k seen. inr seen)
    ]
  ]

-- What `resolve_enabled` promises: each location has a key, that of an enabled market that was asked
-- for and lies there; and each key asked for is that of an enabled market, whose location is listed.
pub record Resolves ⦃go : Platform⦄ (c : Catalog) (keys : List Text) (ids : List ℤ)
    (by : List (ℤ × Text)) : Type 0 where
  pub named : (id : ℤ) → In id ids → (key : Text) × (lookup id by ≡ some key)
  pub placed :
      (id : ℤ) (key : Text)
      → lookup id by ≡ some key
      → In key (map normalize_key keys) × At c key id
  pub covered : (raw : Text) → In raw keys → (id : ℤ) × In id ids × At c (normalize_key raw) id

module _ ⦃go : Platform⦄ (c : Catalog) where
  -- A step keeps the state right, keeps what was seen, and adds the key alone to it.
  record Advances (r : Resolved) (raw : Text) (next : Resolved) : Type 0 where
    right : IsResolved c next
    kept : (k : Text) → In k r.seen → In k next.seen
    added : In (normalize_key raw) next.seen

  resolve_key-Advances :
      (r : Resolved) (raw : Text) (next : Resolved)
      → IsResolved c r
      → resolve_key c r raw ≡ ok next
      → Advances r raw next
  unfolding resolve_key
  resolve_key-Advances r raw next h e = elim (if-eq (is_empty (normalize_key raw)) _ _ e) [
    | inl (_, k) ↦ cc
    | inr (_, k) ↦ elim (if-eq (contains (normalize_key raw) r.seen) _ _ k) [
      | inl (old, same) ↦
          let is : next ≡ r = cc in
          rw is (record { right = h; kept = λ k m. m; added = contains→In _ r.seen old })
      | inr (new, step) ↦
          let (right, added, kept) =
            add_market-IsResolved c r (normalize_key raw) _ next h refl step in
          record { right = right; kept = kept; added = added }
    ]
  ]

  add_market-seen :
      (r : Resolved) (key : Text) (o : Option Market) (next : Resolved)
      → add_market r key o ≡ ok next
      → next.seen ≡ key ∷ r.seen
  unfolding add_market
  add_market-seen r key none next e = cc
  add_market-seen r key (some m) next e = ground (arith, e)

  resolve_key-asked :
      (r : Resolved) (raw : Text) (next : Resolved) (k : Text)
      → resolve_key c r raw ≡ ok next
      → In k next.seen
      → (k ≡ normalize_key raw) ⊎ In k r.seen
  unfolding resolve_key
  resolve_key-asked r raw next key e m = elim (if-eq (is_empty (normalize_key raw)) _ _ e) [
    | inl (_, k) ↦ cc
    | inr (_, k) ↦ elim (if-eq (contains (normalize_key raw) r.seen) _ _ k) [
      | inl (old, same) ↦ let is : next ≡ r = cc in inr (rw is at m)
      | inr (new, step) ↦ rw (add_market-seen r (normalize_key raw) _ next step) at m
    ]
  ]

  resolve_keys-IsResolved :
      (r : Resolved) (keys : List Text) (last : Resolved)
      → IsResolved c r
      → resolve_keys c r keys ≡ ok last
      → IsResolved c last
        × ((k : Text) → In k r.seen → In k last.seen)
        × ((raw : Text) → In raw keys → In (normalize_key raw) last.seen)
        × ((k : Text) → In k last.seen → In k r.seen ⊎ In k (map normalize_key keys))
  resolve_keys-IsResolved r [] last h e =
      let is : last ≡ r = cc in rw is (h, λ k m. m, λ raw m. absurd m, λ k m. inl m)
  resolve_keys-IsResolved r (raw ∷ keys) last h e =
      let (next, p, q) = >>=-eq-ok (resolve_key c r raw) _ e in
      let step = resolve_key-Advances r raw next h p in
      let (right, kept, added, asked) = resolve_keys-IsResolved next keys last step.right q in
      (
        right,
        λ k m. kept k (step.kept k m),
        λ other. elim [
          | inl same ↦ subst (λ t. In (normalize_key t) last.seen) (sym same) (kept _ step.added)
          | inr m ↦ added other m
        ],
        λ k m. elim (asked k m) [
          | inr later ↦ inr (inr later)
          | inl before ↦ elim (resolve_key-asked r raw next k p before) [
            | inl now ↦ inr (inl now)
            | inr old ↦ inl old
          ]
        ],
      )

  -- Whatever the keys, if `ResolveEnabled` succeeds then each of its locations has a key in
  -- `keysByLocation`, each such key is the normalized form of one asked for and belongs to an
  -- enabled market of the catalog at that location, and each key asked for, normalized, belongs to
  -- an enabled market whose location is in the answer.
  pub resolve_enabled-Resolves :
      (keys : List Text) (ids : List ℤ) (by : List (ℤ × Text))
      → resolve_enabled c keys ≡ ok (ids, by)
      → Resolves c keys ids by
  unfolding resolve_enabled lookup
  resolve_enabled-Resolves keys ids by h =
      let start : Resolved = record { location_ids = []; keys_by_location = []; seen = [] } in
      let (last, p, q) = >>=-eq-ok (resolve_keys c start keys) _ h in
      let empty : IsResolved c start = record {
        named = λ id m. absurd m;
        placed = λ id key m. absurd (cc m);
        covered = λ key m. absurd m;
      } in
      let (right, kept, added, asked) = resolve_keys-IsResolved start keys last empty p in
      let is_ids : ids ≡ last.location_ids = cc in
      let is_by : by ≡ last.keys_by_location = cc in
      rw (is_ids, is_by)
        (record {
          named = right.named;
          placed = λ id key found.
              let (m, at) = right.placed id key found in
              (elim (asked key m) [ inl none_yet ↦ absurd none_yet | inr k ↦ k ], at);
          covered = λ raw m. right.covered (normalize_key raw) (added raw m);
        })
