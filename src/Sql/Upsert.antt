-- ===== src/Sql/Upsert.antt =====
-- `insert ... on conflict (key) do update set ... where ...`, over a table with a unique key, and the
-- number of rows it affects. The `where` clause and the assignments are arguments.
use albion_market_api.Prelude.{
  ℕ, ◌+◌, ◌≡◌, refl, sym, ap, ◌⊎◌, inl, inr, Bool, false, Option, none, some, List, [], ◌∷◌, map,
  arith, if◌then◌else◌, In, Distinct, Bool-cases,
}
use mathlib.Core.Path.{subst}
use albion_market_api.Seen.{Eq, contains}
use albion_market_api.Seen.Passes.{contains→In, In-not-contains}

module _ {Row K : Type 0} ⦃e : Eq K⦄ (key : Row → K) where
  -- `where key = k`
  unfoldable pub find_by : K → List Row → Option Row
  find_by k [] = none
  find_by k (r ∷ rows) = if e.beq (key r) k then some r else find_by k rows

  -- `group by key`
  unfoldable pub group_keys : List Row → List K
  unfolding contains
  group_keys [] = []
  group_keys (r ∷ rows) =
      let rest = group_keys rows in if contains (key r) rest then rest else key r ∷ rest

  pub find_by-none : (k : K) (rows : List Row) → (In k (map key rows) → ⊥) → find_by k rows ≡ none
  unfolding find_by
  find_by-none k [] n = refl
  find_by-none k (r ∷ rows) n = elim (Bool-cases (e.beq (key r) k)) [
    | inl here ↦ absurd (n (inl (sym ((e.beq_iff (key r) k).0 here))))
    | inr away ↦ rw away (find_by-none k rows (λ m. n (inr m)))
  ]

  pub find_by-some :
      (k : K) (rows : List Row) (r : Row) → find_by k rows ≡ some r → In r rows × (key r ≡ k)
  unfolding find_by
  find_by-some k [] r h = cc
  find_by-some k (q ∷ rows) r h = elim (Bool-cases (e.beq (key q) k)) [
    | inl here ↦
        let same : q ≡ r = ground (arith, here, h) in
        (inl (sym same), rw (← same) ((e.beq_iff (key q) k).0 here))
    | inr away ↦ let (m, at_key) = find_by-some k rows r (rw away at h) in (inr m, at_key)
  ]

  pub group_keys-Distinct : (rows : List Row) → Distinct (group_keys rows)
  unfolding group_keys
  group_keys-Distinct [] = tt
  group_keys-Distinct (r ∷ rows) = elim (Bool-cases (contains (key r) (group_keys rows))) [
    | inl seen ↦ rw seen (group_keys-Distinct rows)
    | inr new ↦ rw new (In-not-contains (key r) (group_keys rows) new, group_keys-Distinct rows)
  ]

  pub group_keys_complete : (r : Row) (rows : List Row) → In r rows → In (key r) (group_keys rows)
  unfolding group_keys
  group_keys_complete r [] m = absurd m
  group_keys_complete r (q ∷ rows) m = elim (Bool-cases (contains (key q) (group_keys rows))) [
    | inl seen ↦ rw seen (elim m [
      | inl i ↦ rw i (contains→In (key q) (group_keys rows) seen)
      | inr i ↦ group_keys_complete r rows i
    ])
    | inr new ↦
        rw new (elim m [ inl i ↦ inl (ap key i) | inr i ↦ inr (group_keys_complete r rows i) ])
  ]

  -- And each key is one of a row.
  pub group_keys_sound :
      (k : K) (rows : List Row) → In k (group_keys rows) → (r : Row) × In r rows × (key r ≡ k)
  unfolding group_keys
  group_keys_sound k [] m = absurd m
  group_keys_sound k (q ∷ rows) m = elim (Bool-cases (contains (key q) (group_keys rows))) [
    | inl seen ↦ let (r, i, same) = group_keys_sound k rows (rw seen at m) in (r, inr i, same)
    | inr new ↦ elim (rw new at m) [
      | inl i ↦ (q, inl refl, sym i)
      | inr i ↦ let (r, j, same) = group_keys_sound k rows i in (r, inr j, same)
    ]
  ]

  module _ (propose : K → Row) (for_key : (k : K) → key (propose k) ≡ k) where
    pub keys-propose : (ks : List K) → map key (map propose ks) ≡ ks
    keys-propose [] = refl
    keys-propose (k ∷ ks) = rw (for_key k, keys-propose ks) refl

    pub find_by-propose :
        (k : K) (ks : List K)
        → find_by k (map propose ks) ≡ (if contains k ks then some (propose k) else none)
    unfolding find_by contains
    find_by-propose k [] = refl
    find_by-propose k (j ∷ ks) = elim (Bool-cases (e.beq j k)) [
      | inl here ↦ rw (for_key j, here, ← ((e.beq_iff j k).0 here), (e.beq_iff j j).1 refl) refl
      | inr away ↦
          let apart : e.beq k j ≡ false = elim (Bool-cases (e.beq k j)) [
            | inr n ↦ n
            | inl b ↦ cc ((e.beq_iff k j).0 b, (e.beq_iff k k).1 refl, away)
          ] in
          rw (for_key j, away, apart) (find_by-propose k ks)
    ]

  module _ (changes : Row → Row → Bool) (merge : Row → Row → Row) where
    -- One proposed row (`excluded`): the rows affected, and the table.
    unfoldable pub upsert_one : Row → List Row → ℕ × List Row
    upsert_one new [] = (1, new ∷ [])
    upsert_one new (r ∷ rows) =
        let rest = upsert_one new rows in
        if e.beq (key r) (key new)
        then (if changes new r then (1, merge new r ∷ rows) else (0, r ∷ rows))
        else (rest.0, r ∷ rest.1)

    unfoldable pub upsert_all : List Row → List Row → ℕ × List Row
    unfolding upsert_one
    upsert_all [] rows = (0, rows)
    upsert_all (p ∷ proposed) rows =
        let first = upsert_one p rows in
        let rest = upsert_all proposed first.1 in (first.0 + rest.0, rest.1)

    -- What a proposed row makes of the row with its key.
    abbrev pub updated : Row → Option Row → Row
    updated new none = new
    updated new (some r) = if changes new r then merge new r else r

    abbrev pub settled : Option Row → Option Row → Option Row
    settled none stored = stored
    settled (some p) stored = some (updated p stored)

    module _ (keeps : (new r : Row) → key (merge new r) ≡ key r) where
      pub find_by-upsert_one :
          (k : K) (new : Row) (rows : List Row)
          → find_by k (upsert_one new rows).1
            ≡ (if e.beq (key new) k then some (updated new (find_by k rows)) else find_by k rows)
      unfolding find_by upsert_one
      find_by-upsert_one k new [] = refl
      find_by-upsert_one k new (r ∷ rows) = elim (Bool-cases (e.beq (key r) (key new))) [
        | inl same ↦
            let at_key : key r ≡ key new = (e.beq_iff (key r) (key new)).0 same in
            elim (Bool-cases (changes new r)) [
              | inl c ↦
                  rw (same, c, keeps new r, at_key)
                    (elim (Bool-cases (e.beq (key new) k)) [
                      | inl b ↦ rw (b, c) refl
                      | inr n ↦ rw n refl
                    ])
              | inr n ↦
                  rw (same, n, at_key)
                    (elim (Bool-cases (e.beq (key new) k)) [
                      | inl b ↦ rw (b, n) refl
                      | inr m ↦ rw m refl
                    ])
            ]
        | inr other ↦ elim (Bool-cases (e.beq (key r) k)) [
          | inl here ↦
              let apart : e.beq (key new) k ≡ false = elim (Bool-cases (e.beq (key new) k)) [
                | inr n ↦ n
                | inl b ↦ cc ((e.beq_iff (key new) k).0 b, here, other)
              ] in
              rw (other, here, apart) refl
          | inr away ↦ rw (other, away) (find_by-upsert_one k new rows)
        ]
      ]

      -- A list of proposed rows with different keys.
      pub find_by-upsert_all :
          (k : K) (proposed rows : List Row)
          → Distinct (map key proposed)
          → find_by k (upsert_all proposed rows).1 ≡ settled (find_by k proposed) (find_by k rows)
      unfolding upsert_all find_by
      find_by-upsert_all k [] rows d = refl
      find_by-upsert_all k (p ∷ proposed) rows d = elim (Bool-cases (e.beq (key p) k)) [
        | inl here ↦
            let at_key = (e.beq_iff (key p) k).0 here in
            let gone =
              find_by-none k proposed
                (λ m. d.0 (subst (λ j. In j (map key proposed)) (sym at_key) m)) in
            let one = rw here at (find_by-upsert_one k p rows) in
            let rest =
              rw (gone, one) at (find_by-upsert_all k proposed (upsert_one p rows).1 d.1) in
            rw here rest
        | inr away ↦
            let one = rw away at (find_by-upsert_one k p rows) in
            let rest = rw one at (find_by-upsert_all k proposed (upsert_one p rows).1 d.1) in
            rw away rest
      ]

      In-keys-upsert_one :
          (k : K) (new : Row) (rows : List Row)
          → In k (map key (upsert_one new rows).1)
          → In k (map key rows) ⊎ (k ≡ key new)
      unfolding upsert_one
      In-keys-upsert_one k new [] (inl m) = inr m
      In-keys-upsert_one k new [] (inr m) = absurd m
      In-keys-upsert_one k new (r ∷ rows) m = elim (Bool-cases (e.beq (key r) (key new))) [
        | inl same ↦ elim (Bool-cases (changes new r)) [
          | inl c ↦ inl (rw (same, c, keeps new r) at m)
          | inr n ↦ inl (rw (same, n) at m)
        ]
        | inr other ↦ elim (rw other at m) [
          | inl i ↦ inl (inl i)
          | inr i ↦ elim (In-keys-upsert_one k new rows i) [ inl j ↦ inl (inr j) | inr j ↦ inr j ]
        ]
      ]

      upsert_one-Distinct :
          (new : Row) (rows : List Row)
          → Distinct (map key rows)
          → Distinct (map key (upsert_one new rows).1)
      unfolding upsert_one
      upsert_one-Distinct new [] d = (λ m. m, tt)
      upsert_one-Distinct new (r ∷ rows) d = elim (Bool-cases (e.beq (key r) (key new))) [
        | inl same ↦ elim (Bool-cases (changes new r)) [
          | inl c ↦ rw (same, c, keeps new r) d
          | inr n ↦ rw (same, n) d
        ]
        | inr other ↦ rw other (
          λ m. elim (In-keys-upsert_one (key r) new rows m) [
            | inl i ↦ d.0 i
            | inr i ↦ cc ((e.beq_iff (key r) (key new)).1 i, other)
          ],
          upsert_one-Distinct new rows d.1,
        )
      ]

      -- The key stays unique.
      pub upsert_all-Distinct :
          (proposed rows : List Row)
          → Distinct (map key rows)
          → Distinct (map key (upsert_all proposed rows).1)
      unfolding upsert_all
      upsert_all-Distinct [] rows d = d
      upsert_all-Distinct (p ∷ proposed) rows d =
          upsert_all-Distinct proposed _ (upsert_one-Distinct p rows d)
