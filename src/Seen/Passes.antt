-- ===== src/Seen/Passes.antt =====
-- The loop does what two passes do: check every element, then drop the later duplicates.
use albion_market_api.Prelude.{
  ℕ, suc, ◌≡◌, refl, sym, ap, ◌⊎◌, inl, inr, true, false, List, [], ◌∷◌, arith, Result, ok, ◌>>=◌,
  Result-cases, Bool-cases, if◌then◌else◌, In, In-map, All, Distinct, map,
}
use mathlib.Core.Path.{subst}
use albion_market_api.Seen.{Eq, contains, collect}

module _ {E A B : Type 0} (check : ℕ → A → Result E B) where
  -- The first pass: every element is checked, at its index, and the first error wins.
  abbrev pub check_all : ℕ → List A → Result E (List B)
  check_all i [] = ok []
  check_all i (a ∷ items) = check i a >>= λ b. check_all (suc i) items >>= λ bs. ok (b ∷ bs)

module _ {B K : Type 0} ⦃e : Eq K⦄ (key : B → K) where
  -- The second pass: the first element of each key, in order.
  unfoldable pub first_of_each : List K → List B → List B
  first_of_each seen [] = []
  first_of_each seen (b ∷ bs) =
      let dup = contains (key b) seen in
      let rest = first_of_each (if dup then seen else key b ∷ seen) bs in
      if dup then rest else b ∷ rest

module _ {E A B K : Type 0} ⦃e : Eq K⦄ (check : ℕ → A → Result E B) (key : B → K) where
  pub collect-passes :
      (i : ℕ) (seen : List K) (items : List A)
      → collect check key i seen items
        ≡ (check_all check i items >>= λ bs. ok (first_of_each key seen bs))
  unfolding collect first_of_each
  collect-passes i seen [] = refl
  collect-passes i seen (a ∷ items) = elim (Result-cases (check i a)) [
    | inr (x, p) ↦ rw p refl
    | inl (b, p) ↦
        let seen' = if contains (key b) seen then seen else key b ∷ seen in
        elim (Result-cases (check_all check (suc i) items)) [
          | inl (bs, q) ↦ rw p (rw (collect-passes (suc i) seen' items) (rw q refl))
          | inr (x, q) ↦ rw p (rw (collect-passes (suc i) seen' items) (rw q refl))
        ]
  ]

-- The loop sees its check and its key by their values only.
pub collect-same :
    {E A B K : Type 0} ⦃e : Eq K⦄ (check check' : ℕ → A → Result E B) (key key' : B → K)
    → ((i : ℕ) (a : A) → check i a ≡ check' i a)
    → ((b : B) → key b ≡ key' b)
    → (i : ℕ) (seen : List K) (items : List A)
    → collect check key i seen items ≡ collect check' key' i seen items
unfolding collect
collect-same check check' key key' f g i seen [] = refl
collect-same check check' key key' f g i seen (a ∷ items) = elim (Result-cases (check' i a)) [
  | inr (x, p) ↦ rw (f i a, p) refl
  | inl (b, p) ↦
      let rest =
        collect-same check check' key key' f g (suc i)
          (if contains (key' b) seen then seen else key' b ∷ seen) items in
      rw (f i a, p, g b, rest) refl
]

module _ {K : Type 0} ⦃e : Eq K⦄ where
  pub contains→In : (k : K) (seen : List K) → contains k seen ≡ true → In k seen
  unfolding contains
  contains→In k [] h = cc
  contains→In k (j ∷ js) h = elim (Bool-cases (e.beq k j)) [
    | inl p ↦ inl ((e.beq_iff k j).0 p)
    | inr p ↦ inr (contains→In k js (rw p at h))
  ]

  pub In→contains : (k : K) (seen : List K) → In k seen → contains k seen ≡ true
  unfolding contains
  In→contains k [] m = absurd m
  In→contains k (j ∷ js) (inl p) = rw ((e.beq_iff k j).1 p) refl
  In→contains k (j ∷ js) (inr m) = ground (arith, In→contains k js m)

  pub In-not-contains : (k : K) (seen : List K) → contains k seen ≡ false → In k seen → ⊥
  In-not-contains k seen h m = cc (In→contains k seen m)

module _ {B K : Type 0} ⦃e : Eq K⦄ (key : B → K) where
  -- A key that was seen stays out.
  seen_stays_out :
      (seen : List K) (bs : List B) (k : K)
      → In k seen
      → In k (map key (first_of_each key seen bs))
      → ⊥
  unfolding first_of_each
  seen_stays_out seen [] k m n = n
  seen_stays_out seen (b ∷ bs) k m n = elim (Bool-cases (contains (key b) seen)) [
    | inl dup ↦ seen_stays_out seen bs k m (rw dup at n)
    | inr new ↦ elim (rw new at n) [
      | inl same ↦ absurd (In-not-contains (key b) seen new (subst (λ j. In j seen) same m))
      | inr later ↦ seen_stays_out (key b ∷ seen) bs k (inr m) later
    ]
  ]

  pub first_of_each-Distinct :
      (seen : List K) (bs : List B) → Distinct (map key (first_of_each key seen bs))
  unfolding first_of_each
  first_of_each-Distinct seen [] = tt
  first_of_each-Distinct seen (b ∷ bs) = elim (Bool-cases (contains (key b) seen)) [
    | inl dup ↦ rw dup (first_of_each-Distinct seen bs)
    | inr new ↦ rw new (
      seen_stays_out (key b ∷ seen) bs (key b) (inl refl),
      first_of_each-Distinct (key b ∷ seen) bs,
    )
  ]

  -- Every element has one with its key in the result, unless the key was seen before.
  pub first_of_each_complete :
      (seen : List K) (bs : List B) (b : B)
      → In b bs
      → In (key b) seen ⊎ In (key b) (map key (first_of_each key seen bs))
  unfolding first_of_each
  first_of_each_complete seen [] b m = absurd m
  first_of_each_complete seen (c ∷ bs) b m = elim (Bool-cases (contains (key c) seen)) [
    | inl dup ↦ rw dup (elim m [
      | inl same ↦ inl (subst (λ d. In (key d) seen) (sym same) (contains→In (key c) seen dup))
      | inr later ↦ first_of_each_complete seen bs b later
    ])
    | inr new ↦ rw new (elim m [
      | inl same ↦ inr (inl (ap key same))
      | inr later ↦ elim (first_of_each_complete (key c ∷ seen) bs b later) [
        | inl (inl same) ↦ inr (inl same)
        | inl (inr old) ↦ inl old
        | inr kept ↦ inr (inr kept)
      ]
    ])
  ]

  -- What holds of all elements holds of those kept.
  pub All-first_of_each :
      (P : B → Type 0) (seen : List K) (bs : List B) → All P bs → All P (first_of_each key seen bs)
  unfolding first_of_each
  All-first_of_each P seen [] h = tt
  All-first_of_each P seen (b ∷ bs) h = elim (Bool-cases (contains (key b) seen)) [
    | inl dup ↦ rw dup (All-first_of_each P seen bs h.1)
    | inr new ↦ rw new (h.0, All-first_of_each P (key b ∷ seen) bs h.1)
  ]

  -- And all of them are elements.
  pub In-first_of_each :
      (seen : List K) (bs : List B) (b : B) → In b (first_of_each key seen bs) → In b bs
  unfolding first_of_each
  In-first_of_each seen [] b m = m
  In-first_of_each seen (c ∷ bs) b m = elim (Bool-cases (contains (key c) seen)) [
    | inl dup ↦ inr (In-first_of_each seen bs b (rw dup at m))
    | inr new ↦ elim (rw new at m) [
      | inl i ↦ inl i
      | inr i ↦ inr (In-first_of_each (key c ∷ seen) bs b i)
    ]
  ]

pub Distinct-of-map :
    {A K : Type 0} (key : A → K) (xs : List A) → Distinct (map key xs) → Distinct xs
Distinct-of-map key [] d = tt
Distinct-of-map key (x ∷ xs) d = (λ m. d.0 (In-map key x xs m), Distinct-of-map key xs d.1)
