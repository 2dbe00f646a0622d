-- ===== src/Billing/Queue/Rows.antt =====
-- Laws of finding and updating the row of one event.
use albion_market_api.Prelude.{
  ◌≡◌, refl, sym, ap, ◌∙◌, inl, inr, Bool, true, false, none, some, List, [], ◌∷◌, ◌++◌, map, arith,
  if◌then◌else◌, In, All, Distinct, Bool-cases, In-map,
}
use mathlib.Core.Path.{subst}
use albion_market_api.Text.{Text, text_eq}
use albion_market_api.Text.Equality.{text_eq_iff, text_eq_refl}
use albion_market_api.Billing.Queue.{Event, find_event, update_event}

module _ {P : Type 0} where
  abbrev pub ids : List (Event P) → List Text
  ids = map (λ r. r.event_id)

  -- The found row stands in the table under its key.
  pub find_event-some :
      (key : Text) (rows : List (Event P)) (r : Event P)
      → find_event key rows ≡ some r
      → In r rows × (r.event_id ≡ key)
  unfolding find_event
  find_event-some key [] r h = cc
  find_event-some key (q ∷ rows) r h = elim (Bool-cases (text_eq q.event_id key)) [
    | inl e ↦
        let same : q ≡ r = ground (arith, e, h) in
        (
          inl (sym same),
          ap (λ (x : Event P). x.event_id) (sym same) ∙ (text_eq_iff q.event_id key).0 e,
        )
    | inr n ↦ let (m, e) = find_event-some key rows r (rw n at h) in (inr m, e)
  ]

  pub find_event-none :
      (key : Text) (rows : List (Event P)) → find_event key rows ≡ none → In key (ids rows) → ⊥
  unfolding find_event
  find_event-none key [] h m = m
  find_event-none key (q ∷ rows) h m = elim (Bool-cases (text_eq q.event_id key)) [
    | inl e ↦ ground (arith, e, h)
    | inr n ↦ elim m [
      | inl e ↦ cc ((text_eq_iff q.event_id key).1 (sym e))
      | inr later ↦ find_event-none key rows (rw n at h) later
    ]
  ]

  -- In a table with distinct identities a row is found by its own.
  pub find_event-In :
      (rows : List (Event P)) (r : Event P)
      → Distinct (ids rows)
      → In r rows
      → find_event r.event_id rows ≡ some r
  unfolding find_event
  find_event-In [] r d m = absurd m
  find_event-In (q ∷ rows) r d (inl e) = rw e (rw (text_eq_refl q.event_id) refl)
  find_event-In (q ∷ rows) r d (inr m) = elim (Bool-cases (text_eq q.event_id r.event_id)) [
    | inl e ↦ absurd (
        d.0 (
          subst (λ i. In i (ids rows)) (sym ((text_eq_iff q.event_id r.event_id).0 e))
            (In-map (λ x. x.event_id) r rows m)))
    | inr n ↦ rw n (find_event-In rows r d.1 m)
  ]

  module _ (key : Text) (f : Event P → Event P)
      (keeps : (r : Event P) → (f r).event_id ≡ r.event_id) where
    id-update : (b : Bool) (q : Event P) → (if b then f q else q).event_id ≡ q.event_id
    id-update true q = keeps q
    id-update false q = refl

    pub ids-update_event : (rows : List (Event P)) → ids (update_event key f rows) ≡ ids rows
    unfolding update_event
    ids-update_event [] = refl
    ids-update_event (r ∷ rows) = ground (arith, ids-update_event rows, keeps r)

    -- An update changes the row of its key and no other.
    pub find_event-update_event :
        (rows : List (Event P)) (j : Text) (r : Event P)
        → find_event j rows ≡ some r
        → find_event j (update_event key f rows) ≡ some (if text_eq j key then f r else r)
    unfolding find_event update_event
    find_event-update_event [] j r h = cc
    find_event-update_event (q ∷ rows) j r h =
        rw (id-update (text_eq q.event_id key) q) (elim (Bool-cases (text_eq q.event_id j)) [
          | inl e ↦
              let same : q ≡ r = ground (arith, e, h) in
              rw (e, ← same, ← ((text_eq_iff q.event_id j).0 e)) refl
          | inr n ↦ rw n (find_event-update_event rows j r (rw n at h))
        ])

  module _ (Q : Event P → Type 0) where
    pub All-update_event :
        (key : Text) (f : Event P → Event P) (rows : List (Event P))
        → ((r : Event P) → In r rows → r.event_id ≡ key → Q r → Q (f r))
        → All Q rows
        → All Q (update_event key f rows)
    unfolding update_event
    All-update_event key f [] step h = tt
    All-update_event key f (r ∷ rows) step h =
        let rest = All-update_event key f rows (λ s m. step s (inr m)) h.1 in
        elim (Bool-cases (text_eq r.event_id key)) [
          | inl e ↦ rw e (step r (inl refl) ((text_eq_iff r.event_id key).0 e) h.0, rest)
          | inr n ↦ rw n (h.0, rest)
        ]

  -- A row added at the end hides none.
  pub find_event-append :
      (key : Text) (rows more : List (Event P)) (r : Event P)
      → find_event key rows ≡ some r
      → find_event key (rows ++ more) ≡ some r
  unfolding find_event
  find_event-append key [] more r h = cc
  find_event-append key (q ∷ rows) more r h = elim (Bool-cases (text_eq q.event_id key)) [
    | inl e ↦ rw e (rw e at h)
    | inr n ↦ rw n (find_event-append key rows more r (rw n at h))
  ]
