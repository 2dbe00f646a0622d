-- ===== src/Sql/First.antt =====
-- What `select_first` returns, for an order that is strict and whose negation is transitive.
use albion_market_api.Prelude.{
  ◌≡◌, refl, inl, inr, Bool, true, false, Option, none, some, List, [], ◌∷◌, In, Bool-cases,
}
use albion_market_api.Sql.{earlier, select_first}

-- `r` passes the test, stands among the rows, and no row that passes comes before it.
pub record IsFirst {A : Type 0} (before : A → A → Bool) (test : A → Bool) (rows : List A) (r : A)
    : Type 0 where
  pub stands : In r rows
  pub passes : test r ≡ true
  pub first : (s : A) → In s rows → test s ≡ true → before s r ≡ false

pub record IsOrder {A : Type 0} (before : A → A → Bool) : Type 0 where
  pub irrefl : (r : A) → before r r ≡ false
  pub asym : (r s : A) → before s r ≡ true → before r s ≡ false
  pub trans : (r s t : A) → before s r ≡ false → before t s ≡ false → before t r ≡ false

module _ {A : Type 0} (before : A → A → Bool) (test : A → Bool) where
  -- The answer of the query: none only if no row passes.
  abbrev pub Selected : List A → Option A → Type 0
  Selected rows none = (s : A) → In s rows → test s ≡ false
  Selected rows (some r) = IsFirst before test rows r

module _ {A : Type 0} (before : A → A → Bool) (order : IsOrder before) (test : A → Bool) where
  Selected-skip :
      (r : A) (rows : List A) (o : Option A)
      → test r ≡ false
      → Selected before test rows o
      → Selected before test (r ∷ rows) o
  Selected-skip r rows none shut p = λ s. elim [ inl e ↦ rw e shut | inr m ↦ p s m ]
  Selected-skip r rows (some q) shut p = record {
    stands = inr p.stands;
    passes = p.passes;
    first = λ s. elim [ inl e ↦ λ o. cc | inr m ↦ p.first s m ];
  }

  Selected-take :
      (r : A) (rows : List A) (o : Option A)
      → test r ≡ true
      → Selected before test rows o
      → Selected before test (r ∷ rows) (earlier before r o)
  Selected-take r rows none free p = record {
    stands = inl refl;
    passes = free;
    first = λ s. elim [ inl e ↦ λ o. rw e (order.irrefl r) | inr m ↦ λ o. cc (p s m) ];
  }
  Selected-take r rows (some q) free p = elim (Bool-cases (before q r)) [
    | inl sooner ↦
        let kept : IsFirst before test (r ∷ rows) q = record {
          stands = inr p.stands;
          passes = p.passes;
          first = λ s. elim [ inl e ↦ λ o. rw e (order.asym r q sooner) | inr m ↦ p.first s m ];
        } in
        rw sooner kept
    | inr after ↦
        let taken : IsFirst before test (r ∷ rows) r = record {
          stands = inl refl;
          passes = free;
          first = λ s. elim [
            | inl e ↦ λ o. rw e (order.irrefl r)
            | inr m ↦ λ o. order.trans r q s after (p.first s m o)
          ];
        } in
        rw after taken
  ]

  pub select_first-Selected :
      (rows : List A) → Selected before test rows (select_first before test rows)
  unfolding select_first
  select_first-Selected [] = λ s m. absurd m
  select_first-Selected (r ∷ rows) = elim (Bool-cases (test r)) [
    | inl free ↦ rw free (Selected-take r rows _ free (select_first-Selected rows))
    | inr shut ↦ rw shut (Selected-skip r rows _ shut (select_first-Selected rows))
  ]

  pub select_first-some :
      (rows : List A) (r : A) → select_first before test rows ≡ some r → IsFirst before test rows r
  select_first-some rows r h = rw h at (select_first-Selected rows)

  pub select_first-none :
      (rows : List A) → select_first before test rows ≡ none → (s : A) → In s rows → test s ≡ false
  select_first-none rows h = rw h at (select_first-Selected rows)
