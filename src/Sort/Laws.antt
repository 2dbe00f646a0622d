-- ===== src/Sort/Laws.antt =====
-- What the sort returns, for an order in the sense of Sql/First.
use albion_market_api.Prelude.{
  ◌≡◌, sym, inl, inr, Distinct, Bool, false, List, [], ◌∷◌, In, All, All-weaken, Bool-cases,
}
use mathlib.Core.List.{Perm}
use mathlib.Core.List.Perm
use albion_market_api.Sql.First.{IsOrder}
use albion_market_api.Sort.{insert, sort_stable}

module _ {A : Type 0} (less : A → A → Bool) where
  -- No element is less than an earlier one.
  abbrev pub IsSorted : List A → Type 0
  IsSorted [] = Unit
  IsSorted (x ∷ xs) = All (λ y. less y x ≡ false) xs × IsSorted xs

  All-insert : (P : A → Type 0) (x : A) (xs : List A) → P x → All P xs → All P (insert less x xs)
  unfolding insert
  All-insert P x [] p h = (p, tt)
  All-insert P x (y ∷ ys) p h = elim (Bool-cases (less y x)) [
    | inl e ↦ rw e (h.0, All-insert P x ys p h.1)
    | inr n ↦ rw n (p, h)
  ]

  insert-perm : (x : A) (xs : List A) → Perm (insert less x xs) (x ∷ xs)
  unfolding insert
  insert-perm x [] = Perm.refl (x ∷ [])
  insert-perm x (y ∷ ys) = elim (Bool-cases (less y x)) [
    | inl e ↦ rw e (Perm.trans (Perm.cons y (insert-perm x ys)) (Perm.swap x y ys))
    | inr n ↦ rw n (Perm.refl (x ∷ y ∷ ys))
  ]

  pub sort_stable-perm : (xs : List A) → Perm (sort_stable less xs) xs
  unfolding sort_stable
  sort_stable-perm [] = Perm.refl []
  sort_stable-perm (x ∷ xs) =
      Perm.trans (insert-perm x (sort_stable less xs)) (Perm.cons x (sort_stable-perm xs))

  In-insert : (a x : A) (xs : List A) → In a (insert less x xs) → In a (x ∷ xs)
  unfolding insert
  In-insert a x [] m = m
  In-insert a x (y ∷ ys) m = elim (Bool-cases (less y x)) [
    | inr n ↦ rw n at m
    | inl e ↦ elim (rw e at m) [
      | inl i ↦ inr (inl i)
      | inr i ↦ elim (In-insert a x ys i) [ inl j ↦ inl j | inr j ↦ inr (inr j) ]
    ]
  ]

  insert-In : (a x : A) (xs : List A) → In a (x ∷ xs) → In a (insert less x xs)
  unfolding insert
  insert-In a x [] m = m
  insert-In a x (y ∷ ys) m = elim (Bool-cases (less y x)) [
    | inr n ↦ rw n m
    | inl e ↦ rw e (elim m [
      | inl i ↦ inr (insert-In a x ys (inl i))
      | inr (inl i) ↦ inl i
      | inr (inr i) ↦ inr (insert-In a x ys (inr i))
    ])
  ]

  -- The sort has the elements of the list.
  pub In-sort_stable : (a : A) (xs : List A) → In a (sort_stable less xs) → In a xs
  unfolding sort_stable
  In-sort_stable a [] m = m
  In-sort_stable a (x ∷ xs) m = elim (In-insert a x _ m) [
    | inl i ↦ inl i
    | inr i ↦ inr (In-sort_stable a xs i)
  ]

  pub sort_stable-In : (a : A) (xs : List A) → In a xs → In a (sort_stable less xs)
  unfolding sort_stable
  sort_stable-In a [] m = m
  sort_stable-In a (x ∷ xs) (inl i) = insert-In a x _ (inl i)
  sort_stable-In a (x ∷ xs) (inr m) = insert-In a x _ (inr (sort_stable-In a xs m))

  insert-Distinct :
      (x : A) (xs : List A) → Distinct xs → (In x xs → ⊥) → Distinct (insert less x xs)
  unfolding insert
  insert-Distinct x [] d new = (λ m. m, tt)
  insert-Distinct x (y ∷ ys) d new = elim (Bool-cases (less y x)) [
    | inr n ↦ rw n (new, d)
    | inl e ↦ rw e (
      λ m. elim (In-insert y x ys m) [ inl i ↦ new (inl (sym i)) | inr i ↦ d.0 i ],
      insert-Distinct x ys d.1 (λ m. new (inr m)),
    )
  ]

  pub sort_stable-Distinct : (xs : List A) → Distinct xs → Distinct (sort_stable less xs)
  unfolding sort_stable
  sort_stable-Distinct [] d = tt
  sort_stable-Distinct (x ∷ xs) d =
      insert-Distinct x _ (sort_stable-Distinct xs d.1) (λ m. d.0 (In-sort_stable x xs m))

  module _ (order : IsOrder less) where
    insert-IsSorted : (x : A) (xs : List A) → IsSorted xs → IsSorted (insert less x xs)
    unfolding insert
    insert-IsSorted x [] s = (tt, tt)
    insert-IsSorted x (y ∷ ys) s = elim (Bool-cases (less y x)) [
      | inl e ↦
          rw e (
            All-insert (λ z. less z y ≡ false) x ys (order.asym x y e) s.0,
            insert-IsSorted x ys s.1,
          )
      | inr n ↦ rw n ((n, All-weaken ys (λ z. order.trans x y z n) s.0), s)
    ]

    pub sort_stable-IsSorted : (xs : List A) → IsSorted (sort_stable less xs)
    unfolding sort_stable
    sort_stable-IsSorted [] = tt
    sort_stable-IsSorted (x ∷ xs) = insert-IsSorted x _ (sort_stable-IsSorted xs)
