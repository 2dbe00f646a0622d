-- ===== src/Prelude/Lists.antt =====
-- Lists measured and indexed by native numbers, and predicates on lists by recursion.
use Prim.Native.Nat.{ℕ, zero, suc, ◌+◌, ◌≤◌, ◌<◌}
use mathlib.Core.Path.{◌≡◌, refl, sym, ap}
use mathlib.Core.Logic.{◌⊎◌, inl, inr}
use mathlib.Core.List.{List, [], ◌∷◌, ◌++◌, map}
use mathlib.Core.Option.{Option, none, some}
use native.Mathlib.Omega.{arith}

module _ {ℓ} {A : Type ℓ} where
  abbrev pub length : List A → ℕ
  length [] = 0
  length (x ∷ xs) = suc (length xs)

  abbrev pub get_elem? : List A → ℕ → Option A
  get_elem? [] i = none
  get_elem? (x ∷ xs) zero = some x
  get_elem? (x ∷ xs) (suc i) = get_elem? xs i

  pub length-append : (xs ys : List A) → length (xs ++ ys) ≡ length xs + length ys
  length-append [] ys = omega arith
  length-append (x ∷ xs) ys = omega (arith, length-append xs ys)

-- `a` stands in the list: one of two shapes, with no truncation. (`⊥` is a type of level 0.)
abbrev pub In : {A : Type 0} → A → List A → Type 0
In a [] = ⊥
In a (x ∷ xs) = (a ≡ x) ⊎ In a xs

module _ {ℓ κ} {A : Type ℓ} where
  abbrev pub All : (A → Type κ) → List A → Type κ
  All P [] = Unit
  All P (x ∷ xs) = P x × All P xs

pub All-of-forall {ℓ κ} : {A : Type ℓ} (P : A → Type κ) → ((a : A) → P a) → (xs : List A) → All P xs
All-of-forall P f [] = tt
All-of-forall P f (x ∷ xs) = (f x, All-of-forall P f xs)

pub All-In {κ} : {A : Type 0} (P : A → Type κ) (xs : List A) → All P xs → (a : A) → In a xs → P a
All-In P [] h a m = absurd m
All-In P (x ∷ xs) h a (inl e) = rw e h.0
All-In P (x ∷ xs) h a (inr m) = All-In P xs h.1 a m

pub All-append {ℓ κ} :
    {A : Type ℓ} (P : A → Type κ) (xs ys : List A) → All P xs → All P ys → All P (xs ++ ys)
All-append P [] ys h k = k
All-append P (x ∷ xs) ys h k = (h.0, All-append P xs ys h.1 k)

-- No element stands twice.
abbrev pub Distinct : {A : Type 0} → List A → Type 0
Distinct [] = Unit
Distinct (x ∷ xs) = (In x xs → ⊥) × Distinct xs

pub length-map {ℓ κ} :
    {A : Type ℓ} {B : Type κ} (xs : List A) (f : A → B) → length (map f xs) ≡ length xs
length-map [] f = refl
length-map (x ∷ xs) f = ap suc (length-map xs f)

pub In-map : {A B : Type 0} (f : A → B) (a : A) (xs : List A) → In a xs → In (f a) (map f xs)
In-map f a [] m = absurd m
In-map f a (x ∷ xs) (inl e) = inl (ap f e)
In-map f a (x ∷ xs) (inr m) = inr (In-map f a xs m)

pub In-snoc : {A : Type 0} (a : A) (xs : List A) (y : A) → In a (xs ++ y ∷ []) → In a xs ⊎ (a ≡ y)
In-snoc a [] y (inl e) = inr e
In-snoc a [] y (inr m) = absurd m
In-snoc a (x ∷ xs) y (inl e) = inl (inl e)
In-snoc a (x ∷ xs) y (inr m) = elim (In-snoc a xs y m) [ inl k ↦ inl (inr k) | inr e ↦ inr e ]

pub Distinct-snoc :
    {A : Type 0} (xs : List A) (y : A) → Distinct xs → (In y xs → ⊥) → Distinct (xs ++ y ∷ [])
Distinct-snoc [] y d n = (λ m. m, tt)
Distinct-snoc (x ∷ xs) y d n = (
  λ m. elim (In-snoc x xs y m) [ inl k ↦ d.0 k | inr e ↦ n (inl (sym e)) ],
  Distinct-snoc xs y d.1 (λ m. n (inr m)),
)

pub In-snoc_old : {A : Type 0} (a y : A) (xs : List A) → In a xs → In a (xs ++ y ∷ [])
In-snoc_old a y [] m = absurd m
In-snoc_old a y (x ∷ xs) (inl e) = inl e
In-snoc_old a y (x ∷ xs) (inr m) = inr (In-snoc_old a y xs m)

pub In-snoc_new : {A : Type 0} (y : A) (xs : List A) → In y (xs ++ y ∷ [])
In-snoc_new y [] = inl refl
In-snoc_new y (x ∷ xs) = inr (In-snoc_new y xs)

pub All-weaken {ℓ} :
    {A : Type ℓ} {P Q : A → Type 0} (xs : List A) → ((x : A) → P x → Q x) → All P xs → All Q xs
All-weaken [] f h = tt
All-weaken (x ∷ xs) f h = (f x h.0, All-weaken xs f h.1)

pub All-map {ℓ κ} :
    {A : Type ℓ} {B : Type κ} (P : A → Type 0) (Q : B → Type 0) (f : A → B) (xs : List A)
    → ((x : A) → P x → Q (f x))
    → All P xs
    → All Q (map f xs)
All-map P Q f [] k h = tt
All-map P Q f (x ∷ xs) k h = (k x h.0, All-map P Q f xs k h.1)

abbrev pub take {ℓ} : {A : Type ℓ} → ℕ → List A → List A
take zero xs = []
take (suc n) [] = []
take (suc n) (x ∷ xs) = x ∷ take n xs

abbrev pub drop {ℓ} : {A : Type ℓ} → ℕ → List A → List A
drop zero xs = xs
drop (suc n) [] = []
drop (suc n) (x ∷ xs) = drop n xs

pub In-append : {A : Type 0} (a : A) (xs ys : List A) → In a (xs ++ ys) → In a xs ⊎ In a ys
In-append a [] ys m = inr m
In-append a (x ∷ xs) ys (inl e) = inl (inl e)
In-append a (x ∷ xs) ys (inr m) = elim (In-append a xs ys m) [ inl i ↦ inl (inr i) | inr i ↦ inr i ]

pub In-append_left : {A : Type 0} (a : A) (xs ys : List A) → In a xs → In a (xs ++ ys)
In-append_left a [] ys m = absurd m
In-append_left a (x ∷ xs) ys (inl e) = inl e
In-append_left a (x ∷ xs) ys (inr m) = inr (In-append_left a xs ys m)

pub In-of-map :
    {A B : Type 0} (f : A → B) (b : B) (xs : List A)
    → In b (map f xs)
    → (a : A) × In a xs × (b ≡ f a)
In-of-map f b [] m = absurd m
In-of-map f b (x ∷ xs) (inl e) = (x, inl refl, e)
In-of-map f b (x ∷ xs) (inr m) = let (a, i, e) = In-of-map f b xs m in (a, inr i, e)

pub All-of-In : {A : Type 0} (P : A → Type 0) (xs : List A) → ((a : A) → In a xs → P a) → All P xs
All-of-In P [] f = tt
All-of-In P (x ∷ xs) f = (f x (inl refl), All-of-In P xs (λ a m. f a (inr m)))

-- From a place inside the list on, and from one behind it.
pub drop-cons :
    {A : Type 0} (xs : List A) (i : ℕ)
    → i < length xs
    → (x : A) × (get_elem? xs i ≡ some x) × (drop i xs ≡ x ∷ drop (suc i) xs)
drop-cons [] i h = absurd (omega (arith, h))
drop-cons (x ∷ xs) zero h = (x, refl, refl)
drop-cons (x ∷ xs) (suc i) h = drop-cons xs i (omega (arith, h))

pub drop_all : {A : Type 0} (xs : List A) (i : ℕ) → length xs ≤ i → drop i xs ≡ []
drop_all [] zero h = refl
drop_all [] (suc i) h = refl
drop_all (x ∷ xs) zero h = absurd (omega (arith, h))
drop_all (x ∷ xs) (suc i) h = drop_all xs i (omega (arith, h))

pub get_elem?-none : {A : Type 0} (xs : List A) (i : ℕ) → get_elem? xs i ≡ none → length xs ≤ i
get_elem?-none [] i h = omega arith
get_elem?-none (x ∷ xs) zero h = cc
get_elem?-none (x ∷ xs) (suc i) h = omega (arith, get_elem?-none xs i h)

pub get_elem?-some :
    {A : Type 0} (xs : List A) (i : ℕ) (x : A) → get_elem? xs i ≡ some x → i < length xs
get_elem?-some [] i x h = cc
get_elem?-some (y ∷ xs) zero x h = omega arith
get_elem?-some (y ∷ xs) (suc i) x h = omega (arith, get_elem?-some xs i x h)
