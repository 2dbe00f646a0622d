-- ===== src/SavedData/Calculations/Bounded.antt =====
-- The list of calculations is bounded, and a calculation that was created can be deleted again.
use albion_market_api.Prelude.{
  ℕ, zero, suc, ◌≤◌, ◌≡◌, refl, inl, inr, true, false, List, [], ◌∷◌, ◌++◌, arith, length, take, ok,
  >>=-eq-ok, fail_if, fail_if-eq-ok, if-eq,
}
use albion_market_api.Prelude.Int.{ℤ, pos, pos_part}
use albion_market_api.Int64.{le}
use albion_market_api.Text.{Text, trim_space}
use albion_market_api.Text.Equality.{text_eq_iff}
use albion_market_api.Clock.{Time}
use albion_market_api.Sort.{sort_stable}
use albion_market_api.SavedData.Limits.{
  SavedAccess, Storage, entitlement_limit, calculation_limit, limit_reached, conflict, min_int,
}
use albion_market_api.SavedData.Calculations.{
  Calculation, CalculationInput, calculations_of, saved_before, list_limit, list_calculations,
  validate_calculation, create_calculation, delete_calculation, has_id, has_calculation,
  without_calculation,
}

list_limit-bounds :
    (most requested : ℤ)
    → (pos_part (list_limit most requested) ≤ 100)
      × (pos_part (list_limit most requested) ≤ pos_part most)
unfolding list_limit min_int
list_limit-bounds most requested = ground arith

length-take : {A : Type 0} (n : ℕ) (xs : List A) → length (take n xs) ≤ n
length-take zero xs = omega arith
length-take (suc n) [] = omega arith
length-take (suc n) (x ∷ xs) = omega (arith, length-take n xs)

-- A list of calculations has at most 100, and at most as many as the user's plan allows to save.
pub list_calculations-length :
    (a : SavedAccess) (requested : ℤ) (rows found : List Calculation)
    → list_calculations (ok a) requested rows ≡ ok found
    → (length found ≤ 100)
      × (length found ≤ pos_part (entitlement_limit a.entitlements calculation_limit (pos 20)))
unfolding list_calculations
list_calculations-length a requested rows found h =
    let most = entitlement_limit a.entitlements calculation_limit (pos 20) in
    let limit = list_limit most requested in
    let (low, high) = list_limit-bounds most requested in
    elim (if-eq (le limit (pos 0)) _ _ h) [
      | inl (e, k) ↦ let is : found ≡ [] = cc in rw is (omega arith, omega arith)
      | inr (n, k) ↦
          let sorted = sort_stable saved_before (calculations_of a.user_id rows) in
          let is : found ≡ take (pos_part limit) sorted = cc in
          let short = length-take (pos_part limit) sorted in
          rw is (omega (arith, short, low), omega (arith, short, high))
    ]

module _ (user id : Text) where
  absent-calculation :
      (rows : List Calculation) → has_id id rows ≡ false → without_calculation user id rows ≡ rows
  unfolding has_id without_calculation
  absent-calculation [] h = refl
  absent-calculation (r ∷ rows) h = ground (arith, h, absent-calculation rows)

  created-deleted :
      (rows : List Calculation) (row : Calculation)
      → row.user_id ≡ user
      → row.id ≡ id
      → has_id id rows ≡ false
      → (has_calculation user id (rows ++ row ∷ []) ≡ true)
        × (without_calculation user id (rows ++ row ∷ []) ≡ rows)
  unfolding has_id has_calculation without_calculation
  created-deleted [] row own named h =
      let e = (text_eq_iff row.user_id user).1 own in
      let f = (text_eq_iff row.id id).1 named in (rw (e, f) refl, rw (e, f) refl)
  created-deleted (r ∷ rows) row own named h =
      let rest = created-deleted rows row own named (ground (arith, h)) in
      (ground (arith, rest.0), ground (arith, h, rest.1))

-- A calculation that has been created, under an identity without white space around it, can be
-- deleted again, and the deletion leaves the table as it was before.
pub delete_calculation-create :
    (storage : Storage) (now : Time) (id : Text) (a : SavedAccess) (input : CalculationInput)
    (rows : List Calculation) (answer : Calculation × List Calculation)
    → create_calculation storage now id (ok a) input rows ≡ ok answer
    → trim_space id ≡ id
    → delete_calculation id (ok a) answer.1 ≡ ok rows
unfolding create_calculation delete_calculation
delete_calculation-create storage now id a input rows answer h trimmed =
    let limit = entitlement_limit a.entitlements calculation_limit (pos 20) in
    let (x₁, h₁, k₁) = >>=-eq-ok (validate_calculation storage input) _ h in
    let (x₂, h₂, k₂) = >>=-eq-ok (fail_if (le limit (pos 0)) limit_reached) _ k₁ in
    let (x₃, h₃, k₃) =
      >>=-eq-ok (fail_if (le limit (pos (length (calculations_of a.user_id rows)))) limit_reached) _
        k₂ in
    let (x₄, h₄, k₄) = >>=-eq-ok (fail_if (has_id id rows) conflict) _ k₃ in
    let fresh = fail_if-eq-ok (has_id id rows) conflict h₄ in
    let is : answer.1 ≡ rows ++ answer.0 ∷ [] = cc in
    let own : answer.0.user_id ≡ a.user_id = cc in
    let named : answer.0.id ≡ id = cc in
    let (there, gone) = created-deleted a.user_id id rows answer.0 own named fresh in
    rw (trimmed, is, there, gone) refl
