-- ===== src/SavedData/Calculations.antt =====
-- internal/saveddata/saveddata.go: the saved calculations of the users, over the table
-- saved_calculations.
pub mod Bounded
use albion_market_api.Prelude.{
  ℕ, Bool, true, false, not, ◌&&◌, ◌||◌, Option, none, some, List, [], ◌∷◌, ◌++◌, leb, ltb, ◌==◌,
  length, take, if◌then◌else◌, Result, ok, err, ◌>>=◌, ◌>>◌, fail_if,
}
use albion_market_api.Prelude.Int.{ℤ, pos, pos_part}
use albion_market_api.Int64.{le}
use albion_market_api.Text.{Text, lit, text_eq, is_empty, trim_space}
use albion_market_api.Clock.{Time}
use albion_market_api.Sort.{sort_stable}
use albion_market_api.SavedData.Limits.{
  SavedError, invalid, limit_reached, not_found, conflict, SavedAccess, Storage, is_json_object,
  entitlement_limit, calculation_limit, min_int,
}

-- A row of saved_calculations, with the columns of `Calculation`.
pub record Calculation : Type 0 where
  pub id : Text
  pub user_id : Text
  pub name : Option Text
  pub kind : Text
  pub snapshot : List ℕ
  pub created_at : Time

pub record CalculationInput : Type 0 where
  pub name : Option Text
  pub kind : Text
  pub snapshot : List ℕ

unfoldable pub is_lower : ℕ → Bool
is_lower c = leb b'a' c && leb c b'z'

unfoldable pub is_kind_char : ℕ → Bool
unfolding is_lower
is_kind_char c = is_lower c || (leb b'0' c && leb c b'9') || c == b'_' || c == b'-'

unfoldable pub all_kind : Text → Bool
unfolding is_kind_char
all_kind [] = true
all_kind (c ∷ s) = is_kind_char c && all_kind s

-- `^[a-z][a-z0-9_-]{0,31}$`
unfoldable pub matches_kind : Text → Bool
unfolding is_lower all_kind
matches_kind [] = false
matches_kind (c ∷ s) = is_lower c && all_kind s && leb (length s) 31

abbrev pub is_long_name : Option Text → Bool
is_long_name none = false
is_long_name (some name) = ltb 120 (length (trim_space name))

-- `validateCalculationInput`.
unfoldable pub validate_calculation : Storage → CalculationInput → Result SavedError (Unit {0})
unfolding matches_kind
validate_calculation storage input = do
  fail_if (is_long_name input.name) invalid
  fail_if (not (is_empty (trim_space input.kind)) && not (matches_kind (trim_space input.kind)))
      invalid
  fail_if (not (is_json_object storage input.snapshot)) invalid

-- `where user_id = $1`
unfoldable pub calculations_of : Text → List Calculation → List Calculation
calculations_of user [] = []
calculations_of user (r ∷ rows) =
    let rest = calculations_of user rows in if text_eq r.user_id user then r ∷ rest else rest

-- `order by created_at desc`
abbrev pub saved_before : Calculation → Calculation → Bool
saved_before r s = ltb s.created_at r.created_at

-- The limit of `ListCalculations`, of at most `maxListLimit`.
unfoldable pub list_limit : ℤ → ℤ → ℤ
unfolding min_int
list_limit most requested =
    let wanted = if le requested (pos 0) then min_int most (pos 20) else requested in
    min_int (min_int wanted most) (pos 100)

-- `ListCalculations`.
unfoldable pub list_calculations :
    Result SavedError SavedAccess → ℤ → List Calculation → Result SavedError (List Calculation)
unfolding entitlement_limit list_limit calculations_of
list_calculations access requested rows = access >>= λ a.
    let limit =
      list_limit (entitlement_limit a.entitlements calculation_limit (pos 20)) requested in
    if le limit (pos 0)
    then ok []
    else ok (take (pos_part limit) (sort_stable saved_before (calculations_of a.user_id rows)))

-- The name that is stored: none for one of white space.
abbrev pub stored_name : Option Text → Option Text
stored_name none = none
stored_name (some raw) = let name = trim_space raw in if is_empty name then none else some name

-- The kind that is stored.
abbrev pub stored_kind : Text → Text
stored_kind raw = let kind = trim_space raw in if is_empty kind then lit "craft" else kind

unfoldable pub has_id : Text → List Calculation → Bool
has_id id [] = false
has_id id (r ∷ rows) = text_eq r.id id || has_id id rows

-- `CreateCalculation`: the calculation and the table, or an error and the table as it was. The
-- primary key alone can refuse a row.
unfoldable pub create_calculation :
    Storage
    → Time
    → Text
    → Result SavedError SavedAccess
    → CalculationInput
    → List Calculation
    → Result SavedError (Calculation × List Calculation)
unfolding validate_calculation entitlement_limit calculations_of has_id
create_calculation storage now id access input rows = do
  validate_calculation storage input
  a ← access
  let limit = entitlement_limit a.entitlements calculation_limit (pos 20)
  fail_if (le limit (pos 0)) limit_reached
  fail_if (le limit (pos (length (calculations_of a.user_id rows)))) limit_reached
  fail_if (has_id id rows) conflict
  let row : Calculation = record {
    id = id;
    user_id = a.user_id;
    name = stored_name input.name;
    kind = stored_kind input.kind;
    snapshot = storage.jsonb input.snapshot;
    created_at = now;
  }
  ok (row, rows ++ row ∷ [])

unfoldable pub has_calculation : Text → Text → List Calculation → Bool
has_calculation user id [] = false
has_calculation user id (r ∷ rows) =
    (text_eq r.user_id user && text_eq r.id id) || has_calculation user id rows

unfoldable pub without_calculation : Text → Text → List Calculation → List Calculation
without_calculation user id [] = []
without_calculation user id (r ∷ rows) =
    let rest = without_calculation user id rows in
    if text_eq r.user_id user && text_eq r.id id then rest else r ∷ rest

-- `DeleteCalculation`.
unfoldable pub delete_calculation :
    Text → Result SavedError SavedAccess → List Calculation → Result SavedError (List Calculation)
unfolding has_calculation without_calculation
delete_calculation id access rows = access >>= λ a.
    if has_calculation a.user_id (trim_space id) rows
    then ok (without_calculation a.user_id (trim_space id) rows)
    else err not_found
