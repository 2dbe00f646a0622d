-- ===== src/SavedData/Limits.antt =====
-- What the presets and the calculations of internal/saveddata/saveddata.go share: the errors, the
-- access of the caller (the result of internal/accounts), `entitlementLimit`, `isJSONObject` and
-- `minInt`.
use albion_market_api.Prelude.{
  ℕ, Bool, false, not, ◌||◌, Option, none, some, List, length, ◌==◌, if◌then◌else◌,
}
use albion_market_api.Prelude.Int.{ℤ}
use albion_market_api.Int64.{lt}
use albion_market_api.Text.{Text, lit}
use albion_market_api.Seen.{text_keys}
use albion_market_api.Maps.{lookup}

-- `ErrLimitReached` and its siblings, and any other error.
pub data SavedError : Type 0 where
  limit_reached not_found conflict invalid : SavedError
  saved_failed : Text → SavedError

-- The value of an entitlement, by its dynamic type: a `float64` with what `int` makes of it, an
-- `int`, a `json.Number` with what `Int64` makes of it, or another type.
pub data Entitlement : Type 0 where
  float_value : ℤ → Entitlement
  int_value : ℤ → Entitlement
  number_value : Option ℤ → Entitlement
  other_value : Entitlement

pub record SavedAccess : Type 0 where
  pub user_id : Text
  pub entitlements : List (Text × Entitlement)

-- `json.Valid`; `json.Unmarshal` into a map, which gives none on an error and false for `null`; what
-- a `jsonb` column makes of a text; and `lower(btrim(name))`.
pub record Storage : Type 0 where
  pub json_valid : List ℕ → Bool
  pub json_map : List ℕ → Option Bool
  pub jsonb : List ℕ → List ℕ
  pub name_key : Text → Text

abbrev is_some_true : Option Bool → Bool
is_some_true none = false
is_some_true (some b) = b

-- `isJSONObject`.
unfoldable pub is_json_object : Storage → List ℕ → Bool
is_json_object storage value =
    if length value == 0 || not (storage.json_valid value)
    then false
    else is_some_true (storage.json_map value)

abbrev pub preset_limit : Text
preset_limit = lit "saved_configurations.max"

abbrev pub calculation_limit : Text
calculation_limit = lit "saved_calculations.max"

abbrev number_of : ℤ → Option Entitlement → ℤ
number_of fallback none = fallback
number_of fallback (some (float_value n)) = n
number_of fallback (some (int_value n)) = n
number_of fallback (some (number_value none)) = fallback
number_of fallback (some (number_value (some n))) = n
number_of fallback (some other_value) = fallback

-- `entitlementLimit`.
unfoldable pub entitlement_limit : List (Text × Entitlement) → Text → ℤ → ℤ
unfolding lookup
entitlement_limit entitlements key fallback = number_of fallback (lookup key entitlements)

-- `minInt`.
unfoldable pub min_int : ℤ → ℤ → ℤ
min_int left right = if lt left right then left else right
