-- ===== src/Tests/Saved.antt =====
-- The saved presets and calculations at sample calls.
use albion_market_api.Prelude.{
  suc, ◌≤◌, ◌≡◌, refl, true, none, some, List, [], ◌∷◌, length, Result, ok, err,
}
use albion_market_api.Prelude.Int.{pos, pos_part, ◌≤ℤ◌}
use albion_market_api.Text.{lit, is_empty, trim_space}
use albion_market_api.Sort.{sort_stable}
use albion_market_api.SavedData.Limits.{
  SavedError, SavedAccess, Storage, is_json_object, float_value, entitlement_limit, preset_limit,
  calculation_limit,
}
use albion_market_api.SavedData.{
  Preset, PresetInput, count_presets, new_preset, validate_preset, create_preset,
}
use albion_market_api.SavedData.Created.{create_preset-free, create_preset-count}
use albion_market_api.SavedData.Calculations.{
  Calculation, CalculationInput, create_calculation, delete_calculation, list_calculations,
}
use albion_market_api.SavedData.Calculations.Bounded.{
  list_calculations-length, delete_calculation-create,
}
use albion_market_api.Tests.{day_one, day_two}

abbrev storage : Storage
storage = record {
  json_valid = λ v. true;
  json_map = λ v. some true;
  jsonb = λ v. v;
  name_key = λ s. s;
}

abbrev user : SavedAccess
user = record { user_id = lit "u"; entitlements = (preset_limit, float_value (pos 2)) ∷ [] }

abbrev input : PresetInput
input = record { name = lit " bags"; payload = b'{' ∷ b'}' ∷ []; is_default = true }

abbrev input_two : PresetInput
input_two = record { name = lit "capes"; payload = b'{' ∷ b'}' ∷ []; is_default = true }

abbrev one_row : List Preset
one_row = new_preset storage day_one (lit "1") (lit "u") input ∷ []

abbrev new_row : Preset
new_row = new_preset storage day_two (lit "11") (lit "u") input_two

abbrev given : Result SavedError (Preset × List Preset) → Preset × List Preset
given (ok a) = a
given (err e) = (new_row, [])

create_preset-free_example :
    (table : List Preset) × (create_preset storage day_two
        (lit "11")
        (ok user)
        (ok tt)
        input_two
        one_row
      ≡ ok (new_row, table))
unfolding validate_preset is_empty trim_space entitlement_limit count_presets
create_preset-free_example =
    create_preset-free storage day_two (lit "11") user input_two one_row refl refl refl
      ((refl, refl), tt)

create_preset-count_example :
    (count_presets
        (lit "u")
        (given (create_preset storage day_two (lit "11") (ok user) (ok tt) input_two one_row)).1
      ≡ suc (count_presets (lit "u") one_row))
    × (pos (
          count_presets
            (lit "u")
            (given
              (create_preset storage day_two (lit "11") (ok user) (ok tt) input_two one_row)).1)
        ≤ℤ entitlement_limit user.entitlements preset_limit (pos 3))
unfolding create_preset is_empty trim_space
create_preset-count_example =
    create_preset-count storage day_two (lit "11") user (ok tt) input_two one_row
      (given (create_preset storage day_two (lit "11") (ok user) (ok tt) input_two one_row)) refl

abbrev calculation : CalculationInput
calculation = record { name = none; kind = []; snapshot = b'{' ∷ b'}' ∷ [] }

abbrev saved : Result SavedError (Calculation × List Calculation) → Calculation × List Calculation
saved (ok a) = a
saved (err e) =
    (record { id = []; user_id = []; name = none; kind = []; snapshot = []; created_at = 0 }, [])

abbrev created : Calculation × List Calculation
created = saved (create_calculation storage day_one (lit "1") (ok user) calculation [])

list_calculations-length_example :
    (length created.1 ≤ 100)
    × (length created.1 ≤ pos_part (entitlement_limit user.entitlements calculation_limit (pos 20)))
unfolding create_calculation list_calculations is_empty sort_stable trim_space is_json_object
list_calculations-length_example = list_calculations-length user (pos 0) created.1 created.1 refl

delete_calculation-create_example : delete_calculation (lit "1") (ok user) created.1 ≡ ok []
unfolding create_calculation is_empty trim_space is_json_object
delete_calculation-create_example =
    delete_calculation-create storage day_one (lit "1") user calculation [] created refl refl
