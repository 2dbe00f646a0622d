-- ===== src/SavedData.antt =====
-- internal/saveddata/saveddata.go: the presets of the users, over the table saved_presets.
pub mod Limits
pub mod Presets
pub mod Created
pub mod Calculations
use albion_market_api.Prelude.{
  ℕ, Bool, true, false, not, ◌&&◌, ◌||◌, Option, none, some, List, [], ◌∷◌, ◌++◌, ltb, length,
  if◌then◌else◌, Result, ok, err, ◌>>=◌, ◌>>◌, fail_if,
}
use albion_market_api.Prelude.Int.{ℤ, pos}
use albion_market_api.Int64.{le}
use albion_market_api.Text.{Text, lit, text_eq, is_empty, trim_space}
use albion_market_api.Clock.{Time}
use albion_market_api.Sort.{sort_stable}
use albion_market_api.SavedData.Limits.{
  SavedError, invalid, limit_reached, not_found, conflict, SavedAccess, Storage, is_json_object,
  entitlement_limit, preset_limit,
}

-- A row of saved_presets, with the columns of `Preset`.
pub record Preset : Type 0 where
  pub id : Text
  pub user_id : Text
  pub name : Text
  pub payload : List ℕ
  pub is_default : Bool
  pub created_at : Time
  pub updated_at : Time

pub record PresetInput : Type 0 where
  pub name : Text
  pub payload : List ℕ
  pub is_default : Bool

-- `where user_id = $1`
unfoldable pub presets_of : Text → List Preset → List Preset
presets_of user [] = []
presets_of user (r ∷ rows) =
    let rest = presets_of user rows in if text_eq r.user_id user then r ∷ rest else rest

-- `order by is_default desc, updated_at desc, created_at desc`
unfoldable pub preset_before : Preset → Preset → Bool
preset_before r s =
    (r.is_default && not s.is_default)
    || (not (s.is_default && not r.is_default)
        && (ltb s.updated_at r.updated_at
            || (not (ltb r.updated_at s.updated_at) && ltb s.created_at r.created_at)))

-- `ListPresets`.
unfoldable pub list_presets :
    Result SavedError SavedAccess → List Preset → Result SavedError (List Preset)
unfolding presets_of
list_presets access rows =
    access >>= λ a. ok (sort_stable preset_before (presets_of a.user_id rows))

-- `select count(*)`
unfoldable pub count_presets : Text → List Preset → ℕ
unfolding presets_of
count_presets user rows = length (presets_of user rows)

-- `set is_default = false, updated_at = now() where user_id = $1 and is_default`, but for the preset
-- that an update names.
abbrev pub is_kept : Option Text → Text → Bool
is_kept none id = false
is_kept (some kept) id = text_eq id kept

unfoldable pub clear_default : Time → Text → Option Text → List Preset → List Preset
clear_default now user kept [] = []
clear_default now user kept (r ∷ rows) =
    let rest = clear_default now user kept rows in
    if text_eq r.user_id user && not (is_kept kept r.id) && r.is_default
    then record r { is_default = false; updated_at = now } ∷ rest
    else r ∷ rest

module _ (storage : Storage) where
  -- The primary key and the two unique indexes: two rows that cannot stand beside each other.
  unfoldable pub clash : Preset → Preset → Bool
  clash r s =
      text_eq r.id s.id
      || (text_eq r.user_id s.user_id
          && (text_eq (storage.name_key r.name) (storage.name_key s.name)
              || (r.is_default && s.is_default)))

  unfoldable pub any_clash : Preset → List Preset → Bool
  unfolding clash
  any_clash r [] = false
  any_clash r (s ∷ rows) = clash r s || any_clash r rows

  -- `validatePresetInput`.
  unfoldable pub validate_preset : PresetInput → Result SavedError (Unit {0})
  unfolding is_json_object
  validate_preset input =
      let name = trim_space input.name in
      fail_if (is_empty name || ltb 80 (length name) || not (is_json_object storage input.payload))
        invalid

  -- The row that `insert` adds.
  abbrev pub new_preset : Time → Text → Text → PresetInput → Preset
  new_preset now id user input = record {
    id = id;
    user_id = user;
    name = trim_space input.name;
    payload = storage.jsonb input.payload;
    is_default = input.is_default;
    created_at = now;
    updated_at = now;
  }

  -- `insert into saved_presets`, which a unique index refuses (23505, `ErrConflict`).
  unfoldable pub insert_preset : Preset → List Preset → Result SavedError (List Preset)
  unfolding any_clash
  insert_preset r rows = if any_clash r rows then err conflict else ok (rows ++ r ∷ [])

  -- `CreatePreset`: the preset and the table, or an error and the table as it was. `answered` is what
  -- the database answers to the statements but for the unique indexes: that a value does not fit its
  -- column, that the connection fails, or that all is well.
  unfoldable pub create_preset :
      Time
      → Text
      → Result SavedError SavedAccess
      → Result SavedError (Unit {0})
      → PresetInput
      → List Preset
      → Result SavedError (Preset × List Preset)
  unfolding validate_preset entitlement_limit count_presets clear_default insert_preset
  create_preset now id access answered input rows = do
    validate_preset input
    a ← access
    let limit = entitlement_limit a.entitlements preset_limit (pos 3)
    fail_if (le limit (pos 0)) limit_reached
    fail_if (le limit (pos (count_presets a.user_id rows))) limit_reached
    let cleared = if input.is_default then clear_default now a.user_id none rows else rows
    let preset = new_preset now id a.user_id input
    answered
    table ← insert_preset preset cleared
    ok (preset, table)

  -- `update saved_presets ... where user_id = $1 and id = $2`: the row that it changes.
  abbrev pub changed_preset : Time → PresetInput → Preset → Preset
  changed_preset now input r = record r {
    name = trim_space input.name;
    payload = storage.jsonb input.payload;
    is_default = input.is_default;
    updated_at = now;
  }

  abbrev pub is_preset : Text → Text → Preset → Bool
  is_preset user id r = text_eq r.user_id user && text_eq r.id id

  unfoldable pub find_preset : Text → Text → List Preset → Option Preset
  find_preset user id [] = none
  find_preset user id (r ∷ rows) = if is_preset user id r then some r else find_preset user id rows

  unfoldable pub without_preset : Text → Text → List Preset → List Preset
  without_preset user id [] = []
  without_preset user id (r ∷ rows) =
      let rest = without_preset user id rows in if is_preset user id r then rest else r ∷ rest

  -- The order of the rows means nothing: the changed one stands last.
  unfoldable pub replace_preset :
      Time → Text → Text → PresetInput → List Preset → Result SavedError (Preset × List Preset)
  unfolding find_preset without_preset insert_preset
  replace_preset now user id input rows = elim (find_preset user id rows) [
    | none ↦ err not_found
    | some r ↦
        let changed = changed_preset now input r in
        insert_preset changed (without_preset user id rows) >>= λ table. ok (changed, table)
  ]

  -- `UpdatePreset`, with `answered` as above.
  unfoldable pub update_preset :
      Time
      → Text
      → Result SavedError SavedAccess
      → Result SavedError (Unit {0})
      → PresetInput
      → List Preset
      → Result SavedError (Preset × List Preset)
  unfolding validate_preset clear_default replace_preset
  update_preset now id access answered input rows = do
    fail_if (is_empty (trim_space id)) invalid
    validate_preset input
    a ← access
    let cleared = if input.is_default then clear_default now a.user_id (some id) rows else rows
    answered
    replace_preset now a.user_id id input cleared

  -- `DeletePreset`.
  unfoldable pub delete_preset :
      Text → Result SavedError SavedAccess → List Preset → Result SavedError (List Preset)
  unfolding find_preset without_preset
  delete_preset id access rows = access >>= λ a. elim (find_preset a.user_id (trim_space id) rows) [
    | none ↦ err not_found
    | some r ↦ ok (without_preset a.user_id (trim_space id) rows)
  ]
