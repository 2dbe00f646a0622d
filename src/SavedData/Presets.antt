-- ===== src/SavedData/Presets.antt =====
-- The defaults of the presets that `CreatePreset` and `UpdatePreset` clear.
use albion_market_api.Prelude.{◌≡◌, false, not, ◌&&◌, Option, List, ◌∷◌, arith, if◌then◌else◌}
use albion_market_api.Text.{Text, text_eq}
use albion_market_api.Clock.{Time}
use albion_market_api.SavedData.Limits.{Storage}
use albion_market_api.SavedData.{Preset, clear_default, is_kept}

module _ (storage : Storage) where
  module _ (now : Time) (user : Text) (kept : Option Text) where
    abbrev pub cleared_row : Preset → Preset
    cleared_row s =
        if text_eq s.user_id user && not (is_kept kept s.id) && s.is_default
        then record s { is_default = false; updated_at = now }
        else s

    pub clear_default-cons :
        (r : Preset) (rows : List Preset)
        → clear_default now user kept (r ∷ rows) ≡ cleared_row r ∷ clear_default now user kept rows
    unfolding clear_default
    clear_default-cons r rows = ground arith
