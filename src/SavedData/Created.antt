-- ===== src/SavedData/Created.antt =====
-- When a preset is created, and how many a user has then.
use albion_market_api.Prelude.{
  ℕ, suc, ◌≡◌, ◌∙◌, refl, ap, inl, inr, Bool, true, false, not, ◌&&◌, Option, none, List, [], ◌∷◌,
  ◌++◌, All, arith, if◌then◌else◌, Result, ok, >>=-eq-ok, fail_if, fail_if-eq-ok, Bool-cases, if-eq,
}
use albion_market_api.Prelude.Int.{ℤ, pos, ◌≤ℤ◌}
use albion_market_api.Int64.{le}
use albion_market_api.Text.{Text, text_eq, trim_space}
use albion_market_api.Text.Equality.{text_eq_sym, text_eq_refl}
use albion_market_api.Clock.{Time}
use albion_market_api.SavedData.Limits.{
  SavedError, SavedAccess, Storage, entitlement_limit, preset_limit, limit_reached,
}
use albion_market_api.SavedData.{
  Preset, PresetInput, presets_of, count_presets, clear_default, is_kept, clash, any_clash,
  validate_preset, new_preset, insert_preset, create_preset,
}
use albion_market_api.SavedData.Presets.{cleared_row, clear_default-cons}

-- What holds in each branch.
of-if :
    {A : Type 0} (P : A → Type 0) (b : Bool) (x y : A)
    → (b ≡ true → P x)
    → (b ≡ false → P y)
    → P (if b then x else y)
of-if P true x y f g = f refl
of-if P false x y f g = g refl

module _ (storage : Storage) where
  count-cons :
      (user : Text) (r : Preset) (rows : List Preset)
      → count_presets user (r ∷ rows) ≡ (
          if text_eq r.user_id user then suc (count_presets user rows) else count_presets user rows)
  unfolding count_presets presets_of
  count-cons user r rows = ground arith

  count-clear_default :
      (now : Time) (user : Text) (kept : Option Text) (u : Text) (rows : List Preset)
      → count_presets u (clear_default now user kept rows) ≡ count_presets u rows
  unfolding clear_default
  count-clear_default now user kept u [] = refl
  count-clear_default now user kept u (r ∷ rows) =
      elim (Bool-cases (text_eq r.user_id user && not (is_kept kept r.id) && r.is_default)) [
        | inl e ↦
            rw
              (
                e,
                count-cons u (record r { is_default = false; updated_at = now })
                    (clear_default now user kept rows),
                count-cons u r rows,
                count-clear_default now user kept u rows,
              )
              refl
        | inr n ↦
            rw
              (
                n,
                count-cons u r (clear_default now user kept rows),
                count-cons u r rows,
                count-clear_default now user kept u rows,
              )
              refl
      ]

  count-snoc :
      (user : Text) (r : Preset) (rows : List Preset)
      → text_eq r.user_id user ≡ true
      → count_presets user (rows ++ r ∷ []) ≡ suc (count_presets user rows)
  count-snoc user r [] h = rw (count-cons user r [], h) refl
  count-snoc user r (s ∷ rows) h =
      rw (count-cons user s (rows ++ r ∷ []), count-cons user s rows, count-snoc user r rows h)
        (ground arith)

  under : (limit : ℤ) (n : ℕ) → le limit (pos n) ≡ false → pos (suc n) ≤ℤ limit
  under limit n h = ground (arith, h)

  -- The name and the identity of a new preset are free.
  abbrev pub IsFree : Text → Text → Text → List Preset → Type 0
  IsFree id user name rows =
      All
        (λ s.
          (text_eq id s.id ≡ false)
          × ((text_eq user s.user_id && text_eq (storage.name_key name) (storage.name_key s.name))
              ≡ false))
        rows

  module _ (now : Time) (id user : Text) (input : PresetInput) where
    abbrev made : Preset
    made = new_preset storage now id user input

    abbrev cleared : List Preset → List Preset
    cleared rows = if input.is_default then clear_default now user none rows else rows

    free-clash :
        (s : Preset)
        → text_eq id s.id ≡ false
        → (text_eq user s.user_id && text_eq (storage.name_key made.name) (storage.name_key s.name))
          ≡ false
        → input.is_default ≡ true
        → clash storage made (cleared_row storage now user none s) ≡ false
    unfolding clash
    free-clash s h k d = elim (Bool-cases (text_eq s.user_id user)) [
      | inr other ↦ rw other (ground (arith, text_eq_sym user s.user_id, h))
      | inl own ↦ elim (Bool-cases s.is_default) [
        | inl e ↦ rw (own, e) (ground (arith, h, k))
        | inr n ↦ rw (own, n) (ground (arith, h, k))
      ]
    ]

    free-cleared :
        (rows : List Preset)
        → input.is_default ≡ true
        → IsFree id user (trim_space input.name) rows
        → any_clash storage made (clear_default now user none rows) ≡ false
    unfolding any_clash clear_default
    free-cleared [] d free = refl
    free-cleared (s ∷ rows) d free =
        rw (clear_default-cons storage now user none s rows)
          (ground (arith, free-clash s free.0.0 free.0.1 d, free-cleared rows d free.1))

    free-kept :
        (rows : List Preset)
        → input.is_default ≡ false
        → IsFree id user (trim_space input.name) rows
        → any_clash storage made rows ≡ false
    unfolding any_clash clash
    free-kept [] n free = refl
    free-kept (s ∷ rows) n free = ground (arith, free.0.0, free.0.1, n, free-kept rows n free.1)

    free-any_clash :
        (rows : List Preset)
        → IsFree id user (trim_space input.name) rows
        → any_clash storage made (cleared rows) ≡ false
    free-any_clash rows free =
        of-if (λ table. any_clash storage made table ≡ false) input.is_default _ rows
          (λ d. free-cleared rows d free) (λ n. free-kept rows n free)

    count-cleared :
        (rows : List Preset) → count_presets user (cleared rows) ≡ count_presets user rows
    count-cleared rows = elim (Bool-cases input.is_default) [
      | inl d ↦ rw d (count-clear_default now user none user rows)
      | inr n ↦ rw n refl
    ]

  -- Where the database takes the values and no statement fails, a preset is created whenever its input
  -- is valid, the limit of the user's plan is not reached, its identity is new and its trimmed name is
  -- not the name of another preset of the user; a default that the user has already is no obstacle.
  pub create_preset-free :
      (now : Time) (id : Text) (a : SavedAccess) (input : PresetInput) (rows : List Preset)
      → validate_preset storage input ≡ ok tt
      → le (entitlement_limit a.entitlements preset_limit (pos 3)) (pos 0) ≡ false
      → le
          (entitlement_limit a.entitlements preset_limit (pos 3))
          (pos (count_presets a.user_id rows))
        ≡ false
      → IsFree id a.user_id (trim_space input.name) rows
      → (table : List Preset) × (create_preset storage now id (ok a) (ok tt) input rows
          ≡ ok (new_preset storage now id a.user_id input, table))
  unfolding create_preset insert_preset
  create_preset-free now id a input rows valid some_allowed room free =
      let free_there = free-any_clash now id a.user_id input rows free in
      (
        cleared now id a.user_id input rows ++ made now id a.user_id input ∷ [],
        rw (valid, some_allowed, room, free_there) refl,
      )

  -- When a preset has been created the user has one more than before, and no more than the limit of
  -- the plan.
  pub create_preset-count :
      (now : Time) (id : Text) (a : SavedAccess) (answered : Result SavedError (Unit {0}))
      (input : PresetInput) (rows : List Preset) (answer : Preset × List Preset)
      → create_preset storage now id (ok a) answered input rows ≡ ok answer
      → (count_presets a.user_id answer.1 ≡ suc (count_presets a.user_id rows))
        × (pos (count_presets a.user_id answer.1)
            ≤ℤ entitlement_limit a.entitlements preset_limit (pos 3))
  unfolding create_preset insert_preset
  create_preset-count now id a answered input rows answer h =
      let limit = entitlement_limit a.entitlements preset_limit (pos 3) in
      let (x₁, h₁, k₁) = >>=-eq-ok (validate_preset storage input) _ h in
      let (x₃, h₃, k₃) = >>=-eq-ok (fail_if (le limit (pos 0)) limit_reached) _ k₁ in
      let (x₄, h₄, k₄) =
        >>=-eq-ok (fail_if (le limit (pos (count_presets a.user_id rows))) limit_reached) _ k₃ in
      let preset = made now id a.user_id input in
      let before = cleared now id a.user_id input rows in
      let (x₅, h₆, k₆) = >>=-eq-ok answered _ k₄ in
      let (table, h₅, k₅) = >>=-eq-ok (insert_preset storage preset before) _ k₆ in
      let room = fail_if-eq-ok (le limit (pos (count_presets a.user_id rows))) _ h₄ in
      elim (if-eq (any_clash storage preset before) _ _ h₅) [
        | inl (e, k) ↦ cc
        | inr (n, k) ↦
            let is : answer.1 ≡ before ++ preset ∷ [] = cc in
            let more : count_presets a.user_id answer.1 ≡ suc (count_presets a.user_id rows) =
              rw is (
                count-snoc a.user_id preset before (text_eq_refl a.user_id)
                ∙ ap suc (count-cleared now id a.user_id input rows)) in
            (more, rw more (under limit (count_presets a.user_id rows) room))
      ]
