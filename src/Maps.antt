-- ===== src/Maps.antt =====
-- Go maps as association lists, the latest entry first.
use albion_market_api.Prelude.{
  ◌+◌, ◌≡◌, refl, ◌↔◌, Bool, true, Option, none, some, List, [], ◌∷◌, ◌==◌, if◌then◌else◌, arith,
}
use albion_market_api.Prelude.Int.{ℤ, pos_part, neg_part, eq_of_parts}
use albion_market_api.Seen.{Eq}

-- `==` on `int16`.
unfoldable pub beq_ℤ : ℤ → ℤ → Bool
beq_ℤ a b = pos_part a + neg_part b == pos_part b + neg_part a

pub beq_ℤ_iff : (a b : ℤ) → (beq_ℤ a b ≡ true) ↔ (a ≡ b)
unfolding beq_ℤ
beq_ℤ_iff a b = (λ h. eq_of_parts a b (ground arith), λ e. ground (arith, e))

instance abbrev pub location_keys : Eq ℤ
location_keys = record { beq = beq_ℤ; beq_iff = beq_ℤ_iff }

-- `m[k] = v`
abbrev pub put : {K V : Type 0} → K → V → List (K × V) → List (K × V)
put k v m = (k, v) ∷ m

module _ {K V : Type 0} ⦃e : Eq K⦄ where
  -- `v, ok := m[k]`
  unfoldable pub lookup : K → List (K × V) → Option V
  lookup k [] = none
  lookup k (entry ∷ m) = if e.beq k entry.0 then some entry.1 else lookup k m

  pub lookup-put_same : (k : K) (v : V) (m : List (K × V)) → lookup k (put k v m) ≡ some v
  unfolding lookup
  lookup-put_same k v m = rw ((e.beq_iff k k).1 refl) refl
