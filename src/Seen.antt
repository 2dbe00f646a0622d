-- ===== src/Seen.antt =====
-- The loops of the sources that walk a slice with a `seen` map: check each element, skip it if its
-- key was seen, append it otherwise. The same loop stands in the price query, the history query and
-- the filters of the black market; here it is written once, over the check and the key.
pub mod Passes
use albion_market_api.Prelude.{
  ℕ, suc, ◌≡◌, ◌↔◌, Bool, true, false, ◌||◌, List, [], ◌∷◌, Result, ok, err, ◌>>=◌, ==_iff, ◌==◌,
  if◌then◌else◌,
}
use albion_market_api.Text.{Text, text_eq}
use albion_market_api.Text.Equality.{text_eq_iff}

-- `==` on a type of map keys.
pub record Eq (K : Type 0) : Type 0 where
  pub beq : K → K → Bool
  pub beq_iff : (a b : K) → (beq a b ≡ true) ↔ (a ≡ b)

instance abbrev pub text_keys : Eq Text
text_keys = record { beq = text_eq; beq_iff = text_eq_iff }

instance abbrev pub number_keys : Eq ℕ
number_keys = record { beq = ◌==◌; beq_iff = ==_iff }

module _ {K : Type 0} ⦃e : Eq K⦄ where
  -- `_, exists := seen[key]`, the map being the list of the keys put in.
  unfoldable pub contains : K → List K → Bool
  contains k [] = false
  contains k (j ∷ js) = e.beq k j || contains k js

module _ {E A B K : Type 0} ⦃e : Eq K⦄ (check : ℕ → A → Result E B) (key : B → K) where
  -- The loop from index `i` on: what it appends, or the first error.
  unfoldable pub collect : ℕ → List K → List A → Result E (List B)
  collect i seen [] = ok []
  collect i seen (a ∷ items) = check i a >>= λ b.
      let dup = contains (key b) seen in
      collect (suc i) (if dup then seen else key b ∷ seen) items >>= λ rest.
      ok (if dup then rest else b ∷ rest)
