-- ===== src/Text/Equality.antt =====
-- Laws of the equality test and of the order of texts.
use albion_market_api.Prelude.{◌≡◌, refl, ◌↔◌, true, false, [], ◌∷◌, arith}
use albion_market_api.Text.{Text, text_eq, text_lt}

pub text_eq_iff : (s t : Text) → (text_eq s t ≡ true) ↔ (s ≡ t)
text_eq_iff [] [] = (λ h. refl, λ h. refl)
text_eq_iff [] (d ∷ t) = (λ h. cc, λ h. cc)
text_eq_iff (c ∷ s) [] = (λ h. cc, λ h. cc)
text_eq_iff (c ∷ s) (d ∷ t) =
    (λ h. ground (arith, text_eq_iff s t), λ h. ground (arith, text_eq_iff s t))

pub text_eq_refl : (s : Text) → text_eq s s ≡ true
text_eq_refl s = (text_eq_iff s s).1 refl

pub text_eq_sym : (s t : Text) → text_eq s t ≡ text_eq t s
text_eq_sym s t = ground (arith, text_eq_iff s t, text_eq_iff t s)

-- The order of texts is strict and total.
pub text_lt_irrefl : (s : Text) → text_lt s s ≡ false
text_lt_irrefl [] = refl
text_lt_irrefl (c ∷ s) = ground (arith, text_lt_irrefl s)

pub text_lt_asym : (s t : Text) → text_lt s t ≡ true → text_lt t s ≡ false
text_lt_asym s [] h = cc
text_lt_asym [] (d ∷ t) h = refl
text_lt_asym (c ∷ s) (d ∷ t) h = ground (arith, text_lt_asym s t)

pub text_lt_total : (s t : Text) → text_lt s t ≡ false → text_lt t s ≡ false → text_eq s t ≡ true
text_lt_total [] [] h k = refl
text_lt_total (c ∷ s) [] h k = cc
text_lt_total [] (d ∷ t) h k = cc
text_lt_total (c ∷ s) (d ∷ t) h k = ground (arith, text_lt_total s t)

pub text_lt_trans_false :
    (s t u : Text) → text_lt t s ≡ false → text_lt u t ≡ false → text_lt u s ≡ false
text_lt_trans_false [] [] [] h k = refl
text_lt_trans_false [] [] (e ∷ u) h k = refl
text_lt_trans_false [] (d ∷ t) [] h k = refl
text_lt_trans_false [] (d ∷ t) (e ∷ u) h k = refl
text_lt_trans_false (c ∷ s) [] u h k = cc
text_lt_trans_false (c ∷ s) (d ∷ t) [] h k = cc
text_lt_trans_false (c ∷ s) (d ∷ t) (e ∷ u) h k =
    ground (arith, text_lt_trans_false s t u, text_lt_total s t, text_lt_total t u)
