-- ===== src/Int64.antt =====
-- Go's `int64` and `int`: integers that wrap around at 2^63, over the integers.
use albion_market_api.Prelude.{
  ℕ, suc, ◌+◌, ◌-◌, ◌*◌, ◌/◌, ◌%◌, ◌^◌, ◌<◌, ◌≡◌, Bool, arith, ltb, leb, if◌then◌else◌,
}
use albion_market_api.Prelude.Int.{ℤ, pos, negsuc, pos_part, neg_part, ltb_ℤ, ◌+ℤ◌, ◌-ℤ◌, ◌*ℤ◌}

-- The integer of 64 bits with the same residue.
unfoldable pub wrap64 : ℤ → ℤ
wrap64 (pos n) = let m = n % 2 ^ 64 in if ltb m (2 ^ 63) then pos m else negsuc (2 ^ 64 - 1 - m)
wrap64 (negsuc n) = let m = n % 2 ^ 64 in if ltb m (2 ^ 63) then negsuc m else pos (2 ^ 64 - 1 - m)

unfoldable pub add64 : ℤ → ℤ → ℤ
unfolding wrap64 ◌+ℤ◌
add64 a b = wrap64 (a +ℤ b)

unfoldable pub sub64 : ℤ → ℤ → ℤ
unfolding wrap64 ◌-ℤ◌
sub64 a b = wrap64 (a -ℤ b)

unfoldable pub mul64 : ℤ → ℤ → ℤ
unfolding wrap64 ◌*ℤ◌
mul64 a b = wrap64 (a *ℤ b)

-- `a / b` for `0 < b`: Go truncates toward zero.
unfoldable pub div64 : ℤ → ℕ → ℤ
div64 (pos n) d = pos (n / d)
div64 (negsuc n) d = let q = suc n / d in if ltb 0 q then negsuc (q - 1) else pos 0

-- `a < b` and `a <= b`.
abbrev pub lt : ℤ → ℤ → Bool
lt a b = ltb_ℤ a b

abbrev pub le : ℤ → ℤ → Bool
le a b = leb (pos_part a + neg_part b) (pos_part b + neg_part a)

-- Nothing wraps below 2^63.
pub add64_pos : (a b : ℕ) → a + b < 2 ^ 63 → add64 (pos a) (pos b) ≡ pos (a + b)
unfolding add64
add64_pos a b h = ground arith

pub mul64_pos : (a b : ℕ) → a * b < 2 ^ 63 → mul64 (pos a) (pos b) ≡ pos (a * b)
unfolding mul64
mul64_pos a b h = ground arith
