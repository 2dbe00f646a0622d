-- ===== src/Clock.antt =====
-- `time.Time` and `time.Duration`. An instant counts nanoseconds in UTC from the start of the year
-- -1, before which no text that `time.Parse` accepts lies; so every instant is a natural number.
-- The zero time of Go is the start of the year 1, 731 days later. A duration is a count of
-- nanoseconds; where the sources let one be negative it is a `ℤ`.
use albion_market_api.Prelude.{ℕ, ◌*◌, ◌/◌, Option, none, some, ltb, if◌then◌else◌}

abbrev pub Time : Type 0
Time = ℕ

abbrev pub second : ℕ
second = 1_000_000_000

abbrev pub minute : ℕ
minute = 60 * second

abbrev pub hour : ℕ
hour = 60 * minute

-- `time.Time{}`.
abbrev pub zero_time : Time
zero_time = 63_158_400_000_000_000

-- What a column of type `timestamptz` keeps of an instant.
abbrev pub in_microseconds : Time → Time
in_microseconds t = t / 1000 * 1000

abbrev pub date_in_microseconds : Option Time → Option Time
date_in_microseconds none = none
date_in_microseconds (some t) = some (in_microseconds t)

-- `coalesce(a, b)`.
abbrev pub coalesce {ℓ} : {A : Type ℓ} → Option A → A → A
coalesce none b = b
coalesce (some a) b = a

-- `greatest(a, b)`.
abbrev pub greatest : Time → Time → Time
greatest a b = if ltb a b then b else a

-- `least(a, b)`.
abbrev pub least : Time → Time → Time
least a b = if ltb b a then b else a
