-- ===== src/Billing/Retry/Bounds.antt =====
-- The bounds of the retry delay: `retryDelay` in internal/billing/webhook_queue.go.
use albion_market_api.Prelude.{
  ℕ, ◌+◌, ◌*◌, ◌/◌, ◌%◌, ◌^◌, ◌≤◌, ◌<◌, ◌≡◌, refl, Bool, true, false, not, ◌&&◌, ◌||◌, arith, ltb,
  if◌then◌else◌,
}
use native.Mathlib.Nat.{pow-le-pow_right, mul-le-mul, mul-le-mul_left, le_trans, one-le-pow}
use albion_market_api.Prelude.Int.{ℤ, pos, negsuc}
use albion_market_api.Int64.{div64, lt, le, add64_pos, mul64_pos}
use albion_market_api.Text.{Text, Platform}
use albion_market_api.Clock.{second, minute, hour}
use albion_market_api.Billing.Retry.{
  WorkerConfig, accepts_worker, backoff_shift, jitter_seed, with_jitter, retry_delay,
}

abbrev pub capped : ℕ → ℕ → ℕ
capped n cap = if ltb cap n then cap else n

-- The backoff and its jitter over the numbers, where nothing wraps.
abbrev pub delay_of : ℕ → ℕ → ℕ → ℕ → ℕ
delay_of base cap shift percent =
    let delay = capped (base * 2 ^ shift) cap in capped (delay + delay * percent / 100) cap

with_jitter_pos :
    (delay cap percent : ℕ)
    → 0 < cap
    → delay ≤ cap
    → cap ≤ 24 * hour
    → percent ≤ 20
    → with_jitter (pos delay) (pos cap) percent ≡ pos (capped (delay + delay * percent / 100) cap)
unfolding with_jitter div64
with_jitter_pos delay cap percent h k l p =
    let small : delay * percent ≤ 24 * hour * 20 = mul-le-mul (le_trans k l) p in
    rw (mul64_pos delay percent (omega arith))
      (rw (add64_pos delay (delay * percent / 100) (omega arith)) (ground arith))

backoff_shift-le : (attempt : ℕ) → backoff_shift attempt ≤ 20
unfolding backoff_shift
backoff_shift-le attempt = ground arith

module _ ⦃go : Platform⦄ (c : WorkerConfig) (base cap : ℕ) (based : c.base_retry_delay ≡ pos base)
    (limited : c.max_retry_delay ≡ pos cap) (positive : 0 < base) (ordered : base ≤ cap)
    (base_bound : base ≤ hour) (cap_bound : cap ≤ 24 * hour) where
  pub retry_delay-delay_of :
      (attempt : ℕ) (event_id : Text)
      → retry_delay c attempt event_id
        ≡ pos (
            delay_of base cap
              (backoff_shift attempt)
              (go.sha256_head (jitter_seed event_id attempt) % 21))
  unfolding retry_delay
  retry_delay-delay_of attempt event_id =
      let shift = backoff_shift attempt in
      let percent = go.sha256_head (jitter_seed event_id attempt) % 21 in
      let grown : base * 2 ^ shift ≤ hour * 2 ^ 20 =
        mul-le-mul base_bound (pow-le-pow_right (omega arith) (backoff_shift-le attempt)) in
      let at_least : base * 1 ≤ base * 2 ^ shift =
        mul-le-mul_left base (one-le-pow shift 2 (omega arith)) in
      let room : 0 < cap = omega arith in
      rw (based, limited)
        (rw (mul64_pos base (2 ^ shift) (omega arith)) (
          ground (
            arith,
            with_jitter_pos cap cap percent,
            with_jitter_pos (base * 2 ^ shift) cap percent,
          )))

  -- With a base delay of at most an hour and a cap between it and a day, the delay neither wraps
  -- nor vanishes: it lies between the base delay and the cap, at every attempt.
  pub retry_delay_bounds :
      (attempt : ℕ) (event_id : Text)
      → (d : ℕ) × (retry_delay c attempt event_id ≡ pos d) × (base ≤ d) × (d ≤ cap)
  retry_delay_bounds attempt event_id =
      let shift = backoff_shift attempt in
      let percent = go.sha256_head (jitter_seed event_id attempt) % 21 in
      let at_least : base * 1 ≤ base * 2 ^ shift =
        mul-le-mul_left base (one-le-pow shift 2 (omega arith)) in
      (
        delay_of base cap shift percent,
        retry_delay-delay_of attempt event_id,
        ground arith,
        ground arith,
      )

pos_above : (z : ℤ) (k : ℕ) → lt z (pos k) ≡ false → (n : ℕ) × (z ≡ pos n) × (k ≤ n)
pos_above (pos n) k h = (n, refl, ground arith)
pos_above (negsuc n) k h = absurd (ground arith)

guards_hold :
    (p q r a b m n t u : Bool)
    → (p && q && r && not (a || b) && not (m || n) && t && u) ≡ true
    → (a ≡ false) × (b ≡ false) × (m ≡ false) × (n ≡ false)
guards_hold p q r a b m n t u h = ground arith

accepts_worker-delays :
    (c : WorkerConfig)
    → accepts_worker c ≡ true
    → (lt c.base_retry_delay (pos second) ≡ false)
      × (lt (pos hour) c.base_retry_delay ≡ false)
      × (lt c.max_retry_delay c.base_retry_delay ≡ false)
      × (lt (pos (24 * hour)) c.max_retry_delay ≡ false)
unfolding accepts_worker
accepts_worker-delays c h =
    guards_hold (not (lt c.poll_interval (pos 100_000_000) || lt (pos minute) c.poll_interval))
      (not (lt c.job_timeout (pos second) || lt (pos (5 * minute)) c.job_timeout))
      (not (le c.lease_duration c.job_timeout || lt (pos (30 * minute)) c.lease_duration)) _ _ _ _
      (not (lt c.batch_size (pos 1) || lt (pos 100) c.batch_size))
      (not (lt c.max_attempts (pos 1) || lt (pos 50) c.max_attempts)) h

between_pos :
    (x y z : ℤ) (a b c : ℕ)
    → x ≡ pos a
    → y ≡ pos b
    → z ≡ pos c
    → a ≤ b
    → b ≤ c
    → (le x y ≡ true) × (le y z ≡ true)
between_pos x y z a b c p q r h k = rw (p, q, r) (ground arith, ground arith)

not_above : (z : ℤ) (k n : ℕ) → lt (pos k) z ≡ false → z ≡ pos n → n ≤ k
not_above z k n h e = ground arith

-- Of a configuration that the service accepts: every retry delay lies between the base delay and
-- the maximum, whatever the attempt, the event and its hash.
pub accepted_delay :
    ⦃go : Platform⦄ (c : WorkerConfig) (attempt : ℕ) (event_id : Text)
    → accepts_worker c ≡ true
    → (le c.base_retry_delay (retry_delay c attempt event_id) ≡ true)
      × (le (retry_delay c attempt event_id) c.max_retry_delay ≡ true)
accepted_delay c attempt event_id h =
    let (b_low, b_high, ordered, c_high) = accepts_worker-delays c h in
    let (base, based, above) = pos_above c.base_retry_delay second b_low in
    let (cap, limited, over) = pos_above c.max_retry_delay base (rw based at ordered) in
    let (d, is, low, high) =
      retry_delay_bounds c base cap based limited (omega arith) over
        (not_above c.base_retry_delay hour base b_high based)
        (not_above c.max_retry_delay (24 * hour) cap c_high limited) attempt event_id in
    between_pos _ _ _ base d cap based is limited low high
