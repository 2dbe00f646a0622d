-- ===== src/Billing/Retry.antt =====
-- The retry delay of the worker (`retryDelay`), and the bounds that the configuration sets for it
-- (`LoadBilling` in internal/config/billing.go).
pub mod Bounds
use albion_market_api.Prelude.{
  ℕ, zero, suc, ◌+◌, ◌-◌, ◌*◌, ◌/◌, ◌%◌, ◌^◌, ◌≤◌, ◌<◌, ◌≡◌, refl, Bool, true, false, not, ◌&&◌,
  ◌||◌, arith, ltb, leb, if◌then◌else◌, ◌++◌, ◌∷◌, inl, inr, Bool-cases, ◌⊎◌, ap, sym, ◌∙◌,
}
use albion_market_api.Prelude.Int.{ℤ, pos, negsuc}
use albion_market_api.Int64.{add64, mul64, div64, lt, le, add64_pos, mul64_pos}
use albion_market_api.Text.{Text, Platform, format_int}
use albion_market_api.Clock.{second, minute, hour}

pub record WorkerConfig : Type 0 where
  pub poll_interval : ℤ
  pub job_timeout : ℤ
  pub lease_duration : ℤ
  pub base_retry_delay : ℤ
  pub max_retry_delay : ℤ
  pub batch_size : ℤ
  pub max_attempts : ℤ

-- The guards of the configuration that concern the worker, in their order.
unfoldable pub accepts_worker : WorkerConfig → Bool
accepts_worker c =
    not (lt c.poll_interval (pos 100_000_000) || lt (pos minute) c.poll_interval)
    && not (lt c.job_timeout (pos second) || lt (pos (5 * minute)) c.job_timeout)
    && not (le c.lease_duration c.job_timeout || lt (pos (30 * minute)) c.lease_duration)
    && not (lt c.base_retry_delay (pos second) || lt (pos hour) c.base_retry_delay)
    && not (lt c.max_retry_delay c.base_retry_delay || lt (pos (24 * hour)) c.max_retry_delay)
    && not (lt c.batch_size (pos 1) || lt (pos 100) c.batch_size)
    && not (lt c.max_attempts (pos 1) || lt (pos 50) c.max_attempts)

-- The exponent of the backoff: 0 at the first attempt, 20 at most.
unfoldable pub backoff_shift : ℕ → ℕ
backoff_shift attempt =
    let shift = (if ltb attempt 1 then 1 else attempt) - 1 in if ltb 20 shift then 20 else shift

-- The text that is hashed: the event and the attempt.
unfoldable pub jitter_seed : Text → ℕ → Text
jitter_seed event_id attempt =
    event_id ++ (58 ∷ format_int (pos (if ltb attempt 1 then 1 else attempt)))

-- The delay with its jitter of `percent`, capped.
unfoldable pub with_jitter : ℤ → ℤ → ℕ → ℤ
with_jitter delay max_delay percent =
    let total = add64 delay (div64 (mul64 delay (pos percent)) 100) in
    if lt max_delay total && lt (pos 0) max_delay then max_delay else total

-- `retryDelay`.
unfoldable pub retry_delay : ⦃go : Platform⦄ → WorkerConfig → ℕ → Text → ℤ
retry_delay ⦃go⦄ c attempt event_id =
    let grown = mul64 c.base_retry_delay (pos (2 ^ backoff_shift attempt)) in
    let delay =
      if le grown (pos 0) || lt c.max_retry_delay grown then c.max_retry_delay else grown in
    if le delay (pos 0)
    then pos second
    else with_jitter delay c.max_retry_delay (go.sha256_head (jitter_seed event_id attempt) % 21)
