-- ===== src/UniversalWorker/Backoff.antt =====
-- The delays between attempts to reconnect (pkg/agent/universal_worker_websocket.go).
use livekit_agent_sdk_go.Prelude.{
  ℕ, suc, zero, ◌+◌, ◌-◌, ◌*◌, ◌%◌, ◌^◌, ◌≤◌, ◌≡◌, refl, ap, ◌∙◌, arith, ltb, if◌then◌else◌, true,
  ◌<◌, some,
}
use native.Mathlib.Nat.{pow-le-pow_right, pow-succ'}
use livekit_agent_sdk_go.Prelude.Int.{ℤ, pos, ltb_ℤ}
use livekit_agent_sdk_go.UniversalWorker.Connection.{
  ConnectError, shifted_delay, backoff_delay, after_reconnect,
}
use livekit_agent_sdk_go.UniversalWorker.Types.{World}

-- A product that is below the modulus.
small : (x : ℕ) → x ≤ 17179869184 → 500000000 * x % 18446744073709551616 ≡ 500000000 * x
small x h = omega arith

zero_bits : (y : ℕ) → 500000000 * (72057594037927936 * y) % 18446744073709551616 ≡ 0
zero_bits y = omega arith

power_below : (k : ℕ) → k ≤ 34 → 2 ^ k ≤ 17179869184
power_below k h = pow-le-pow_right (ground arith) h

power_split : (k : ℕ) → 2 ^ (k + 56) ≡ 72057594037927936 * 2 ^ k
power_split zero = refl
power_split (suc k) =
    let shifted : suc k + 56 ≡ suc (k + 56) = omega arith in
    ap (λ n. 2 ^ n) shifted ∙ omega (arith, pow-succ' 2 (k + 56), power_split k, pow-succ' 2 k)

shifted-exact : (n : ℕ) → n ≤ 35 → shifted_delay n ≡ pos (500000000 * 2 ^ (n - 1))
unfolding shifted_delay
shifted-exact n most =
    let power = power_below (n - 1) (omega arith) in
    let below : ltb (500000000 * 2 ^ (n - 1)) 9223372036854775808 ≡ true = ground (arith, power) in
    rw (small (2 ^ (n - 1)) power, below) refl

shifted-zero : (n : ℕ) → 57 ≤ n → shifted_delay n ≡ pos 0
unfolding shifted_delay
shifted-zero n least =
    let split : 2 ^ (n - 1) ≡ 72057594037927936 * 2 ^ (n - 57) =
      ap (λ k. 2 ^ k) {x = n - 1} {y = n - 57 + 56} (omega arith) ∙ power_split (n - 57) in
    rw (split, zero_bits (2 ^ (n - 57))) refl

capped :
    (x : ℕ)
    → (if ltb_ℤ (pos 30000000000) (pos x) then pos 30000000000 else pos x)
      ≡ pos (if ltb 30000000000 x then 30000000000 else x)
capped x = ground arith

-- The delay before the jitter, up to the 35th attempt in a row that fails.
abbrev pub doubled : ℕ → ℕ
doubled attempts =
    if ltb 30000000000 (500000000 * 2 ^ (attempts - 1))
    then 30000000000
    else 500000000 * 2 ^ (attempts - 1)

delay-doubles :
    (attempts : ℕ) → 1 ≤ attempts → attempts ≤ 35 → backoff_delay attempts ≡ pos (doubled attempts)
unfolding backoff_delay
delay-doubles attempts least most =
    rw (shifted-exact attempts most) (capped (500000000 * 2 ^ (attempts - 1)))

-- The product with a factor from 0.8 to 1.2, up to a nanosecond of rounding.
abbrev pub IsNear : ℕ → ℕ → Type 0
IsNear delay slept = (4 * delay ≤ 5 * slept + 5) × (5 * slept ≤ 6 * delay + 5)

abbrev pub IsJitter : (ℤ → ℤ) → Type 0
IsJitter jitter = (delay : ℕ) → (slept : ℕ) × (jitter (pos delay) ≡ pos slept) × IsNear delay slept

-- After each of the first 35 attempts in a row that fail the worker sleeps, up to a nanosecond, for
-- 0.8 to 1.2 times a delay that doubles from half a second on and is 30 seconds where that is more:
-- the product of floating-point numbers that adds the jitter is taken to be within these bounds.
pub backoff_doubles :
    (jitter : ℤ → ℤ) (attempts : ℕ) (s : World) (err : ConnectError)
    → IsJitter jitter
    → attempts < 35
    → (slept : ℕ) × (after_reconnect jitter attempts (s, some err)
        ≡ (s, attempts + 1, some (pos slept)))
      × IsNear (doubled (attempts + 1)) slept
unfolding after_reconnect
backoff_doubles jitter attempts s err near few =
    let (slept, same, bounds) = near (doubled (attempts + 1)) in
    let delay = delay-doubles (attempts + 1) (omega arith) (omega arith) in
    (slept, rw (delay, same) refl, bounds)

-- From the 57th attempt in a row that fails on, there is no delay at all, since all bits of the
-- first delay are shifted out of the 64.
pub backoff_vanishes : (attempts : ℕ) → 57 ≤ attempts → backoff_delay attempts ≡ pos 0
unfolding backoff_delay
backoff_vanishes attempts least = rw (shifted-zero attempts least) refl
