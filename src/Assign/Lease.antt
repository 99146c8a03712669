-- ===== src/Assign/Lease.antt =====
-- cmd/orchestrator/orchestrator_reclaim.go: the pure lease and backoff policy.
-- A time.Time counts the nanoseconds since the zero time, so 0 is IsZero; a time.Duration is an
-- int64 of nanoseconds.
pub mod Backoff
use saucepan.Common.{
  ℕ, zero, suc, ◌+◌, ◌-◌, ◌*◌, ◌%◌, ◌^◌, ◌≤◌, ◌<◌, min, ◌≡◌, refl, Bool, true, false, not, ◌&&◌,
  arith, ltb, leb, ◌==◌, nat_eq, if◌then◌else◌,
}
use saucepan.Common.Int.{ℤ, pos, negsuc, ltb_ℤ, leb_ℤ, sub_ℕ, pos_part}

-- An int64 that holds x is the bit pattern `bits x`, and `of_bits` reads one.
abbrev pub int64_mod : ℕ
int64_mod = 18446744073709551616

abbrev pub int64_half : ℕ
int64_half = 9223372036854775808

unfoldable pub bits : ℤ → ℕ
bits (pos n) = n % int64_mod
bits (negsuc n) = int64_mod - 1 - n % int64_mod

unfoldable pub of_bits : ℕ → ℤ
of_bits u = if ltb u int64_half then pos u else negsuc (int64_mod - 1 - u)

-- x << k on an int64.
unfoldable pub shl : ℤ → ℕ → ℤ
unfolding bits of_bits
shl x k = of_bits (bits x * 2 ^ k % int64_mod)

-- 30 * time.Minute
abbrev pub backoff_window_cap : ℕ
backoff_window_cap = 1800000000000

abbrev pub shift_limit : ℕ
shift_limit = 20

unfoldable pub clamp_window : ℤ → ℤ
clamp_window w =
    if leb_ℤ w (pos 0)
    then pos backoff_window_cap
    else if ltb_ℤ (pos backoff_window_cap) w
    then pos backoff_window_cap
    else w

-- `pos_part` is the guard that puts a negative failureCount to 0.
unfoldable pub backoff_window : ℤ → ℤ → ℤ
unfolding shl clamp_window
backoff_window base failure_count =
    let n = pos_part failure_count in
    if leb_ℤ base (pos 0)
    then pos 0
    else if ltb shift_limit n
    then pos backoff_window_cap
    else clamp_window (shl base n)

-- now.Sub(lastAttempt), which does not saturate for times less than 292 years apart.
unfoldable pub task_in_backoff : ℕ → ℤ → ℤ → ℕ → Bool
unfolding backoff_window
task_in_backoff last_attempt base failure_count now =
    if last_attempt == 0
    then false
    else (let w = backoff_window base failure_count in
        if leb_ℤ w (pos 0) then false else ltb_ℤ (sub_ℕ now last_attempt) w)

unfoldable pub lease_expired : ℕ → ℕ → Bool
lease_expired lease_expires_at now = not (lease_expires_at == 0) && ltb lease_expires_at now

unfoldable pub lease_reclaim_terminal : ℕ → ℤ → Bool
lease_reclaim_terminal failure_count max_failures =
    ltb_ℤ (pos 0) max_failures && leb_ℤ max_failures (pos failure_count)

pub record ReclaimAction : Type 0 where
  pub requeue_task : Bool
  pub terminal_expire : Bool

abbrev pub no_action : ReclaimAction
no_action = record { requeue_task = false; terminal_expire = false }

unfoldable pub decide_reclaim : ℕ → ℕ → ℤ → ReclaimAction
unfolding lease_reclaim_terminal
decide_reclaim active_assignees_left new_failure_count max_failures =
    if ltb 0 active_assignees_left
    then no_action
    else if lease_reclaim_terminal new_failure_count max_failures
    then record { requeue_task = false; terminal_expire = true }
    else record { requeue_task = true; terminal_expire = false }
