-- ===== src/Assign/Lease/Backoff.antt =====
-- The backoff window as a formula, and where the shift leaves the int64 range.
use saucepan.Common.{ℕ, ◌+◌, ◌*◌, ◌^◌, ◌≤◌, ◌<◌, min, ◌≡◌, arith, ltb, nat_eq, inl, inr, Bool-cases}
use native.Mathlib.Nat.{pow-le-pow_right, one-le-pow, mul-le-mul, mod-eq_of_lt}
use saucepan.Common.Int.{pos}
use saucepan.Assign.Lease.{
  shl, clamp_window, backoff_window, task_in_backoff, backoff_window_cap, int64_mod, int64_half,
}

pow_pos : (k : ℕ) → 0 < 2 ^ k
pow_pos k = one-le-pow k 2 (omega arith)

-- The bit pattern of a product that fits is the product.
shl-exact : (b k : ℕ) → b * 2 ^ k < int64_half → shl (pos b) k ≡ pos (b * 2 ^ k)
unfolding shl
shl-exact b k h = rw (mod-eq_of_lt small, mod-eq_of_lt fits) (ground arith)
  where
    small : b < int64_mod
    small = grind (arith, pow_pos k)

    fits : b * 2 ^ k < int64_mod
    fits = omega arith

product_bound : (b k : ℕ) → b < 8796093022208 → k ≤ 20 → b * 2 ^ k < int64_half
product_bound b k hb hk =
    let hb' : b ≤ 8796093022207 = omega arith in
    omega (arith, mul-le-mul hb' (pow-le-pow_right {n = 2} (omega arith) hk))

-- 1 ms at the least: past the shift limit the formula is over the cap as well.
product_over_cap : (b k : ℕ) → 1048576 ≤ b → 20 < k → backoff_window_cap ≤ b * 2 ^ k
product_over_cap b k hb hk =
    let big : 2 ^ 21 ≤ 2 ^ k =
      pow-le-pow_right {n = 2} (omega arith) {i = 21} {j = k} (omega arith) in
    omega (arith, mul-le-mul hb big)

clamp_window-min : (n : ℕ) → 0 < n → clamp_window (pos n) ≡ pos (min n backoff_window_cap)
unfolding clamp_window
clamp_window-min n h = ground arith

-- For a base from 2^20 ns (about 1 ms) up to, but not including, 2^43 ns (about 2.4 h), the window is min(base * 2^n, 30 min), whatever the failure count n: the shift never leaves the int64 range.
pub backoff_window-exact :
    (b n : ℕ)
    → 1048576 ≤ b
    → b < 8796093022208
    → backoff_window (pos b) (pos n) ≡ pos (min (b * 2 ^ n) backoff_window_cap)
unfolding backoff_window
backoff_window-exact b n low high = elim (Bool-cases (ltb 20 n)) [
  | inl past ↦
      let over : backoff_window_cap ≤ b * 2 ^ n = product_over_cap b n low (ground arith) in
      ground (arith, over)
  | inr within ↦
      let fits : b * 2 ^ n < int64_half = product_bound b n high (ground arith) in
      let positive : 0 < b * 2 ^ n = grind (arith, pow_pos n) in
      rw (within, shl-exact b n fits) (ground (arith, clamp_window-min (b * 2 ^ n) positive))
]

-- With a base of 2^44 + c nanoseconds and 20 failures the shift wraps to c * 2^20, which passes both tests on its result: for a small c the window is far below the 30 minute cap, in spite of the guard.
pub backoff_window_wraps :
    (c : ℕ)
    → 0 < c
    → c * 1048576 ≤ backoff_window_cap
    → backoff_window (pos (17592186044416 + c)) (pos 20) ≡ pos (c * 1048576)
unfolding backoff_window
backoff_window_wraps c low high = ground arith

-- A task that was attempted at last (not the zero time) is held back exactly until last + min(base * 2^n, 30 min), for a base in the same range.
pub task_in_backoff_exact :
    (last now b n : ℕ)
    → 0 < last
    → 1048576 ≤ b
    → b < 8796093022208
    → task_in_backoff last (pos b) (pos n) now ≡ ltb now (last + min (b * 2 ^ n) backoff_window_cap)
unfolding task_in_backoff
task_in_backoff_exact last now b n attempted low high =
    let positive : 0 < b * 2 ^ n = grind (arith, pow_pos n) in
    rw (backoff_window-exact b n low high) (ground (arith, positive))
