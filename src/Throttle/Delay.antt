-- ===== src/Throttle/Delay.antt =====
-- `delay_for` of crates/lodger/src/throttle.rs: the wait against the number of failures.
use native.Mathlib.Nat.{pow-le-pow_right}
use lodger.Prelude.{ℕ, ◌-◌, ◌*◌, ◌^◌, ◌≤◌, ◌≡◌, refl, min, arith, ltb, if◌then◌else◌, dec_lt}
use lodger.Throttle.{second, max_delay, free_failures, usize_max, saturate_u32, delay_for}

saturate_u32-min : (k : ℕ) → min (saturate_u32 k) 6 ≡ min k 6
unfolding saturate_u32
saturate_u32-min k = ground arith

-- The exponent is cut at 6, since 2 ^ 6 seconds are more than the cap.
capped : (k : ℕ) → min (2 ^ min k 6 * second) max_delay ≡ min (2 ^ k) 60 * second
capped k = elim (dec_lt k 6) [
  | yes small ↦ let e : min k 6 ≡ k = omega arith in rw e (omega arith)
  | no large ↦
      let e : min k 6 ≡ 6 = omega arith in
      rw e (omega (arith, pow-le-pow_right {n = 2} (omega arith) {i = 6} {j = k} (omega arith)))
]

-- The wait is 0 below 5 failures, and then 1, 2, 4, ... seconds, up to 60.
pub delay_for-eq :
    (failures : ℕ)
    → delay_for failures
      ≡ (if ltb failures free_failures then 0 else min (2 ^ (failures - free_failures)) 60 * second)
unfolding delay_for
delay_for-eq n = simp (saturate_u32-min, capped)

pub delay_for-le : (failures : ℕ) → delay_for failures ≤ max_delay
unfolding delay_for
delay_for-le n = ground arith

-- More failures never wait less.
pub delay_for_mono : (m n : ℕ) → m ≤ n → delay_for m ≤ delay_for n
delay_for_mono m n h = ground (
  arith,
  delay_for-eq m,
  delay_for-eq n,
  pow-le-pow_right {n = 2} (omega arith) {i = m - 5} {j = n - 5},
)

pub delay_for_max : delay_for usize_max ≡ max_delay
unfolding delay_for
delay_for_max = refl
