-- ===== src/Reconnect/Schedule.antt =====
-- The ceilings of the delays.
use tern.Prelude.{ℕ, false, Bool-cases, inl, inr, ◌-◌, ◌*◌, ◌^◌, ◌≤◌, ◌≡◌, leb, arith}
use native.Mathlib.Nat.{mul-le-mul_left}
use tern.Reconnect.{Backoff, ceiling, min, u32_max, duration_max, saturating_mul}

-- `x` and `y` are the base times the saturated and the plain factor.
below_cap :
    (x y cap : ℕ) → cap ≤ duration_max → cap ≤ x → x ≤ y → min (min x duration_max) cap ≡ min y cap
below_cap x y cap h k l = ground arith

above_cap : (x cap : ℕ) → cap ≤ duration_max → min (min x duration_max) cap ≡ min x cap
above_cap x cap h = ground arith

saturation_unseen :
    (base p cap : ℕ)
    → cap ≤ duration_max
    → cap ≤ base * u32_max
    → min (saturating_mul base (min p u32_max)) cap ≡ min (base * p) cap
saturation_unseen base p cap h k = elim (Bool-cases (leb p u32_max)) [
  | inl e ↦ rw e (above_cap (base * p) cap h)
  | inr e ↦ rw e (below_cap (base * u32_max) (base * p) cap h k (mul-le-mul_left base (over e)))
]
  where
    over : leb p u32_max ≡ false → u32_max ≤ p
    over e = ground arith

-- Neither saturation is ever seen: if the cap is a duration and no more than 2 ^ 32 - 1 times the
-- base, the ceiling of an attempt is the base times the factor to the power of the attempts before
-- it, or the cap where that is less.
pub ceiling_exact :
    (b : Backoff) (attempt : ℕ)
    → b.cap ≤ duration_max
    → b.cap ≤ b.base * u32_max
    → ceiling b attempt ≡ min (b.base * b.factor ^ (attempt - 1)) b.cap
unfolding ceiling
ceiling_exact b attempt h k = saturation_unseen b.base (b.factor ^ (attempt - 1)) b.cap h k
