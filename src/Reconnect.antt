-- ===== src/Reconnect.antt =====
-- Whether a dropped session is retried, and after what delay: apps/desktop/src/reconnect.rs.
pub mod Schedule
use tern.Prelude.{
  ℕ, ◌+◌, ◌-◌, ◌*◌, ◌^◌, ◌%◌, Bool, true, false, not, ◌||◌, Option, nat_beq, ltb, leb,
  if◌then◌else◌,
}

abbrev pub u32_max : ℕ
u32_max = 4294967295

-- A `Duration` in nanoseconds; the largest is one short of 2 ^ 64 seconds.
abbrev pub duration_max : ℕ
duration_max = 18446744073709551615999999999

abbrev pub min : ℕ → ℕ → ℕ
min a b = if leb a b then a else b

-- What `delay` uses of `f64`: `is_finite`, `clamp(0.0, 1.0)`, `0.0`, and `Duration::mul_f64`.
pub record Floats (F : Type 0) : Type 0 where
  pub is_finite : F → Bool
  pub clamp_unit : F → F
  pub zero_float : F
  pub mul_f64 : ℕ → F → ℕ

pub record Backoff : Type 0 where
  pub base : ℕ
  pub cap : ℕ
  pub factor : ℕ

-- `Backoff::DEFAULT`
abbrev pub default_backoff : Backoff
default_backoff = record { base = 500000000; cap = 30000000000; factor = 2 }

-- `u32::saturating_pow`, `Duration::saturating_mul`
abbrev pub saturating_pow : ℕ → ℕ → ℕ
saturating_pow a n = min (a ^ n) u32_max

abbrev pub saturating_mul : ℕ → ℕ → ℕ
saturating_mul d n = min (d * n) duration_max

-- The local `ceiling` of `delay`.
unfoldable pub ceiling : Backoff → ℕ → ℕ
ceiling b attempt = min (saturating_mul b.base (saturating_pow b.factor (attempt - 1))) b.cap

-- An exit status that may be missing, or the death of the transport.
pub data PumpEnd : Type 0 where
  exited : Option ℕ → PumpEnd
  dropped : PumpEnd

pub data Decision : Type 0 where
  exit : Option ℕ → Decision
  reconnect : ℕ → ℕ → Decision
  give_up : Decision

pub record ReconnectPolicy : Type 0 where
  pub enabled : Bool
  pub max_attempts : ℕ
  pub backoff : Backoff

abbrev pub default_policy : ReconnectPolicy
default_policy = record { enabled = true; max_attempts = 10; backoff = default_backoff }

abbrev pub off_policy : ReconnectPolicy
off_policy = record { enabled = false; max_attempts = 0; backoff = default_backoff }

module _ {F : Type 0} (floats : Floats F) where
  unfoldable pub fraction : F → F
  fraction rand = if floats.is_finite rand then floats.clamp_unit rand else floats.zero_float

  unfoldable pub delay : Backoff → ℕ → F → ℕ
  unfolding ceiling fraction
  delay b attempt rand = floats.mul_f64 (ceiling b attempt) (fraction rand)

  unfoldable pub reconnect_or_give_up : ReconnectPolicy → ℕ → F → Decision
  reconnect_or_give_up policy attempt rand =
      if not policy.enabled
      then give_up
      else if nat_beq policy.max_attempts 0 || ltb policy.max_attempts attempt
      then give_up
      else reconnect attempt (delay policy.backoff attempt rand)

  unfoldable pub decide : ReconnectPolicy → PumpEnd → ℕ → F → Decision
  unfolding reconnect_or_give_up
  decide policy (exited code) attempt rand = exit code
  decide policy dropped attempt rand = reconnect_or_give_up policy attempt rand

  -- `attempt + 1` is a `u32`.
  unfoldable pub after_failed_attempt : ReconnectPolicy → ℕ → Bool → F → Decision
  unfolding reconnect_or_give_up
  after_failed_attempt policy attempt retryable rand =
      if not retryable then give_up else reconnect_or_give_up policy ((attempt + 1) % 2 ^ 32) rand
