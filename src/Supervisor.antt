-- ===== src/Supervisor.antt =====
-- The supervisor of one session: `supervise` of apps/desktop/src/commands.rs.
pub mod Attempts
use tern.Prelude.{
  ℕ, ◌+◌, ◌/◌, leb, Bool, true, false, not, Option, none, some, List, [], ◌∷◌, ◌++◌, Text, codes,
  if◌then◌else◌,
}
use tern.Reconnect.{
  Floats, PumpEnd, exited, dropped, Decision, exit, reconnect, give_up, ReconnectPolicy, decide,
  after_failed_attempt,
}

pub data SessionEvent : Type 0 where
  exited_with : Option ℕ → SessionEvent
  disconnected : Text → SessionEvent
  reconnecting : ℕ → ℕ → ℕ → SessionEvent
  connected : SessionEvent

-- Where the task awaits. `waiting` and `connecting` hold the attempt and the last reason.
pub data Phase : Type 0 where
  pumping : Phase
  asking : Phase
  waiting : ℕ → Text → Phase
  connecting : ℕ → Text → Phase
  stopped : Phase

-- What the awaited operations answer. A `Bool` of the end of the output and of the sleep is
-- `*shutdown.borrow()`; a random number comes with each input at which one is drawn.
pub data Input (F T : Type 0) : Type 0 where
  shut : Input F T
  chunk : Text → Bool → Input F T
  output_end : Bool → Input F T
  exit_status : Option ℕ → Bool → F → Input F T
  slept : Bool → Input F T
  established : T → Input F T
  failed : Text → Bool → F → Input F T

-- `fed` is what the desktop has been handed, `sent` the events, `transport` the one in use.
pub record Supervisor (T : Type 0) : Type 0 where
  pub phase : Phase
  pub fed : List Text
  pub sent : List SessionEvent
  pub transport : T
  pub desktop_pause : Bool

-- `millis_u64`: whole milliseconds, at most `u64::MAX`.
abbrev pub millis_u64 : ℕ → ℕ
millis_u64 d = if leb (d / 1000000) 18446744073709551615 then d / 1000000 else 18446744073709551615

abbrev connection_lost : Text
connection_lost = codes "connection lost"

-- `let end = match out.exit_status().await`
abbrev pub pump_end : Option ℕ → Bool → PumpEnd
pump_end (some code) closed = exited (some code)
pump_end none closed = if closed then dropped else exited none

module _ {F T : Type 0} (floats : Floats F) (policy : ReconnectPolicy)
    (has_reconnector : Bool) where
  abbrev emit : Supervisor T → SessionEvent → Phase → Supervisor T
  emit s e phase = record s { sent = s.sent ++ e ∷ []; phase = phase }

  -- The head of the loop of attempts.
  unfoldable pub act : Supervisor T → Text → Decision → Supervisor T
  act s reason give_up = emit s (disconnected reason) stopped
  act s reason (exit code) = emit s (exited_with code) stopped
  act s reason (reconnect attempt delay) =
      emit s (reconnecting attempt policy.max_attempts (millis_u64 delay)) (waiting attempt reason)

  unfoldable pub after_end : Supervisor T → F → PumpEnd → Supervisor T
  unfolding act
  after_end s rand (exited code) = emit s (exited_with code) stopped
  after_end s rand dropped =
      if has_reconnector
      then act s connection_lost (decide floats policy dropped 1 rand)
      else emit s (disconnected connection_lost) stopped

  -- The new transport is swapped in, and a pause of the old one is cleared.
  unfoldable pub swap_in : Supervisor T → T → Supervisor T
  swap_in s t = record s {
    phase = pumping;
    sent = s.sent ++ connected ∷ [];
    transport = t;
    desktop_pause = false;
  }

  -- What an awaited answer does; `none` is an input that the task does not await in this phase.
  unfoldable pub next : Phase → Input F T → Supervisor T → Option (Supervisor T)
  unfolding after_end swap_in act
  next pumping shut s = some (record s { phase = stopped })
  next pumping (chunk c true) s = some (record s { fed = s.fed ++ c ∷ [] })
  next pumping (chunk c false) s = some (record s { phase = stopped })
  next pumping (output_end true) s = some (record s { phase = stopped })
  next pumping (output_end false) s = some (record s { phase = asking })
  next asking (exit_status code closed rand) s = some (after_end s rand (pump_end code closed))
  next (waiting attempt reason) shut s = some (record s { phase = stopped })
  next (waiting attempt reason) (slept true) s = some (record s { phase = stopped })
  next (waiting attempt reason) (slept false) s =
      some (record s { phase = connecting attempt reason })
  next (connecting attempt reason) (established t) s = some (swap_in s t)
  next (connecting attempt reason) (failed message retryable rand) s =
      some (act s message (after_failed_attempt floats policy attempt retryable rand))
  next _ _ s = none

  unfoldable pub step : Supervisor T → Input F T → Option (Supervisor T)
  unfolding next
  step s input = next s.phase input s

-- How a session begins.
abbrev pub begun : {T : Type 0} → T → Supervisor T
begun t = record { phase = pumping; fed = []; sent = []; transport = t; desktop_pause = false }
