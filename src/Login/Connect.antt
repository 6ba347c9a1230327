-- ===== src/Login/Connect.antt =====
-- How long a connection is waited for: the loop of `SshSession::connect` in
-- crates/core-ssh/src/session.rs.
use tern.Prelude.{
  ℕ, zero, suc, ◌+◌, ◌*◌, ◌≤◌, ◌<◌, ◌≡◌, refl, Bool, ◌&&◌, Option, none, some, List, [], ◌∷◌,
  length, All, ltb, leb, arith, Result, ok, err, if◌then◌else◌, Bool-cases, inl, inr,
}
use tern.Reconnect.{min, duration_max}
use tern.Login.{SshError, connect_timeout, protocol, unknown_key, host_key_rejected}

-- 180 seconds, in nanoseconds.
abbrev pub max_host_key_wait : ℕ
max_host_key_wait = 180000000000

-- What one `timeout` of the connect future answers; `awaiting` is `awaiting_user` at that moment.
pub data Poll : Type 0 where
  finished : Result {0, 0} SshError Unit → Poll
  elapsed : Bool → Poll

-- `Protocol(UnknownKey)` is a key that the callback refused.
unfoldable pub refused_key : SshError → SshError
refused_key (protocol unknown_key) = host_key_rejected
refused_key e = e

unfoldable pub connected : Result {0, 0} SshError Unit → Result {0, 0} SshError Unit
unfolding refused_key
connected (ok u) = ok u
connected (err e) = err (refused_key e)

-- The loop from `user_waited` on; `none` is a connect that still waits after these polls.
unfoldable pub connect_loop : ℕ → ℕ → List Poll → Option (Result {0, 0} SshError Unit)
unfolding connected
connect_loop timeout user_waited [] = none
connect_loop timeout user_waited (finished r ∷ polls) = some (connected r)
connect_loop timeout user_waited (elapsed awaiting ∷ polls) =
    let rest = connect_loop timeout (min (user_waited + timeout) duration_max) polls in
    if awaiting && ltb user_waited max_host_key_wait
    then rest
    else some (err (connect_timeout timeout))

abbrev pub IsElapsed : Poll → Type 0
IsElapsed (finished r) = ⊥
IsElapsed (elapsed awaiting) = Unit

-- One more window takes `timeout` off what is left of the wait, also where the sum saturates.
waits_on :
    (timeout waited m : ℕ)
    → max_host_key_wait ≤ waited + suc m * timeout
    → max_host_key_wait ≤ min (waited + timeout) duration_max + m * timeout
waits_on timeout waited m h = elim (Bool-cases (leb (waited + timeout) duration_max)) [
  | inl e ↦ rw e (omega (arith, h))
  | inr e ↦ rw e (omega arith)
]

connect_loop-ends :
    (timeout waited n : ℕ) (polls : List Poll)
    → max_host_key_wait ≤ waited + n * timeout
    → n < length polls
    → All IsElapsed polls
    → connect_loop timeout waited polls ≡ some (err (connect_timeout timeout))
unfolding connect_loop
connect_loop-ends timeout waited n [] h l a = absurd (omega (arith, l))
connect_loop-ends timeout waited n (finished r ∷ polls) h l (a, all) = absurd a
connect_loop-ends timeout waited zero (elapsed b ∷ polls) h l a = ground arith
connect_loop-ends timeout waited (suc m) (elapsed b ∷ polls) h l (a, all) =
    elim (Bool-cases (b && ltb waited max_host_key_wait)) [
      | inl e ↦
          rw (e, connect_loop)
            (connect_loop-ends timeout (min (waited + timeout) duration_max) m polls
              (waits_on timeout waited m h) (omega (arith, l)) all)
      | inr e ↦ rw (e, connect_loop) refl
    ]

-- A prompt that nobody answers does not keep a connection for ever: if `n` windows of the timeout
-- make up the longest wait of 180 seconds, a connection that has not finished after `n + 1` windows
-- has failed with `ConnectTimeout`, whether the user was being waited for or not.
pub connect_loop-bounded :
    (timeout n : ℕ) (polls : List Poll)
    → max_host_key_wait ≤ n * timeout
    → n < length polls
    → All IsElapsed polls
    → connect_loop timeout 0 polls ≡ some (err (connect_timeout timeout))
connect_loop-bounded timeout n polls h l a =
    connect_loop-ends timeout 0 n polls (omega (arith, h)) l a
