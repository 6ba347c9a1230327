-- ===== src/Supervisor/Attempts.antt =====
-- What a supervised session says: the order and the number of its attempts.
use tern.Prelude.{
  ℕ, ◌+◌, ◌^◌, ◌%◌, ◌≤◌, ◌<◌, ◌≡◌, refl, sym, subst, Bool, true, false, ◌||◌, Option, none, some,
  List, [], ◌∷◌, ◌++◌, Text, arith, nat_beq, ltb, Bool-cases, inl, inr,
}
use tern.Reconnect.{
  Floats, PumpEnd, exited, dropped, Decision, exit, reconnect, give_up, ReconnectPolicy,
  reconnect_or_give_up, decide, after_failed_attempt, u32_max,
}
use tern.Supervisor.{
  SessionEvent, exited_with, disconnected, reconnecting, connected, Phase, pumping, asking, waiting,
  connecting, stopped, Input, shut, chunk, output_end, exit_status, slept, established, failed,
  Supervisor, act, after_end, swap_in, next, step, begun, pump_end,
}

-- The events of a session from the attempt `n` on: attempts are counted up by one from the first
-- after each connection and never beyond `max`, and nothing follows the end.
abbrev pub WellSpoken : ℕ → ℕ → List SessionEvent → Type 0
WellSpoken max n [] = Unit
WellSpoken max n (reconnecting a m d ∷ es) =
    (a ≡ n + 1) × (a ≤ max) × (m ≡ max) × WellSpoken max a es
WellSpoken max n (connected ∷ es) = (1 ≤ n) × WellSpoken max 0 es
WellSpoken max n (exited_with c ∷ es) = (n ≡ 0) × (es ≡ [])
WellSpoken max n (disconnected r ∷ es) = es ≡ []

-- The same of a session that goes on at the attempt `k`.
abbrev Open : ℕ → ℕ → List SessionEvent → ℕ → Type 0
Open max n [] k = n ≡ k
Open max n (reconnecting a m d ∷ es) k = (a ≡ n + 1) × (a ≤ max) × (m ≡ max) × Open max a es k
Open max n (connected ∷ es) k = (1 ≤ n) × Open max 0 es k
Open max n (_ ∷ es) k = ⊥

module _ (max : ℕ) where
  Open-spoken : (n k : ℕ) (es : List SessionEvent) → Open max n es k → WellSpoken max n es
  Open-spoken n k [] h = tt
  Open-spoken n k (reconnecting a m d ∷ es) (p, q, r, h) = (p, q, r, Open-spoken a k es h)
  Open-spoken n k (connected ∷ es) (p, h) = (p, Open-spoken 0 k es h)
  Open-spoken n k (exited_with c ∷ es) h = absurd h
  Open-spoken n k (disconnected r ∷ es) h = absurd h

  -- One more event: the statement about it alone, at the attempt reached.
  Open-then :
      (n k : ℕ) (es : List SessionEvent) (e : SessionEvent)
      → Open max n es k
      → WellSpoken max k (e ∷ [])
      → WellSpoken max n (es ++ e ∷ [])
  Open-then n k [] e h w = subst (λ i. WellSpoken max i (e ∷ [])) (sym h) w
  Open-then n k (reconnecting a m d ∷ es) e (p, q, r, h) w = (p, q, r, Open-then a k es e h w)
  Open-then n k (connected ∷ es) e (p, h) w = (p, Open-then 0 k es e h w)
  Open-then n k (exited_with c ∷ es) e h w = absurd h
  Open-then n k (disconnected r ∷ es) e h w = absurd h

  Open-still :
      (n k j : ℕ) (es : List SessionEvent) (e : SessionEvent)
      → Open max n es k
      → Open max k (e ∷ []) j
      → Open max n (es ++ e ∷ []) j
  Open-still n k j [] e h w = subst (λ i. Open max i (e ∷ []) j) (sym h) w
  Open-still n k j (reconnecting a m d ∷ es) e (p, q, r, h) w = (p, q, r, Open-still a k j es e h w)
  Open-still n k j (connected ∷ es) e (p, h) w = (p, Open-still 0 k j es e h w)
  Open-still n k j (exited_with c ∷ es) e h w = absurd h
  Open-still n k j (disconnected r ∷ es) e h w = absurd h

  -- The invariant, by the phase.
  abbrev Fits : Phase → List SessionEvent → Type 0
  Fits pumping es = Open max 0 es 0
  Fits asking es = Open max 0 es 0
  Fits (waiting a r) es = Open max 0 es a × (1 ≤ a) × (a ≤ max)
  Fits (connecting a r) es = Open max 0 es a × (1 ≤ a) × (a ≤ max)
  Fits stopped es = WellSpoken max 0 es

  Fits-spoken : (p : Phase) (es : List SessionEvent) → Fits p es → WellSpoken max 0 es
  Fits-spoken pumping es h = Open-spoken 0 0 es h
  Fits-spoken asking es h = Open-spoken 0 0 es h
  Fits-spoken (waiting a r) es (h, _, _) = Open-spoken 0 a es h
  Fits-spoken (connecting a r) es (h, _, _) = Open-spoken 0 a es h
  Fits-spoken stopped es h = h

-- A decision that continues at the attempt `n`, or gives up.
abbrev GoesTo : ℕ → ℕ → Decision → Type 0
GoesTo max n (exit c) = ⊥
GoesTo max n (reconnect a d) = (a ≡ n) × (n ≤ max)
GoesTo max n give_up = Unit

module _ {F : Type 0} (floats : Floats F) (policy : ReconnectPolicy) where
  reconnect_or_give_up-GoesTo :
      (n : ℕ) (rand : F) → GoesTo policy.max_attempts n (reconnect_or_give_up floats policy n rand)
  unfolding reconnect_or_give_up
  reconnect_or_give_up-GoesTo n rand = elim (Bool-cases policy.enabled) [
    | inl e ↦ elim (Bool-cases (nat_beq policy.max_attempts 0 || ltb policy.max_attempts n)) [
      | inl f ↦ rw (e, f) tt
      | inr f ↦ rw (e, f) (refl, ground arith)
    ]
    | inr e ↦ rw e tt
  ]

  after_failed-GoesTo :
      (k : ℕ) (retryable : Bool) (rand : F)
      → k ≤ policy.max_attempts
      → policy.max_attempts < u32_max
      → GoesTo policy.max_attempts (k + 1) (after_failed_attempt floats policy k retryable rand)
  unfolding after_failed_attempt
  after_failed-GoesTo k false rand h b = tt
  after_failed-GoesTo k true rand h b =
      subst
        (λ n.
          GoesTo policy.max_attempts n (reconnect_or_give_up floats policy ((k + 1) % 2 ^ 32) rand))
        (small k (omega (arith, h, b))) (reconnect_or_give_up-GoesTo ((k + 1) % 2 ^ 32) rand)
    where
      small : (k : ℕ) → k < u32_max → (k + 1) % 2 ^ 32 ≡ k + 1
      small k h = omega (arith, h)

module _ {F T : Type 0} (floats : Floats F) (policy : ReconnectPolicy)
    (has_reconnector : Bool) where
  act-Fits :
      (s : Supervisor T) (reason : Text) (k : ℕ) (d : Decision)
      → Open policy.max_attempts 0 s.sent k
      → GoesTo policy.max_attempts (k + 1) d
      → Fits policy.max_attempts
          (act floats policy has_reconnector s reason d).phase
          (act floats policy has_reconnector s reason d).sent
  unfolding act
  act-Fits s reason k (exit c) h g = absurd g
  act-Fits s reason k (reconnect a d) h (p, q) = (
    Open-still policy.max_attempts 0 k a s.sent _ h (p, rw p q, refl, refl),
    rw p (ground arith),
    rw p q,
  )
  act-Fits s reason k give_up h g =
      Open-then policy.max_attempts 0 k s.sent (disconnected reason) h refl

  after_end-Fits :
      (s : Supervisor T) (rand : F) (end : PumpEnd)
      → Open policy.max_attempts 0 s.sent 0
      → Fits policy.max_attempts
          (after_end floats policy has_reconnector s rand end).phase
          (after_end floats policy has_reconnector s rand end).sent
  unfolding after_end decide
  after_end-Fits s rand (exited c) h =
      Open-then policy.max_attempts 0 0 s.sent (exited_with c) h (refl, refl)
  after_end-Fits s rand dropped h = elim (Bool-cases has_reconnector) [
    | inl e ↦
        rw (e, after_end)
          (act-Fits s _ 0 (reconnect_or_give_up floats policy 1 rand) h
            (reconnect_or_give_up-GoesTo floats policy 1 rand))
    | inr e ↦ rw (e, after_end) (Open-then policy.max_attempts 0 0 s.sent _ h refl)
  ]

  abbrev FitsIf : Option (Supervisor T) → Type 0
  FitsIf none = Unit
  FitsIf (some t) = Fits policy.max_attempts t.phase t.sent

  -- Whatever a phase is answered, the events still fit.
  next-Fits :
      (p : Phase) (input : Input F T) (s : Supervisor T)
      → policy.max_attempts < u32_max
      → Fits policy.max_attempts p s.sent
      → s.phase ≡ p
      → FitsIf (next floats policy has_reconnector p input s)
  unfolding next swap_in
  next-Fits pumping shut s b h p = Open-spoken policy.max_attempts 0 0 s.sent h
  next-Fits pumping (chunk c true) s b h p =
      subst (λ q. Fits policy.max_attempts q s.sent) (sym p) h
  next-Fits pumping (chunk c false) s b h p = Open-spoken policy.max_attempts 0 0 s.sent h
  next-Fits pumping (output_end true) s b h p = Open-spoken policy.max_attempts 0 0 s.sent h
  next-Fits pumping (output_end false) s b h p = h
  next-Fits asking (exit_status code closed rand) s b h p =
      after_end-Fits s rand (pump_end code closed) h
  next-Fits (waiting a r) shut s b (h, _, _) p = Open-spoken policy.max_attempts 0 a s.sent h
  next-Fits (waiting a r) (slept true) s b (h, _, _) p =
      Open-spoken policy.max_attempts 0 a s.sent h
  next-Fits (waiting a r) (slept false) s b h p = h
  next-Fits (connecting a r) (established t) s b (h, l, _) p =
      Open-still policy.max_attempts 0 a 0 s.sent connected h (l, refl)
  next-Fits (connecting a r) (failed m retryable rand) s b (h, _, u) p =
      act-Fits s m a (after_failed_attempt floats policy a retryable rand) h
        (after_failed-GoesTo floats policy a retryable rand u b)
  next-Fits _ _ s b h p = tt

  -- The states that a session may come to.
  pub data Reached (t : T) : Supervisor T → Type 0 where
    beginning : Reached t (begun t)
    onward :
        {s s' : Supervisor T} (input : Input F T)
        → Reached t s
        → step floats policy has_reconnector s input ≡ some s'
        → Reached t s'

  Reached-Fits :
      (t : T) (s : Supervisor T)
      → policy.max_attempts < u32_max
      → Reached t s
      → Fits policy.max_attempts s.phase s.sent
  unfolding step
  Reached-Fits t s b beginning = refl
  Reached-Fits t s b (onward {s = before} input r e) =
      subst FitsIf e (next-Fits before.phase input before b (Reached-Fits t before b r) refl)

  -- Under a policy of fewer than 2 ^ 32 - 1 attempts, however the transport, the attempts and the user
  -- act, the events of a supervised session are well spoken: after each connection the attempts are announced one by one from the first on, none
  -- beyond the policy's number, an exit is reported only of a session that is not reconnecting, and
  -- nothing is sent after an exit or a disconnection.
  pub Reached-WellSpoken :
      (t : T) (s : Supervisor T)
      → policy.max_attempts < u32_max
      → Reached t s
      → WellSpoken policy.max_attempts 0 s.sent
  Reached-WellSpoken t s b r = Fits-spoken policy.max_attempts s.phase s.sent (Reached-Fits t s b r)
