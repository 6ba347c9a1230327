-- ===== src/Stream/Frames.antt =====
-- No byte of terminal output is lost, doubled or moved by the coalescer.
use tern.Prelude.{
  ℕ, ◌≡◌, refl, sym, ap, ◌∙◌, subst, Bool, true, false, ◌&&◌, ◌||◌, List, [], ◌∷◌, ◌++◌, Text,
  length, leb, ltb, is_empty, All, append_assoc, append-nil, arith, Bool-cases, inl, inr,
}
use tern.Stream.{
  Coalescer, Happening, chunk_in, tick, input_closed, flush, take_in, pass, coalesce, fresh,
}

abbrev pub concat : List Text → Text
concat [] = []
concat (t ∷ ts) = t ++ concat ts

-- The bytes that come in.
abbrev pub bytes_of : Happening → Text
bytes_of (chunk_in c late taken) = c
bytes_of (tick taken) = []
bytes_of (input_closed taken) = []

abbrev pub all_bytes : List Happening → Text
all_bytes [] = []
all_bytes (h ∷ hs) = bytes_of h ++ all_bytes hs

-- The input goes on and the consumer takes a frame that is sent.
abbrev pub GoesOn : Happening → Type 0
GoesOn (chunk_in c late taken) = taken ≡ true
GoesOn (tick taken) = taken ≡ true
GoesOn (input_closed taken) = ⊥

-- All that has come in: the frames and what is pending.
abbrev pub held : Coalescer → Text
held c = concat c.frames ++ c.buf

concat-snoc : (ts : List Text) (t : Text) → concat (ts ++ t ∷ []) ≡ concat ts ++ t
concat-snoc [] t = append-nil t
concat-snoc (u ∷ ts) t = ap (λ r. u ++ r) (concat-snoc ts t) ∙ sym (append_assoc u (concat ts) t)

flush-held : (c : Coalescer) → held (flush true c) ≡ held c
unfolding flush
flush-held c = elim (Bool-cases (is_empty c.buf)) [
  | inl e ↦ rw e refl
  | inr e ↦ rw e (append-nil _ ∙ concat-snoc c.frames c.buf)
]

take_in-held : (chunk : Text) (c : Coalescer) → held (take_in chunk c) ≡ held c ++ chunk
unfolding take_in
take_in-held chunk c = sym (append_assoc (concat c.frames) c.buf chunk)

-- What a pass keeps: the bytes, and that less than a full frame is pending.
abbrev pub Pending : ℕ → Coalescer → Type 0
Pending max_frame c = (is_empty c.buf || ltb (length c.buf) max_frame) ≡ true

flush-Pending : (max_frame : ℕ) (c : Coalescer) → Pending max_frame (flush true c)
unfolding flush
flush-Pending max_frame c = elim (Bool-cases (is_empty c.buf)) [
  | inl e ↦ rw (e, e) refl
  | inr e ↦ rw e refl
]

flush-goes_on : (c : Coalescer) → (flush true c).returned ≡ c.returned
unfolding flush
flush-goes_on c = elim (Bool-cases (is_empty c.buf)) [ inl e ↦ rw e refl | inr e ↦ rw e refl ]

-- The state after a pass against the state before it.
abbrev Kept : ℕ → Coalescer → Text → Coalescer → Type 0
Kept max_frame c came c' =
    (held c' ≡ held c ++ came) × Pending max_frame c' × (c'.returned ≡ c.returned)

-- The turns of the loop, by their tests.
pass-tick :
    (max_frame : ℕ) (taken : Bool) (c : Coalescer)
    → is_empty c.buf ≡ false
    → pass max_frame (tick taken) c ≡ flush taken c
unfolding pass
pass-tick max_frame taken c e = rw (e, pass) refl

coalesce-next :
    (max_frame : ℕ) (h : Happening) (hs : List Happening) (c : Coalescer)
    → c.returned ≡ false
    → coalesce max_frame (h ∷ hs) c ≡ coalesce max_frame hs (pass max_frame h c)
unfolding coalesce
coalesce-next max_frame h hs c r = cc

pass-Kept :
    (max_frame : ℕ) (h : Happening) (c : Coalescer)
    → GoesOn h
    → Pending max_frame c
    → Kept max_frame c (bytes_of h) (pass max_frame h c)
unfolding pass
pass-Kept max_frame (input_closed taken) c g p = absurd g
pass-Kept max_frame (tick taken) c g p = elim (Bool-cases (is_empty c.buf)) [
  | inl e ↦ rw (e, pass) (sym (append-nil _), p, refl)
  | inr e ↦
      subst (Kept max_frame c []) (sym (pass-tick max_frame taken c e ∙ ap (λ t. flush t c) g))
        (flush-held c ∙ sym (append-nil (held c)), flush-Pending max_frame c, flush-goes_on c)
]
pass-Kept max_frame (chunk_in chunk late taken) c g p =
    elim (Bool-cases (leb max_frame (length (c.buf ++ chunk)) || (is_empty c.buf && late))) [
      | inl e ↦
          rw (e, g, pass)
            (
              flush-held (take_in chunk c) ∙ take_in-held chunk c,
              flush-Pending max_frame (take_in chunk c),
              flush-goes_on (take_in chunk c),
            )
      | inr e ↦ rw (e, pass) (take_in-held chunk c, not_full e, refl)
    ]
  where
    not_full :
        (leb max_frame (length (c.buf ++ chunk)) || (is_empty c.buf && late)) ≡ false
        → Pending max_frame (take_in chunk c)
    not_full e = ground arith

coalesce-Kept :
    (max_frame : ℕ) (hs : List Happening) (c : Coalescer)
    → c.returned ≡ false
    → All GoesOn hs
    → Pending max_frame c
    → Kept max_frame c (all_bytes hs) (coalesce max_frame hs c)
unfolding coalesce
coalesce-Kept max_frame [] c r g p = (sym (append-nil _), p, refl)
coalesce-Kept max_frame (h ∷ hs) c r (g, gs) p =
    let (a, b, d) = pass-Kept max_frame h c g p in
    let (a', b', d') = coalesce-Kept max_frame hs (pass max_frame h c) (d ∙ r) gs b in
    subst (Kept max_frame c (bytes_of h ++ all_bytes hs)) (sym (coalesce-next max_frame h hs c r)) (
      a' ∙ (ap (λ x. x ++ all_bytes hs) a ∙ append_assoc (held c) (bytes_of h) (all_bytes hs)),
      b',
      d' ∙ d,
    )

-- While the input goes on and the consumer takes the frames, the frames that have been sent followed
-- by what is pending are the bytes that came in, in their order, and what is pending is less than a
-- full frame.
pub coalesce-GoesOn :
    (max_frame : ℕ) (hs : List Happening)
    → All GoesOn hs
    → (held (coalesce max_frame hs fresh) ≡ all_bytes hs)
      × Pending max_frame (coalesce max_frame hs fresh)
coalesce-GoesOn max_frame hs g =
    let (a, b, d) = coalesce-Kept max_frame hs fresh refl g refl in (a, b)

coalesce-last :
    (max_frame : ℕ) (hs : List Happening) (h : Happening) (c : Coalescer)
    → c.returned ≡ false
    → All GoesOn hs
    → Pending max_frame c
    → coalesce max_frame (hs ++ h ∷ []) c ≡ pass max_frame h (coalesce max_frame hs c)
unfolding coalesce
coalesce-last max_frame [] h c r g p = coalesce-next max_frame h [] c r
coalesce-last max_frame (x ∷ hs) h c r (g, gs) p =
    let (a, b, d) = pass-Kept max_frame x c g p in
    coalesce-next max_frame x (hs ++ h ∷ []) c r
    ∙ (coalesce-last max_frame hs h (pass max_frame x c) (d ∙ r) gs b
        ∙ ap (pass max_frame h) (sym (coalesce-next max_frame x hs c r)))

empty_nil : (t : Text) → is_empty t ≡ true → t ≡ []
empty_nil [] e = refl
empty_nil (x ∷ t) e = cc

closed-frames :
    (max_frame : ℕ) (c : Coalescer) → concat (pass max_frame (input_closed true) c).frames ≡ held c
unfolding pass flush
closed-frames max_frame c = elim (Bool-cases (is_empty c.buf)) [
  | inl e ↦ rw e (
      sym (append-nil (concat c.frames)) ∙ ap (λ b. concat c.frames ++ b) (sym (empty_nil c.buf e)))
  | inr e ↦ rw e (concat-snoc c.frames c.buf)
]

-- If the consumer takes every frame, then once the input closes the frames are exactly the bytes that
-- came in: none is lost, doubled or out of order, however the chunks, the ticks and the late arrivals
-- fell.
pub coalesce-delivers :
    (max_frame : ℕ) (hs : List Happening)
    → All GoesOn hs
    → concat (coalesce max_frame (hs ++ input_closed true ∷ []) fresh).frames ≡ all_bytes hs
coalesce-delivers max_frame hs g =
    ap (λ c. concat c.frames) (coalesce-last max_frame hs (input_closed true) fresh refl g refl)
    ∙ (closed-frames max_frame (coalesce max_frame hs fresh) ∙ (coalesce-GoesOn max_frame hs g).0)
