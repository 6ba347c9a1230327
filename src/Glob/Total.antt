-- ===== src/Glob/Total.antt =====
-- The matcher's loop ends: a bound on the rounds that it makes.
use tern.Prelude.{
  ℕ, zero, suc, ◌+◌, ◌*◌, ◌≤◌, ◌<◌, ◌≡◌, ◌≢◌, Option, none, some, Bool, Text, length, get_elem?,
  arith, get_elem?-lt, inl, inr, Option-cases, subst,
}
use tern.Glob.{Cursor, scan, start, enough, go_on}
use tern.Glob.Moves.{Move, took, opened, backed, failed, round-Move}

-- `m` bounds the text that is left to retry.
abbrev Saved : ℕ → ℕ → ℕ → Cursor → Option ℕ → Type 0
Saved np nv m k none = Unit
Saved np nv m k (some s) = (s < np) × (k.resume ≤ k.vi) × (nv ≤ k.resume + m)

-- `np` and `nv` are the lengths of the pattern and of the text.
record InBounds (np nv f m : ℕ) (k : Cursor) : Type 0 where
  pattern_bound : k.pi ≤ np
  text_bound : k.vi ≤ nv
  left : nv ≤ k.vi + m
  saved : Saved np nv m k k.star
  fuel : m * (np + 1) + np < f + k.pi

Saved-took :
    (np nv m : ℕ) (k : Cursor) (o : Option ℕ)
    → Saved np nv m k o
    → Saved np nv m (record k { pi = k.pi + 1; vi = k.vi + 1 }) o
Saved-took np nv m k none h = tt
Saved-took np nv m k (some s) h = omega arith

Saved-at :
    (np nv m s : ℕ) (k : Cursor)
    → k.star ≡ some s
    → Saved np nv m k k.star
    → Saved np nv m k (some s)
Saved-at np nv m s k e h = subst (Saved np nv m k) e h

took-InBounds :
    (np nv f m : ℕ) (k : Cursor)
    → InBounds np nv (suc f) m k
    → k.pi < np
    → k.vi < nv
    → InBounds np nv f m (record k { pi = k.pi + 1; vi = k.vi + 1 })
took-InBounds np nv f m k i hp hv = record {
  pattern_bound = omega arith;
  text_bound = omega arith;
  left = omega arith;
  saved = Saved-took np nv m k k.star i.saved;
  fuel = omega arith;
}

-- Going back to a star uses up one character of the text that is left to retry.
backed-InBounds :
    (np nv f m s : ℕ) (k : Cursor)
    → InBounds np nv (suc f) (suc m) k
    → Saved np nv (suc m) k (some s)
    → k.vi < nv
    → InBounds np nv f m
        (record { pi = s + 1; vi = k.resume + 1; star = some s; resume = k.resume + 1 })
backed-InBounds np nv f m s k i (hs, hr, hm) hv = omega arith

module _ (p v : Text) where
  go_on-ne-none :
      (f m : ℕ) (k : Cursor) (c : ℕ) {r : Option Cursor}
      → ((m' : ℕ) (k' : Cursor) → InBounds (length p) (length v) f m' k' → scan f p v k' ≢ none)
      → InBounds (length p) (length v) (suc f) m k
      → k.vi < length v
      → Move p k c r
      → go_on (scan f p v) r ≢ none
  go_on-ne-none f m k c ih i hv (took a e fits) =
      ih m _ (took-InBounds (length p) (length v) f m k i (get_elem?-lt p k.pi a e) hv)
  go_on-ne-none f m k c ih i hv (opened e) =
      let hp : k.pi < length p = get_elem?-lt p k.pi _ e in ih m _ (omega arith)
  go_on-ne-none f zero k c ih i hv (backed s e n) =
      let (_, h, h') = Saved-at (length p) (length v) zero s k e i.saved in absurd (omega arith)
  go_on-ne-none f (suc m) k c ih i hv (backed s e n) = ih m _ (
      backed-InBounds (length p) (length v) f m s k i
        (Saved-at (length p) (length v) (suc m) s k e i.saved) hv)
  go_on-ne-none f m k c ih i hv (failed e n) = λ h. cc

  scan-ne-none : (f m : ℕ) (k : Cursor) → InBounds (length p) (length v) f m k → scan f p v k ≢ none
  unfolding scan
  scan-ne-none zero m k i = absurd (omega arith)
  scan-ne-none (suc f) m k i = elim (Option-cases (get_elem? v k.vi)) [
    | inl e ↦ rw (e, scan) (λ h. cc)
    | inr (c, e) ↦
        rw (e, scan)
          (go_on-ne-none f m k c (scan-ne-none f) i (get_elem?-lt v k.vi c e) (round-Move p k c))
  ]

  -- The loop of `glob_match` returns an answer, whatever the pattern and the text: the fuel
  -- `(length v + 1) * (length p + 1)` is never used up.
  pub scan_total : (b : Bool) × (scan (enough p v) p v start ≡ some b)
  scan_total = elim (Option-cases (scan (enough p v) p v start)) [
    | inl e ↦ absurd (scan-ne-none (enough p v) (length v) start (omega arith) e)
    | inr (b, e) ↦ (b, e)
  ]
