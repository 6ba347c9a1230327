-- ===== src/Glob/Sound.antt =====
-- What the matcher accepts does match.
use tern.Prelude.{
  ℕ, zero, suc, ◌+◌, ◌≡◌, inl, inr, refl, true, Option, none, some, Text, [], ◌∷◌, drop,
  drop-get_elem, drop-none, ℕ_discrete, some-injective, get_elem?, arith, Option-cases, subst,
}
use native.Mathlib.Numerals.{add-one}
use tern.Glob.{Cursor, star_char, scan, start, enough, go_on, at_end, glob_match}
use tern.Glob.Moves.{Fits, Move, took, opened, backed, failed, round-Move}
use tern.Glob.Matches.{Matches, one, skip, grow, stars→Matches}

-- A fit of equal characters is a step of the relation, also where both are stars.
take_fit : {a c : ℕ} {p s : Text} → Fits a c → Matches p s → Matches (a ∷ p) (c ∷ s)
take_fit {a} fits d = elim (ℕ_discrete a star_char) [
  | yes e ↦ grow e (skip e d)
  | no n ↦ one (n, fits) d
]

-- A star may take one character more of the text.
grow_drop :
    {p : Text} (r : ℕ) (v : Text)
    → Matches (star_char ∷ p) (drop (suc r) v)
    → Matches (star_char ∷ p) (drop r v)
grow_drop zero [] d = d
grow_drop zero (c ∷ v) d = grow refl d
grow_drop (suc r) [] d = d
grow_drop (suc r) (c ∷ v) d = grow_drop r v d

module _ (p v : Text) where
  -- The text from `j` on matches the pattern from `i` on.
  abbrev From : ℕ → ℕ → Type 0
  From i j = Matches (drop i p) (drop j v)

  abbrev Saved : Option ℕ → ℕ → Type 0
  Saved none r = Unit
  Saved (some s) r = (get_elem? p s ≡ some star_char) × (From s r → From 0 0)

  record Leads (k : Cursor) : Type 0 where
    now : From k.pi k.vi → From 0 0
    saved : Saved k.star k.resume

  -- What the saved star may still take leads back to the question.
  regrow :
      (s r : ℕ) → get_elem? p s ≡ some star_char → (From s r → From 0 0) → From s (r + 1) → From 0 0
  regrow s r e back d = back (
      rw (drop-get_elem s p star_char e)
        (grow_drop r v (rw (← add-one r) (rw (drop-get_elem s p star_char e) at d))))

  go_on_sound :
      (f : ℕ) (k : Cursor) (c : ℕ) {r : Option Cursor}
      → ((k' : Cursor) → Leads k' → scan f p v k' ≡ some true → From 0 0)
      → Leads k
      → get_elem? v k.vi ≡ some c
      → Move p k c r
      → go_on (scan f p v) r ≡ some true
      → From 0 0
  go_on_sound f k c ih l ev (took a e fits) h =
      ih _
        (record {
          now = λ d.
              l.now
                (rw (drop-get_elem k.pi p a e) (rw (drop-get_elem k.vi v c ev) (take_fit fits d)));
          saved = l.saved;
        })
        h
  go_on_sound f k c ih l ev (opened e) h =
      ih _
        (record {
          now = λ d. l.now (rw (drop-get_elem k.pi p star_char e) (skip refl d));
          saved = (e, l.now);
        })
        h
  go_on_sound f k c ih l ev (backed s e n) h =
      let (at_star, back) = subst (λ o. Saved o k.resume) e l.saved in
      ih _
        (record {
          now = λ d.
              regrow s k.resume at_star back
                (rw (drop-get_elem s p star_char at_star) (skip refl d));
          saved = (at_star, regrow s k.resume at_star back);
        })
        h
  go_on_sound f k c ih l ev (failed e n) h = cc

  scan_sound : (f : ℕ) (k : Cursor) → Leads k → scan f p v k ≡ some true → From 0 0
  unfolding scan at_end
  scan_sound zero k l h = cc
  scan_sound (suc f) k l h = elim (Option-cases (get_elem? v k.vi)) [
    | inl e ↦ l.now (
        rw (drop-none k.vi v e)
          (stars→Matches (drop k.pi p) (some-injective _ _ (rw (e, scan) at h))))
    | inr (c, e) ↦ go_on_sound f k c (scan_sound f) l e (round-Move p k c) (rw (e, scan) at h)
  ]

-- A text that `glob_match` accepts matches the pattern.
pub glob_match_sound : (p v : Text) → glob_match p v ≡ true → Matches p v
unfolding glob_match
glob_match_sound p v h =
    scan_sound p v (enough p v) start (record { now = λ d. d; saved = tt }) (ground arith)
