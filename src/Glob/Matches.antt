-- ===== src/Glob/Matches.antt =====
-- What it means for a text to match a pattern, with no search order in it.
use tern.Prelude.{ℕ, ◌≡◌, ◌≢◌, ◌⊎◌, refl, true, Text, [], ◌∷◌, arith, is_empty}
use tern.Glob.{star_char, any_char, skip_stars}

-- A character of the pattern other than `*` accepts `c`.
abbrev pub Accepts : ℕ → ℕ → Type 0
Accepts a c = (a ≢ star_char) × ((a ≡ any_char) ⊎ (a ≡ c))

pub data Matches : Text → Text → Type 0 where
  empty : Matches [] []
  one : {a c : ℕ} {p s : Text} → Accepts a c → Matches p s → Matches (a ∷ p) (c ∷ s)
  skip : {a : ℕ} {p s : Text} → a ≡ star_char → Matches p s → Matches (a ∷ p) s
  grow : {a c : ℕ} {p s : Text} → a ≡ star_char → Matches (a ∷ p) s → Matches (a ∷ p) (c ∷ s)

pub one_inv :
    {a c : ℕ} {p s : Text} → a ≢ star_char → Matches (a ∷ p) (c ∷ s) → Accepts a c × Matches p s
one_inv n (one h d) = (h, d)
one_inv n (skip e d) = absurd (n e)
one_inv n (grow e d) = absurd (n e)

pub end_inv : {a : ℕ} {p : Text} → Matches (a ∷ p) [] → (a ≡ star_char) × Matches p []
end_inv (skip e d) = (e, d)

pub must_take :
    {a c : ℕ} {p s : Text}
    → a ≡ star_char
    → Matches (a ∷ p) (c ∷ s)
    → ¬ Matches p (c ∷ s)
    → Matches (a ∷ p) s
must_take e (one h d) n = absurd (h.0 e)
must_take e (skip _ d) n = absurd (n d)
must_take e (grow _ d) n = d

pub two_stars :
    {a b : ℕ} {p s : Text}
    → a ≡ star_char
    → b ≡ star_char
    → Matches (a ∷ b ∷ p) s
    → Matches (b ∷ p) s
two_stars e f (one h d) = absurd (h.0 e)
two_stars e f (skip _ d) = d
two_stars e f (grow _ d) = grow f (two_stars e f d)

-- Why the first fit loses nothing: wherever `x` matches, the rest begins after the first character.
pub drop_one :
    {a x c : ℕ} {p : Text} (s : Text)
    → a ≡ star_char
    → x ≢ star_char
    → Matches (a ∷ x ∷ p) (c ∷ s)
    → Matches (a ∷ p) s
drop_one s e n (one h d) = absurd (h.0 e)
drop_one s e n (skip _ d) = skip e (one_inv n d).1
drop_one [] e n (grow _ d) = absurd (n (end_inv (end_inv d).1).0)
drop_one (c ∷ s) e n (grow _ d) = grow e (drop_one s e n d)

pub stars→Matches : (p : Text) → is_empty (skip_stars p) ≡ true → Matches p []
unfolding skip_stars
stars→Matches [] h = empty
stars→Matches (a ∷ p) h = skip (ground arith) (stars→Matches p (ground arith))

pub Matches→stars : {p : Text} → Matches p [] → is_empty (skip_stars p) ≡ true
unfolding skip_stars
Matches→stars empty = refl
Matches→stars (skip {a = a} e d) = ground (arith, Matches→stars d)
