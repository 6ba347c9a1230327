-- ===== src/Glob/Moves.antt =====
-- The moves that a round of the matcher's loop can make.
use tern.Prelude.{
  ℕ, ◌+◌, ◌≡◌, ◌≢◌, ◌⊎◌, inl, inr, refl, Option, none, some, Text, get_elem?, arith, Bool-cases,
  ◌||◌, nat_beq,
}
use tern.Glob.{Cursor, star_char, any_char, round, back_up}

abbrev pub Fits : ℕ → ℕ → Type 0
Fits a c = (a ≡ any_char) ⊎ (a ≡ c)

-- The pattern at the cursor is at its end, or a character that is no star and does not fit.
abbrev pub Stuck : Text → ℕ → ℕ → Type 0
Stuck p i c = (a : ℕ) → get_elem? p i ≡ some a → (a ≢ star_char) × ¬ Fits a c

pub data Move (p : Text) (k : Cursor) (c : ℕ) : Option Cursor → Type 0 where
  took :
      (a : ℕ)
      → get_elem? p k.pi ≡ some a
      → Fits a c
      → Move p k c (some (record k { pi = k.pi + 1; vi = k.vi + 1 }))
  opened :
      get_elem? p k.pi ≡ some star_char
      → Move p k c (some (record k { pi = k.pi + 1; star = some k.pi; resume = k.vi }))
  backed :
      (s : ℕ)
      → k.star ≡ some s
      → Stuck p k.pi c
      → Move p k c
          (some (record { pi = s + 1; vi = k.resume + 1; star = some s; resume = k.resume + 1 }))
  failed : k.star ≡ none → Stuck p k.pi c → Move p k c none

abbrev at : ℕ → ℕ → Option ℕ → ℕ → Cursor
at i j st r = record { pi = i; vi = j; star = st; resume = r }

module _ (p : Text) (i j r c : ℕ) where
  back_up-Move : (st : Option ℕ) → Stuck p i c → Move p (at i j st r) c (back_up (at i j st r))
  unfolding back_up
  back_up-Move none n = failed refl n
  back_up-Move (some s) n = backed s refl n

  round-Move-at :
      (st o : Option ℕ) → get_elem? p i ≡ o → Move p (at i j st r) c (round p (at i j st r) c)
  unfolding round
  round-Move-at st none e = rw e (back_up-Move st (λ a h. cc))
  round-Move-at st (some a) e = elim (Bool-cases (nat_beq a any_char || nat_beq a c)) [
    | inl fits ↦ rw (e, fits) (took a e (ground arith))
    | inr misfit ↦ elim (Bool-cases (nat_beq a star_char)) [
      | inl is ↦ rw (e, misfit, is) (opened (ground arith))
      | inr other ↦ rw (e, misfit, other) (back_up-Move st (λ b h. ground arith))
    ]
  ]

pub round-Move : (p : Text) (k : Cursor) (c : ℕ) → Move p k c (round p k c)
round-Move p k c = round-Move-at p k.pi k.vi k.resume c k.star (get_elem? p k.pi) refl
