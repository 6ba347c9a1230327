-- ===== src/Prelude/Lines.antt =====
-- How `str::lines` and `str::trim` act on a text that is put together of lines.
use Prim.Native.Nat.{ℕ}
use mathlib.Core.Path.{◌≡◌, refl, ap, sym, ◌∙◌}
use mathlib.Core.Bool.{true, false}
use mathlib.Core.Logic.{◌≢◌, ◌⊎◌, inl, inr}
use mathlib.Core.List.{
  [], ◌∷◌, ◌++◌, reverse, reverse-append, reverse-cons, append_assoc, append-nil,
}
use native.Mathlib.Omega.{arith}
use tern.Prelude.Tests.{nat_beq, Bool-cases, nat_beq_iff}
use tern.Prelude.Lists.{All}
use tern.Prelude.Texts.{
  Text, newline, lines, lines_from, chomp, trim, trim_start, trim_end, is_whitespace, ends_with,
}

-- A line holds no newline.
abbrev pub IsLine : Text → Type 0
IsLine t = All (λ c. c ≢ newline) t

abbrev IsNil : Text → Type 0
IsNil [] = Unit
IsNil (x ∷ line) = ⊥

-- After a line that has been read up to `line` the text ends in a newline, or there is neither.
unfoldable pub Ended : Text → Text → Type 0
Ended line [] = IsNil line
Ended line (c ∷ s) = elim (nat_beq c newline) [ true ↦ Ended [] s | false ↦ Ended (c ∷ line) s ]

module _ (c : ℕ) (line s : Text) where
  Ended-newline : nat_beq c newline ≡ true → Ended line (c ∷ s) → Ended [] s
  unfolding Ended
  Ended-newline e h = rw (e, Ended) at h

  Ended-other : nat_beq c newline ≡ false → Ended line (c ∷ s) → Ended (c ∷ line) s
  unfolding Ended
  Ended-other e h = rw (e, Ended) at h

  pub lines_from-newline :
      nat_beq c newline ≡ true → lines_from line (c ∷ s) ≡ chomp (reverse line) ∷ lines_from [] s
  unfolding lines_from
  lines_from-newline e = rw e

  pub lines_from-other :
      nat_beq c newline ≡ false → lines_from line (c ∷ s) ≡ lines_from (c ∷ line) s
  unfolding lines_from
  lines_from-other e = rw e

-- The lines of a text that begins with complete ones.
lines_from-append :
    (line s t : Text)
    → Ended line s
    → lines_from line (s ++ t) ≡ lines_from line s ++ lines_from [] t
unfolding Ended lines_from
lines_from-append [] [] t h = refl
lines_from-append (x ∷ line) [] t h = absurd h
lines_from-append line (c ∷ s) t h = elim (Bool-cases (nat_beq c newline)) [
  | inl e ↦
      rw (lines_from-newline c line (s ++ t) e, lines_from-newline c line s e)
        (ap (λ r. chomp (reverse line) ∷ r) (lines_from-append [] s t (Ended-newline c line s e h)))
  | inr e ↦
      rw (lines_from-other c line (s ++ t) e, lines_from-other c line s e)
        (lines_from-append (c ∷ line) s t (Ended-other c line s e h))
]

pub lines-append : (s t : Text) → Ended [] s → lines (s ++ t) ≡ lines s ++ lines t
unfolding lines
lines-append s t h = lines_from-append [] s t h

-- One line and its newline.
lines_from-line :
    (line l t : Text)
    → IsLine l
    → lines_from line (l ++ newline ∷ t) ≡ chomp (reverse line ++ l) ∷ lines_from [] t
lines_from-line line [] t h =
    lines_from-newline newline line t refl
    ∙ ap (λ r. chomp r ∷ lines_from [] t) (sym (append-nil _))
lines_from-line line (c ∷ l) t (n, h) =
    lines_from-other c line (l ++ newline ∷ t) (not_newline n)
    ∙ (lines_from-line (c ∷ line) l t h
        ∙ ap (λ r. chomp r ∷ lines_from [] t)
            (rw (reverse-append (c ∷ []) line) (append_assoc (reverse line) (c ∷ []) l)))
  where
    not_newline : c ≢ newline → nat_beq c newline ≡ false
    not_newline n = ground arith

pub lines-line : (l t : Text) → IsLine l → lines (l ++ newline ∷ t) ≡ chomp l ∷ lines t
unfolding lines
lines-line l t h = lines_from-line [] l t h

-- A text is ended by a newline that is put behind it, or by its own.
pub Ended-append : (line s : Text) → Ended line (s ++ newline ∷ [])
unfolding Ended
Ended-append line [] = tt
Ended-append line (c ∷ s) = elim (Bool-cases (nat_beq c newline)) [
  | inl e ↦ rw (e, Ended) (Ended-append [] s)
  | inr e ↦ rw (e, Ended) (Ended-append (c ∷ line) s)
]

pub Ended-ends_with : (line s : Text) → ends_with newline s ≡ true → Ended line s
unfolding Ended ends_with
Ended-ends_with line [] h = cc
Ended-ends_with line (x ∷ []) h = rw (h, Ended) tt
Ended-ends_with line (x ∷ y ∷ s) h = elim (Bool-cases (nat_beq x newline)) [
  | inl e ↦ rw (e, Ended) (Ended-ends_with [] (y ∷ s) h)
  | inr e ↦ rw (e, Ended) (Ended-ends_with (x ∷ line) (y ∷ s) h)
]

-- Trimming a line does not see the `\\r` that `lines` takes off.
abbrev return : ℕ
return = 13

chomp_cases : (l : Text) → (chomp l ≡ l) ⊎ ((m : Text) × (l ≡ m ++ return ∷ []) × (chomp l ≡ m))
unfolding chomp
chomp_cases [] = inl refl
chomp_cases (c ∷ []) = elim (Bool-cases (nat_beq c return)) [
  | inl e ↦ inr ([], ap (λ x. x ∷ []) ((nat_beq_iff c return).0 e), rw e)
  | inr e ↦ inl (rw e)
]
chomp_cases (c ∷ d ∷ s) = elim (chomp_cases (d ∷ s)) [
  | inl e ↦ inl (ap (λ t. c ∷ t) e)
  | inr (m, e, f) ↦ inr (c ∷ m, ap (λ t. c ∷ t) e, ap (λ t. c ∷ t) f)
]

trim_end-return : (m : Text) → trim_end (m ++ return ∷ []) ≡ trim_end m
unfolding trim_end trim_start
trim_end-return m = rw (reverse-append m (return ∷ []))

trim_end-chomp : (l : Text) → trim_end (chomp l) ≡ trim_end l
trim_end-chomp l = elim (chomp_cases l) [
  | inl e ↦ ap trim_end e
  | inr (m, e, f) ↦ ap trim_end f ∙ (sym (trim_end-return m) ∙ ap trim_end (sym e))
]

trim_start-chomp : (l : Text) → trim_start (chomp l) ≡ chomp (trim_start l)
unfolding trim_start chomp
trim_start-chomp [] = refl
trim_start-chomp (c ∷ []) = elim (Bool-cases (nat_beq c return)) [
  | inl e ↦ rw ((nat_beq_iff c return).0 e)
  | inr e ↦ elim (Bool-cases (is_whitespace c)) [ inl w ↦ rw (e, w) | inr w ↦ rw (w, e, w) ]
]
trim_start-chomp (c ∷ d ∷ s) = elim (Bool-cases (is_whitespace c)) [
  | inl e ↦ rw e (trim_start-chomp (d ∷ s))
  | inr e ↦ rw e
]

pub trim-chomp : (l : Text) → trim (chomp l) ≡ trim l
unfolding trim
trim-chomp l = ap trim_end (trim_start-chomp l) ∙ trim_end-chomp (trim_start l)

-- Each of the lines is one, without a newline.
IsLine-append : (s t : Text) → IsLine s → IsLine t → IsLine (s ++ t)
IsLine-append [] t h k = k
IsLine-append (c ∷ s) t (n, h) k = (n, IsLine-append s t h k)

IsLine-reverse : (s : Text) → IsLine s → IsLine (reverse s)
IsLine-reverse [] h = tt
IsLine-reverse (c ∷ s) (n, h) =
    rw (reverse-cons c s) (IsLine-append (reverse s) (c ∷ []) (IsLine-reverse s h) (n, tt))

IsLine-chomp : (s : Text) → IsLine s → IsLine (chomp s)
unfolding chomp
IsLine-chomp [] h = tt
IsLine-chomp (c ∷ []) h = elim (Bool-cases (nat_beq c return)) [ inl e ↦ rw e tt | inr e ↦ rw e h ]
IsLine-chomp (c ∷ d ∷ s) (n, h) = (n, IsLine-chomp (d ∷ s) h)

lines_from-IsLine : (line s : Text) → IsLine line → All IsLine (lines_from line s)
unfolding lines_from
lines_from-IsLine [] [] h = tt
lines_from-IsLine (c ∷ line) [] h = (IsLine-reverse (c ∷ line) h, tt)
lines_from-IsLine line (c ∷ s) h = elim (Bool-cases (nat_beq c newline)) [
  | inl e ↦
      rw (lines_from-newline c line s e)
        (IsLine-chomp (reverse line) (IsLine-reverse line h), lines_from-IsLine [] s tt)
  | inr e ↦ rw (lines_from-other c line s e) (lines_from-IsLine (c ∷ line) s (other_char e, h))
]
  where
    other_char : nat_beq c newline ≡ false → c ≢ newline
    other_char e = ground arith

pub lines-IsLine : (s : Text) → All IsLine (lines s)
unfolding lines
lines-IsLine s = lines_from-IsLine [] s tt

pub lines-nil : lines [] ≡ []
unfolding lines
lines-nil = refl
