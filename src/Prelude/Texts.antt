-- ===== src/Prelude/Texts.antt =====
-- Strings as lists of code points, with the operations of `str` that the code calls.
use Prim.Native.Nat.{ℕ, zero, suc, ◌+◌, ◌-◌, ◌*◌, ◌/◌, ◌%◌}
use Prim.Native.Char.{code}
use Prim.Native.String.{String}
use mathlib.Core.Path.{◌≡◌, refl, ap₂}
use mathlib.Core.Bool.{Bool, true, false, ◌&&◌, ◌||◌}
use mathlib.Core.Logic.{◌↔◌}
use mathlib.Core.List.{List, [], ◌∷◌, ◌++◌, reverse}
use mathlib.Core.Option.{Option, none, some}
use native.Mathlib.Omega.{arith}
use tern.Prelude.Tests.{ltb, leb, nat_beq, if◌then◌else◌, PartialEq}

abbrev pub Text : Type 0
Text = List ℕ

abbrev pub newline : ℕ
newline = 10

-- The code points of a literal.
abbrev pub codes : String → Text
codes String.[] = []
codes (String.◌∷◌ c s) = code c ∷ codes s

-- `==` of lists, element by element.
module _ {ℓ} {A : Type ℓ} ⦃e : PartialEq A⦄ where
  abbrev pub list_beq : List A → List A → Bool
  list_beq [] [] = true
  list_beq [] (y ∷ ys) = false
  list_beq (x ∷ xs) [] = false
  list_beq (x ∷ xs) (y ∷ ys) = e.eq x y && list_beq xs ys

  pub list_beq_sound : (xs ys : List A) → list_beq xs ys ≡ true → xs ≡ ys
  list_beq_sound [] [] h = refl
  list_beq_sound [] (y ∷ ys) h = cc
  list_beq_sound (x ∷ xs) [] h = cc
  list_beq_sound (x ∷ xs) (y ∷ ys) h =
      ap₂ ◌∷◌ ((e.eq_iff x y).0 (ground arith)) (list_beq_sound xs ys (ground arith))

  pub list_beq_refl : (xs : List A) → list_beq xs xs ≡ true
  list_beq_refl [] = refl
  list_beq_refl (x ∷ xs) = rw ((e.eq_iff x x).1 refl) (list_beq_refl xs)

  pub list_beq_iff : (xs ys : List A) → (list_beq xs ys ≡ true) ↔ (xs ≡ ys)
  list_beq_iff xs ys = (list_beq_sound xs ys, λ p. rw p (list_beq_refl ys))

instance abbrev pub list_eq {ℓ} : {A : Type ℓ} ⦃e : PartialEq A⦄ → PartialEq (List A)
list_eq ⦃e⦄ = record { eq = list_beq; eq_iff = list_beq_iff }

-- `str::is_whitespace`: the code points with the property White_Space.
unfoldable pub is_whitespace : ℕ → Bool
is_whitespace c =
    (leb 9 c && leb c 13)
    || nat_beq c 32
    || nat_beq c 133
    || nat_beq c 160
    || nat_beq c 5760
    || (leb 8192 c && leb c 8202)
    || nat_beq c 8232
    || nat_beq c 8233
    || nat_beq c 8239
    || nat_beq c 8287
    || nat_beq c 12288

unfoldable pub trim_start : Text → Text
unfolding is_whitespace
trim_start [] = []
trim_start (c ∷ s) = let rest = trim_start s in if is_whitespace c then rest else c ∷ s

unfoldable pub trim_end : Text → Text
unfolding trim_start is_whitespace
trim_end s = reverse (trim_start (reverse s))

unfoldable pub trim : Text → Text
unfolding trim_end
trim s = trim_end (trim_start s)

-- `str::split_whitespace`: the runs of other characters.
close_field : Text → List Text → List Text
close_field [] fs = fs
close_field (c ∷ t) fs = reverse (c ∷ t) ∷ fs

-- `field` is the run read so far, in reverse.
fields_from : Text → Text → List Text
unfolding close_field
fields_from field [] = close_field field []
fields_from field (c ∷ s) =
    let here = fields_from (c ∷ field) s in
    let next = fields_from [] s in if is_whitespace c then close_field field next else here

unfoldable pub split_whitespace : Text → List Text
unfolding fields_from is_whitespace
split_whitespace s = fields_from [] s

-- `str::ends_with` at one character.
unfoldable pub ends_with : ℕ → Text → Bool
ends_with c [] = false
ends_with c (x ∷ []) = nat_beq x c
ends_with c (x ∷ y ∷ s) = ends_with c (y ∷ s)

-- Lower case as the NOCASE of SQLite takes it: that of ASCII, other code points are left as they are.
unfoldable pub to_ascii_lowercase : Text → Text
to_ascii_lowercase [] = []
to_ascii_lowercase (c ∷ s) = (if leb 65 c && leb c 90 then c + 32 else c) ∷ to_ascii_lowercase s

-- `str::strip_prefix` by one code point and by a text.
unfoldable pub strip_char : ℕ → Text → Option Text
strip_char p [] = none
strip_char p (c ∷ s) = if nat_beq c p then some s else none

unfoldable pub strip_prefix : Text → Text → Option Text
strip_prefix [] s = some s
strip_prefix (p ∷ ps) [] = none
strip_prefix (p ∷ ps) (c ∷ s) = let rest = strip_prefix ps s in if nat_beq c p then rest else none

-- `[T]::join`.
unfoldable pub join : Text → List Text → Text
join sep [] = []
join sep (t ∷ []) = t
join sep (t ∷ u ∷ ts) = t ++ (sep ++ join sep (u ∷ ts))

-- `str::split` at one code point: always at least one piece.
cons_first : ℕ → List Text → List Text
cons_first c [] = (c ∷ []) ∷ []
cons_first c (t ∷ ts) = (c ∷ t) ∷ ts

unfoldable pub split : ℕ → Text → List Text
unfolding cons_first
split sep [] = [] ∷ []
split sep (c ∷ s) = let rest = split sep s in if nat_beq c sep then [] ∷ rest else cons_first c rest

-- `str::lines`: pieces that end in `\n`, which is taken off together with a `\r` before it. What
-- follows the last `\n` is a line only if it is not empty, and keeps a `\r` at its end.
unfoldable pub chomp : Text → Text
chomp [] = []
chomp (c ∷ []) = if nat_beq c 13 then [] else c ∷ []
chomp (c ∷ d ∷ s) = c ∷ chomp (d ∷ s)

last_line : Text → List Text
last_line [] = []
last_line (c ∷ t) = reverse (c ∷ t) ∷ []

-- `line` is the line read so far, in reverse.
unfoldable pub lines_from : Text → Text → List Text
unfolding last_line
lines_from line [] = last_line line
lines_from line (c ∷ s) =
    let next = lines_from [] s in
    let here = lines_from (c ∷ line) s in
    if nat_beq c newline then chomp (reverse line) ∷ next else here

unfoldable pub lines : Text → List Text
unfolding lines_from
lines s = lines_from [] s

-- `str::parse` into an unsigned type whose largest value is `max`: one `+` may lead, then at least
-- one ASCII digit.
digits : ℕ → ℕ → Text → Option ℕ
digits max n [] = some n
digits max n (c ∷ s) =
    let m = n * 10 + (c - 48) in
    let rest = digits max m s in if leb 48 c && leb c 57 && leb m max then rest else none

unsigned : ℕ → Text → Option ℕ
unfolding digits
unsigned max [] = none
unsigned max (c ∷ s) = digits max 0 (c ∷ s)

unfoldable pub parse_unsigned : ℕ → Text → Option ℕ
unfolding unsigned strip_char
parse_unsigned max s = elim (strip_char b'+' s) [ none ↦ unsigned max s | some t ↦ unsigned max t ]

-- `to_string` of an unsigned number.
to_digits : ℕ → ℕ → Text → Text
to_digits zero n acc = acc
to_digits (suc f) n acc =
    let rest = to_digits f (n / 10) ((48 + n % 10) ∷ acc) in
    if ltb n 10 then (48 + n) ∷ acc else rest

unfoldable pub number_text : ℕ → Text
unfolding to_digits
number_text n = to_digits (n + 1) n []
