-- ===== src/Glob.antt =====
-- Host-pattern globbing: `glob_match` of crates/core-store/src/ssh_config/parse.rs. The same body
-- stands once more in crates/core-ssh/src/known_hosts.rs.
mod Moves
pub mod Matches
pub mod Total
pub mod Sound
pub mod Complete
pub mod StarText
pub mod Patterns
use tern.Prelude.{
  ℕ, zero, suc, ◌+◌, ◌*◌, Bool, true, false, ◌||◌, Option, none, some, Text, length, get_elem?, [],
  ◌∷◌, drop, is_empty, nat_beq, if◌then◌else◌,
}

abbrev pub star_char : ℕ
star_char = b'*'

abbrev pub any_char : ℕ
any_char = b'?'

-- The variables of the loop. `star` is `none` where the code holds `usize::MAX`.
pub record Cursor : Type 0 where
  pub pi : ℕ
  pub vi : ℕ
  pub star : Option ℕ
  pub resume : ℕ

-- `pi < p.len() && (p[pi] == '?' || p[pi] == v[vi])`
pub accepts : Option ℕ → ℕ → Bool
accepts none c = false
accepts (some a) c = nat_beq a any_char || nat_beq a c

-- `pi < p.len() && p[pi] == '*'`
pub is_star : Option ℕ → Bool
is_star none = false
is_star (some a) = nat_beq a star_char

-- The branch that goes back to the last star, if there is one.
pub back_up : Cursor → Option Cursor
back_up k = elim k.star [
  | none ↦ none
  | some s ↦ some (record { pi = s + 1; vi = k.resume + 1; star = some s; resume = k.resume + 1 })
]

-- One round of `while vi < v.len()` at the character `c`: `none` is the `return false`.
pub round : Text → Cursor → ℕ → Option Cursor
unfolding accepts is_star back_up
round p k c =
    if accepts (get_elem? p k.pi) c
    then some (record k { pi = k.pi + 1; vi = k.vi + 1 })
    else if is_star (get_elem? p k.pi)
    then some (record k { pi = k.pi + 1; star = some k.pi; resume = k.vi })
    else back_up k

-- `while pi < p.len() && p[pi] == '*'`, over what is left of the pattern.
pub skip_stars : Text → Text
skip_stars [] = []
skip_stars (a ∷ p) = let rest = skip_stars p in if nat_beq a star_char then rest else a ∷ p

-- The second loop from `pi` on, and the test `pi == p.len()`.
pub at_end : Text → ℕ → Bool
unfolding skip_stars
at_end p i = is_empty (skip_stars (drop i p))

-- The next round, or `return false`.
abbrev pub go_on : (Cursor → Option Bool) → Option Cursor → Option Bool
go_on next none = some false
go_on next (some k) = next k

-- `while vi < v.len()` on fuel, and what follows it. `none` means that the fuel ran out.
unfoldable pub scan : ℕ → Text → Text → Cursor → Option Bool
unfolding round at_end
scan zero p v k = none
scan (suc f) p v k = elim (get_elem? v k.vi) [
  | none ↦ some (at_end p k.pi)
  | some c ↦ go_on (scan f p v) (round p k c)
]

abbrev pub start : Cursor
start = record { pi = 0; vi = 0; star = none; resume = 0 }

abbrev pub enough : Text → Text → ℕ
enough p v = (length v + 1) * (length p + 1)

-- The last branch stands for a scan that runs out of fuel.
unfoldable pub glob_match : Text → Text → Bool
unfolding scan
glob_match p v = elim (scan (enough p v) p v start) [ some b ↦ b | none ↦ false ]
