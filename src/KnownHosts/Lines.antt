-- ===== src/KnownHosts/Lines.antt =====
-- The entries of a `known_hosts` text that is put together of lines.
use tern.Prelude.{
  inl, inr, ℕ, ◌+◌, ◌≡◌, refl, ap, ◌∙◌, none, List, [], ◌∷◌, ◌++◌, Text, newline, nat_beq,
  Bool-cases, reverse, Ended, Ended-append, Ended-ends_with, lines, lines_from, lines-append,
  lines_from-newline, lines_from-other, chomp, trim, trim-chomp, length, ends_with, arith,
}
use tern.KnownHosts.{SshKeys, parse_entry, number_entries, parsed_entries}
use tern.KnownHosts.File.{ended, needs_newline}

pub ended-Ended : (s : Text) → Ended [] (ended s)
unfolding ended needs_newline Ended
ended-Ended [] = tt
ended-Ended (c ∷ s) = elim (Bool-cases (ends_with newline (c ∷ s))) [
  | inl e ↦ rw e (Ended-ends_with [] (c ∷ s) e)
  | inr e ↦ rw e (Ended-append [] (c ∷ s))
]

module _ {K : Type 0} (lib : SshKeys K) where
  pub parse_entry-chomp : (l : Text) → parse_entry lib (chomp l) ≡ parse_entry lib l
  unfolding parse_entry
  parse_entry-chomp l = rw (trim-chomp l)

  parse_entry-nil : parse_entry lib [] ≡ none
  unfolding parse_entry trim
  parse_entry-nil = refl

  number_entries-nil : (n : ℕ) → number_entries lib n ([] ∷ []) ≡ number_entries lib n []
  unfolding number_entries
  number_entries-nil n = rw (number_entries, parse_entry-nil)

  -- Two lines with one entry count alike.
  number_entries-cons :
      (n : ℕ) (l m : Text) (ls ms : List Text)
      → parse_entry lib l ≡ parse_entry lib m
      → number_entries lib (n + 1) ls ≡ number_entries lib (n + 1) ms
      → number_entries lib n (l ∷ ls) ≡ number_entries lib n (m ∷ ms)
  unfolding number_entries
  number_entries-cons n l m ls ms e f = ground arith

  pub number_entries-append :
      (n : ℕ) (ls ms : List Text)
      → number_entries lib n (ls ++ ms)
        ≡ number_entries lib n ls ++ number_entries lib (n + length ls) ms
  unfolding number_entries
  number_entries-append n [] ms = ap (λ k. number_entries lib k ms) (omega arith)
  number_entries-append n (l ∷ ls) ms = ground (arith, number_entries-append (n + 1) ls ms)

  -- A newline behind the last line, where it lacks one, changes no entry.
  number_entries-ended :
      (n : ℕ) (line s : Text)
      → number_entries lib n (lines_from line (s ++ newline ∷ []))
        ≡ number_entries lib n (lines_from line s)
  unfolding lines_from chomp
  number_entries-ended n [] [] = number_entries-nil n
  number_entries-ended n (x ∷ line) [] =
      number_entries-cons n _ (reverse (x ∷ line)) [] [] (parse_entry-chomp _) refl
  number_entries-ended n line (c ∷ s) = elim (Bool-cases (nat_beq c newline)) [
    | inl e ↦
        rw (lines_from-newline c line (s ++ newline ∷ []) e, lines_from-newline c line s e)
          (number_entries-cons n _ (chomp (reverse line)) _ (lines_from [] s) refl
            (number_entries-ended (n + 1) [] s))
    | inr e ↦
        rw (lines_from-other c line (s ++ newline ∷ []) e, lines_from-other c line s e)
          (number_entries-ended n (c ∷ line) s)
  ]

  pub parsed_entries-ended : (s : Text) → parsed_entries lib (ended s) ≡ parsed_entries lib s
  unfolding parsed_entries ended lines
  parsed_entries-ended s = elim (Bool-cases (needs_newline s)) [
    | inl e ↦ rw e (number_entries-ended 1 [] s)
    | inr e ↦ rw e
  ]

  -- The entries of a text with more lines behind it keep their numbers.
  pub parsed_entries-append :
      (s t : Text)
      → parsed_entries lib (ended s ++ t)
        ≡ parsed_entries lib s ++ number_entries lib (1 + length (lines (ended s))) (lines t)
  unfolding parsed_entries
  parsed_entries-append s t = rw (lines-append (ended s) t (ended-Ended s)) (
      number_entries-append 1 (lines (ended s)) (lines t)
      ∙ ap (λ es. es ++ number_entries lib (1 + length (lines (ended s))) (lines t))
          (parsed_entries-ended s))
