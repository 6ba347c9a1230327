-- ===== src/SshConfig/Parse/Absorb/Once.antt =====
-- No file is read twice: the visit set of `parse_into` in crates/core-store/src/ssh_config/parse.rs.
use tern.Prelude.{
  ℕ, Option, none, some, List, ◌∷◌, Text, nat_eq, list_eq, PartialEq, contains, if◌then◌else◌,
}
use tern.SshConfig.Lex.{tokenize}
use tern.SshConfig.Parse.{include_cycle}
use tern.SshConfig.Parse.Absorb.{Files, State, warn, absorb, parse_into}
use tern.SshConfig.Parse.Absorb.Grows.{Grows}

module _ {P : Type 0} ⦃e : PartialEq P⦄ (fs : Files P) (read : P → Option Text)
    (start : List P) where
  -- The same files, but for what is read of them.
  abbrev reread : Files P
  reread = record fs { read = read }

-- Parsing a file when the files that it includes are parsed with other contents.
abbrev pub parse_with :
    {P : Type 0} ⦃e : PartialEq P⦄ → Files P → (read : P → Option Text) → ℕ → P → State P → State P
parse_with fs read left path s =
    if contains s.visited (fs.canonical path)
    then record s { cfg = warn s.cfg (include_cycle (fs.display path) 0) }
    else elim (fs.read path) [
      | none ↦ record s { visited = fs.canonical path ∷ s.visited }
      | some text ↦
          absorb (record fs { read = read }) (parse_into (record fs { read = read }) left)
            (tokenize fs.to_lowercase text) (fs.display path) (fs.parent path)
            (record s { visited = fs.canonical path ∷ s.visited })
    ]
