-- ===== src/KnownHosts/Remove.antt =====
-- `remove`: crates/core-ssh/src/known_hosts.rs.
pub mod Forgotten
use tern.Prelude.{
  ℕ, ◌+◌, Bool, true, false, ◌&&◌, ◌||◌, not, Option, none, some, List, [], ◌∷◌, ◌++◌, Text, codes,
  list_eq, nat_eq, nat_beq, if◌then◌else◌, is_empty, trim, lines, ends_with, split_whitespace, take,
  contains, Result, ok, err, ◌>>=◌, ok_or, filter_map, newline,
}
use tern.KnownHosts.{
  HostPatterns, patterns, hashed_name, Marker, revoked, cert_authority, Entry, SshKeys,
  HostKeyVerdict, KnownHostsError, io, encode, match_target, parse_entry, parsed_entries,
  patterns_match, verify_contents, is_skipped,
}
use tern.KnownHosts.File.{Faults, Disk, read, make_dir, needs_newline, ended, append, overwrite}

module _ {K : Type 0} (lib : SshKeys K) where
  -- Does the line hold an entry that names the host?
  pub line_matches : Text → Text → Text → Bool
  line_matches target host line = elim (parse_entry lib line) [
    | none ↦ false
    | some e ↦ patterns_match lib e.host_patterns target host
  ]

  -- The loop of `remove`: the text that is kept, and how many lines are not.
  unfoldable pub keep_lines : Text → Text → List Text → Text × ℕ
  keep_lines target host [] = ([], 0)
  keep_lines target host (l ∷ ls) =
      let (kept, removed) = keep_lines target host ls in
      if line_matches target host l then (kept, removed + 1) else (l ++ (newline ∷ kept), removed)

  -- Nothing is written if no line matched.
  unfoldable pub write_kept : Faults → Disk → Text × ℕ → Result KnownHostsError ℕ × Disk
  unfolding overwrite
  write_kept faults disk (kept, removed) =
      if nat_beq removed 0
      then (ok 0, disk)
      else let (r, disk') = overwrite faults disk kept in (r >>= λ _. ok removed, disk')

  unfoldable pub remove : Faults → Disk → Text → ℕ → Result KnownHostsError ℕ × Disk
  unfolding read write_kept
  remove faults disk host port = elim (read faults disk) [
    | err e ↦ (err e, disk)
    | ok contents ↦
        write_kept faults disk (keep_lines (match_target host port) host (lines contents))
  ]
