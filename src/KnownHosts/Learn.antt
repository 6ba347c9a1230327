-- ===== src/KnownHosts/Learn.antt =====
-- `learn`: crates/core-ssh/src/known_hosts.rs.
pub mod Trusted
use tern.Prelude.{
  ℕ, ◌+◌, Bool, true, false, ◌&&◌, ◌||◌, not, Option, none, some, List, [], ◌∷◌, ◌++◌, Text, codes,
  list_eq, nat_eq, nat_beq, if◌then◌else◌, is_empty, trim, lines, ends_with, split_whitespace, take,
  contains, Result, ok, err, ◌>>=◌, ok_or, filter_map, newline,
}
use tern.KnownHosts.{
  HostPatterns, patterns, hashed_name, Marker, revoked, cert_authority, Entry, SshKeys,
  HostKeyVerdict, KnownHostsError, io, encode, match_target, parse_entry, parsed_entries,
  patterns_match, verify_contents, is_skipped,
}
use tern.KnownHosts.File.{Faults, Disk, read, make_dir, needs_newline, ended, append, overwrite}

-- From the reading of the file on.
unfoldable pub learn_in : Faults → Disk → Text → Result KnownHostsError (Unit {0}) × Disk
unfolding append read needs_newline
learn_in faults disk line = elim (read faults disk) [
  | err e ↦ (err e, disk)
  | ok existing ↦
      append faults disk existing (if needs_newline existing then newline ∷ line else line)
]

pub first_two : List Text → Option Text
first_two (alg ∷ body ∷ fields) = some (alg ++ (codes " " ++ body))
first_two _ = none

module _ {K : Type 0} (lib : SshKeys K) where
  -- `salt` is what `getrandom::fill` gives, if it does not fail.
  unfoldable pub hash_pattern : Option Text → Text → Text
  hash_pattern none target = target
  hash_pattern (some salt) target =
      codes "|1|" ++ (lib.base64 salt ++ (codes "|" ++ lib.base64 (lib.hmac_sha1 salt target)))

  unfoldable pub openssh_key_part : K → Result KnownHostsError Text
  unfolding first_two
  openssh_key_part key = do
    line ← ok_or encode (lib.to_openssh key)
    ok_or encode (first_two (split_whitespace line))

  -- The line that `learn` writes, with the newline before it that the file may lack.
  unfoldable pub learned_line : Bool → Option Text → Text → ℕ → Text → Text
  unfolding hash_pattern
  learned_line hashed salt host port key_part =
      let target = match_target host port in
      (if hashed then hash_pattern salt target else target)
      ++ (codes " " ++ (key_part ++ newline ∷ []))

  unfoldable pub learn :
      Faults → Disk → Option Text → Text → ℕ → K → Bool → Result KnownHostsError (Unit {0}) × Disk
  unfolding learn_in make_dir
  learn faults disk salt host port key hashed = elim (openssh_key_part key) [
    | err e ↦ (err e, disk)
    | ok key_part ↦ elim (make_dir faults disk) [
      | err e ↦ (err e, disk)
      | ok disk' ↦ learn_in faults disk' (learned_line hashed salt host port key_part)
    ]
  ]
