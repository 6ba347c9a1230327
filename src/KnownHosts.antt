-- ===== src/KnownHosts.antt =====
-- Tern's own `known_hosts` file: crates/core-ssh/src/known_hosts.rs.
pub mod File
pub mod Lines
pub mod Learn
pub mod Remove
pub mod Import
pub mod Verdict
use tern.Prelude.{
  ℕ, ◌+◌, Bool, true, false, ◌||◌, not, Option, none, some, List, [], ◌∷◌, ◌++◌, Text, codes, ◌==◌,
  nat_eq, list_eq, nat_beq, if◌then◌else◌, is_empty, trim, lines, number_text, ends_with,
  split_whitespace, take, contains, Result, ok, err, ◌>>=◌, ok_or, PartialEq,
}
use tern.Glob
use tern.Glob.Patterns.{pattern_list}

pub data HostPatterns : Type 0 where
  patterns : List Text → HostPatterns
  hashed_name : Text → Text → HostPatterns

pub data Marker : Type 0 where
  revoked cert_authority : Marker

-- `known_hosts::Entry` of the crate `ssh-key`, over its type of public keys.
pub record Entry (K : Type 0) : Type 0 where
  pub host_patterns : HostPatterns
  pub marker : Option Marker
  pub public_key : K

-- What the file calls of `ssh-key`, `hmac`, `sha1` and `base64ct`.
pub record SshKeys (K : Type 0) : Type 0 where
  pub algorithm : K → Text
  pub same_key_data : K → K → Bool
  pub fingerprint : K → Text
  pub to_openssh : K → Option Text
  pub parse : Text → Option (Entry K)
  pub patterns_text : HostPatterns → Text
  pub hmac_sha1 : Text → Text → Text
  pub base64 : Text → Text

pub data HostKeyVerdict : Type 0 where
  trusted : HostKeyVerdict
  unknown : HostKeyVerdict
  changed : ℕ → Text → Text → HostKeyVerdict
  revoked_at : ℕ → HostKeyVerdict

pub data KnownHostsError : Type 0 where
  io : KnownHostsError
  encode : KnownHostsError

-- The copy of the matcher in this file: its text is that of parse.rs, word for word.
unfoldable pub glob_match : Text → Text → Bool
glob_match pattern value = Glob.glob_match pattern value

unfoldable pub match_target : Text → ℕ → Text
match_target host port =
    if nat_beq port 22 then host else codes "[" ++ (host ++ (codes "]:" ++ number_text port))

-- `starts_with('#')`
pub is_comment : Text → Bool
is_comment [] = false
is_comment (c ∷ s) = nat_beq c b'#'

-- `trimmed.is_empty() || trimmed.starts_with('#')`
unfoldable pub is_skipped : Text → Bool
unfolding is_comment
is_skipped trimmed = is_empty trimmed || is_comment trimmed

-- Does a pattern fit the target or the bare host?
abbrev pub hits : Text → Text → Text → Bool
hits target host pattern = glob_match pattern target || glob_match pattern host

-- A conflict is recorded only if there was none: `changed.is_none()`.
abbrev pub keep_first : Option HostKeyVerdict → HostKeyVerdict → Option HostKeyVerdict
keep_first none v = some v
keep_first (some w) v = some w

-- What one round of the loop of `verify` does.
pub data Judgement : Type 0 where
  decide : HostKeyVerdict → Judgement
  carry_on : Option HostKeyVerdict → Judgement

module _ {K : Type 0} (lib : SshKeys K) where
  unfoldable pub parse_entry : Text → Option (Entry K)
  unfolding is_skipped
  parse_entry line = if is_skipped (trim line) then none else lib.parse (trim line)

  -- The entries of lines that stand from `line` on, each with its line.
  unfoldable pub number_entries : ℕ → List Text → List (ℕ × Entry K)
  number_entries line [] = []
  number_entries line (l ∷ ls) =
      let rest = number_entries (line + 1) ls in
      elim (parse_entry l) [ none ↦ rest | some e ↦ (line, e) ∷ rest ]

  unfoldable pub parsed_entries : Text → List (ℕ × Entry K)
  unfolding number_entries
  parsed_entries contents = number_entries 1 (lines contents)

  unfoldable pub patterns_match : HostPatterns → Text → Text → Bool
  patterns_match (hashed_name salt hash) target host = lib.hmac_sha1 salt target == hash
  patterns_match (patterns list) target host = pattern_list (hits target host) false list

  -- A matching entry without a marker, against the offered key.
  pub judge_plain : K → Option HostKeyVerdict → ℕ → Entry K → Judgement
  judge_plain key found line e =
      if lib.same_key_data e.public_key key
      then decide trusted
      else if lib.algorithm e.public_key == lib.algorithm key
      then carry_on (
          keep_first found
            (changed line (lib.algorithm e.public_key) (lib.fingerprint e.public_key)))
      else carry_on found

  -- `match entry.marker()`, and what follows it.
  pub judge_marked : Option Marker → K → Option HostKeyVerdict → ℕ → Entry K → Judgement
  unfolding judge_plain
  judge_marked (some revoked) key found line e = decide (revoked_at line)
  judge_marked (some cert_authority) key found line e = carry_on found
  judge_marked none key found line e = judge_plain key found line e

  -- The body of the loop of `verify`; `found` is the variable `changed`.
  pub judge : Text → Text → K → Option HostKeyVerdict → ℕ → Entry K → Judgement
  unfolding judge_marked
  judge target host key found line e =
      if patterns_match e.host_patterns target host
      then judge_marked e.marker key found line e
      else carry_on found

  unfoldable pub verify_entries :
      Text → Text → K → Option HostKeyVerdict → List (ℕ × Entry K) → HostKeyVerdict
  unfolding judge
  verify_entries target host key found [] = elim found [ none ↦ unknown | some v ↦ v ]
  verify_entries target host key found ((line, e) ∷ es) =
      elim (judge target host key found line e) [
        | decide v ↦ v
        | carry_on found' ↦ verify_entries target host key found' es
      ]

  -- The verdict on the contents of the file.
  unfoldable pub verify_contents : Text → Text → ℕ → K → HostKeyVerdict
  unfolding verify_entries parsed_entries match_target
  verify_contents contents host port key =
      verify_entries (match_target host port) host key none (parsed_entries contents)
