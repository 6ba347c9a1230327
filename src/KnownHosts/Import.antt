-- ===== src/KnownHosts/Import.antt =====
-- `import_from`: crates/core-ssh/src/known_hosts.rs.
pub mod Accounts
use tern.Prelude.{
  ℕ, ◌+◌, Bool, true, false, ◌&&◌, ◌||◌, not, Option, none, some, List, [], ◌∷◌, ◌++◌, Text, codes,
  list_eq, nat_eq, nat_beq, if◌then◌else◌, is_empty, trim, lines, ends_with, split_whitespace, take,
  contains, Result, ok, err, ◌>>=◌, ok_or, filter_map, newline,
}
use tern.KnownHosts.{
  HostPatterns, patterns, hashed_name, Marker, revoked, cert_authority, Entry, SshKeys,
  HostKeyVerdict, KnownHostsError, io, encode, match_target, parse_entry, parsed_entries,
  patterns_match, verify_contents, is_skipped,
}
use tern.KnownHosts.File.{Faults, Disk, read, make_dir, needs_newline, ended, append, overwrite}

pub record ImportReport : Type 0 where
  pub total : ℕ
  pub imported : ℕ
  pub duplicates : ℕ
  pub skipped_cert_authority : ℕ
  pub malformed : ℕ

abbrev pub no_report : ImportReport
no_report = record {
  total = 0;
  imported = 0;
  duplicates = 0;
  skipped_cert_authority = 0;
  malformed = 0;
}

-- The variables of the loop of `import_from`.
pub record Importing : Type 0 where
  pub known : List Text
  pub report : ImportReport
  pub appended : Text

-- `read_to_string(source)`.
pub data Source : Type 0 where
  not_found : Source
  unreadable : Source
  incoming : Text → Source

module _ {K : Type 0} (lib : SshKeys K) where
  unfoldable pub entry_identity : Entry K → Text
  entry_identity e =
      lib.patterns_text e.host_patterns
      ++ (codes "|" ++ (lib.algorithm e.public_key ++ (codes "|" ++ lib.fingerprint e.public_key)))

  -- The identities of the entries on file.
  unfoldable pub identities : Text → List Text
  identities existing =
      filter_map (λ l. elim (parse_entry lib l) [ none ↦ none | some e ↦ some (entry_identity e) ])
        (lines existing)

  -- An entry that is no certificate authority.
  unfoldable pub import_host : Text → Entry K → Importing → Importing
  import_host trimmed e st =
      if contains st.known (entry_identity e)
      then record st { report = record st.report { duplicates = st.report.duplicates + 1 } }
      else record st {
        known = st.known ++ entry_identity e ∷ [];
        report = record st.report { imported = st.report.imported + 1 };
        appended = st.appended ++ (trimmed ++ newline ∷ []);
      }

  unfoldable pub import_entry : Text → Option (Entry K) → Importing → Importing
  unfolding import_host
  import_entry trimmed none st = record st {
    report = record st.report { malformed = st.report.malformed + 1 };
  }
  import_entry trimmed (some e) st = elim e.marker [
    | some cert_authority ↦ record st {
      report = record st.report { skipped_cert_authority = st.report.skipped_cert_authority + 1 };
    }
    | some revoked ↦ import_host trimmed e st
    | none ↦ import_host trimmed e st
  ]

  -- The body of the loop.
  unfoldable pub import_line : Importing → Text → Importing
  unfolding import_entry is_skipped
  import_line st line =
      if is_skipped (trim line)
      then st
      else import_entry (trim line) (parse_entry lib line)
          (record st { report = record st.report { total = st.report.total + 1 } })

  unfoldable pub import_lines : Importing → List Text → Importing
  unfolding import_line
  import_lines st [] = st
  import_lines st (l ∷ ls) = import_lines (import_line st l) ls

  abbrev pub begin_import : Text → Importing
  begin_import existing = record { known = identities existing; report = no_report; appended = [] }

  -- The state after the loop.
  unfoldable pub imports : Text → Text → Importing
  unfolding import_lines
  imports existing text = import_lines (begin_import existing) (lines text)

  -- What follows the loop.
  write_in : Faults → Text → Importing → Disk → Result KnownHostsError ImportReport × Disk
  unfolding overwrite ended
  write_in faults existing st disk =
      let (r, disk') = overwrite faults disk (ended existing ++ st.appended) in
      (r >>= λ _. ok st.report, disk')

  unfoldable pub write_imports :
      Faults → Disk → Text → Importing → Result KnownHostsError ImportReport × Disk
  unfolding make_dir write_in
  write_imports faults disk existing st =
      if is_empty st.appended then (ok st.report, disk) else elim (make_dir faults disk) [
        | err e ↦ (err e, disk)
        | ok disk' ↦ write_in faults existing st disk'
      ]

  unfoldable pub import_from : Faults → Disk → Source → Result KnownHostsError ImportReport × Disk
  unfolding write_imports read imports
  import_from faults disk not_found = (ok no_report, disk)
  import_from faults disk unreadable = (err io, disk)
  import_from faults disk (incoming text) = elim (read faults disk) [
    | err e ↦ (err e, disk)
    | ok existing ↦ write_imports faults disk existing (imports existing text)
  ]
