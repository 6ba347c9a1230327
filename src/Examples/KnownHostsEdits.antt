-- ===== src/Examples/KnownHostsEdits.antt =====
-- Learning, removing and importing hosts, with the keys of Examples/KnownHostsFile.antt.
use tern.Prelude.{
  nat_eq, contains-none, ℕ, ◌+◌, ◌≡◌, ◌≢◌, refl, Bool, true, false, Option, none, some, List, [],
  ◌∷◌, ◌++◌, Text, codes, lines, split, split_whitespace, trim, strip_char, length, filter, ok, All,
  arith, nat_beq, newline, IsLine,
}
use tern.Glob.Complete.{StarFree}
use tern.KnownHosts.{
  HostPatterns, patterns, hashed_name, Entry, trusted, unknown, match_target, parse_entry,
  parsed_entries,
}
use tern.KnownHosts.File.{no_faults, Disk, contents, verify}
use tern.KnownHosts.Learn.{learn, hash_pattern, openssh_key_part}
use tern.KnownHosts.Learn.Trusted.{ReadsBack, verify-learn_plain, verify-learn_hashed}
use tern.KnownHosts.Remove.{remove}
use tern.KnownHosts.Remove.Forgotten.{entries_in, spares, named, verify-remove}
use tern.KnownHosts.Import.{ImportReport, incoming, import_from}
use tern.KnownHosts.Import.Accounts.{counted_lines, import_from-keeps}
use tern.Trust.{HostKeyInfo, Prompting, host_key_prompt}
use tern.Trust.Accepted.{Settles, host_key_prompt-Settles}
use tern.Examples.KnownHostsFile.{Key, toy, good, host}

-- A file whose only line has no newline.
abbrev disk : Disk
disk = record { file = some (codes "other ed CC"); dir_exists = true }

abbrev key_part : Text
key_part = codes "ed AA"

good_part : openssh_key_part toy good ≡ ok key_part
unfolding openssh_key_part split_whitespace
good_part = refl

before : verify toy no_faults disk host 22 good ≡ ok unknown
unfolding verify tern.KnownHosts.verify_contents lines split split_whitespace trim
    tern.KnownHosts.patterns_match tern.Glob.Patterns.pattern_list strip_char
    tern.KnownHosts.glob_match tern.Glob.glob_match tern.KnownHosts.parse_entry tern.Prelude.chomp
before = refl

host_plain : StarFree (match_target host 22)
unfolding match_target
host_plain = contains-none (codes "host") b'*' refl

plain-IsLine : IsLine (match_target host 22 ++ (codes " " ++ key_part))
unfolding match_target
plain-IsLine = contains-none (codes "host ed AA") newline refl

reads_plain :
    ReadsBack toy
      (match_target host 22 ++ (codes " " ++ key_part))
      (patterns (match_target host 22 ∷ []))
      good
unfolding match_target parse_entry split split_whitespace trim
reads_plain = record {
  entry = record { host_patterns = patterns (host ∷ []); marker = none; public_key = good };
  is_line = plain-IsLine;
  parsed = refl;
  host_patterns = refl;
  marker = refl;
  same_key = refl;
}

no_negation : strip_char b'!' (match_target host 22) ≡ none
unfolding match_target strip_char
no_negation = refl

verify-learn_plain_example :
    ((learn toy no_faults disk none host 22 good false).0 ≡ ok tt)
    × (verify toy no_faults (learn toy no_faults disk none host 22 good false).1 host 22 good
        ≡ ok trusted)
verify-learn_plain_example =
    verify-learn_plain toy disk host 22 good none key_part reads_plain good_part host_plain
      no_negation before

abbrev salt : Text
salt = codes "s"

reads_hashed :
    ReadsBack toy
      (hash_pattern toy (some salt) (match_target host 22) ++ (codes " " ++ key_part))
      (hashed_name salt (toy.hmac_sha1 salt (match_target host 22)))
      good
unfolding match_target hash_pattern parse_entry split split_whitespace trim
reads_hashed = record {
  entry = record {
    host_patterns = hashed_name salt (codes "shost");
    marker = none;
    public_key = good;
  };
  is_line = contains-none (codes "|1|s|shost ed AA") newline refl;
  parsed = refl;
  host_patterns = refl;
  marker = refl;
  same_key = refl;
}

verify-learn_hashed_example :
    ((learn toy no_faults disk (some salt) host 22 good true).0 ≡ ok tt)
    × (verify toy no_faults (learn toy no_faults disk (some salt) host 22 good true).1 host 22 good
        ≡ ok trusted)
verify-learn_hashed_example =
    verify-learn_hashed toy disk host 22 good salt key_part reads_hashed good_part before

-- Two entries, the first of the host that is removed.
abbrev two_hosts : Disk
two_hosts = record { file = some (codes "# mine\nhost ed AA\nother ed CC\n"); dir_exists = true }

verify-remove_example :
    ((remove toy no_faults two_hosts host 22).0
      ≡ ok (
          length
            (filter (named toy (match_target host 22) host) (entries_in toy (contents two_hosts)))))
    × (entries_in toy (contents (remove toy no_faults two_hosts host 22).1)
        ≡ filter (spares toy (match_target host 22) host) (entries_in toy (contents two_hosts)))
    × (verify toy no_faults (remove toy no_faults two_hosts host 22).1 host 22 good ≡ ok unknown)
verify-remove_example = verify-remove toy two_hosts host 22 good

abbrev offered : Text
offered = codes "host ed AA\n# comment\nother ed CC\nnonsense\n"

import_from-keeps_example :
    (report : ImportReport) × ((import_from toy no_faults disk (incoming offered)).0 ≡ ok report)
    × (report.total
        ≡ report.imported + report.duplicates + report.skipped_cert_authority + report.malformed)
    × (report.total ≡ counted_lines (lines offered))
    × ((added : List (ℕ × Entry Key)) × (parsed_entries toy
            (contents (import_from toy no_faults disk (incoming offered)).1)
          ≡ parsed_entries toy (contents disk) ++ added))
import_from-keeps_example = import_from-keeps toy disk offered

-- The user says yes to the key of a host that the file does not know.
abbrev first_contact : HostKeyInfo Key
first_contact = record {
  host = host;
  port = 22;
  algorithm = codes "ed";
  fingerprint_sha256 = codes "AA";
  public_key = good;
}

abbrev prompting : Prompting Key
prompting = record {
  insecure_accept = false;
  session_id = codes "s1";
  known_hosts_path = codes "known_hosts";
  hash_new_entries = false;
  show_error = λ e. [];
  salt = none;
}

host_key_prompt-Settles_example :
    Settles toy prompting no_faults disk first_contact
      (some true)
      (verify toy no_faults disk host 22 good)
      (host_key_prompt toy prompting no_faults disk first_contact (some true))
host_key_prompt-Settles_example =
    host_key_prompt-Settles toy prompting no_faults disk first_contact (some true) refl
