-- ===== src/Examples/KnownHostsFile.antt =====
-- Runs of crates/core-ssh/src/known_hosts.rs over keys that are an algorithm and a text.
use tern.Prelude.{
  ℕ, ◌≡◌, ◌↔◌, refl, Bool, true, false, Option, none, some, List, [], ◌∷◌, ◌++◌, Text, codes, split,
  split_whitespace, join, list_eq, nat_eq, ◌==◌, ◌&&◌, lines, arith, inl, inr, here, subst, sym,
  Exists, FirstOf, trim, strip_char,
}
use tern.Glob
use tern.Glob.Patterns.{pattern_list}
use tern.KnownHosts
use tern.KnownHosts.{
  HostPatterns, patterns, hashed_name, Marker, revoked, cert_authority, Entry, SshKeys,
  HostKeyVerdict, trusted, unknown, changed, revoked_at, verify_contents, parsed_entries,
  match_target, patterns_match,
}
use tern.KnownHosts.Verdict.{Vouches, Revokes, Decides, Says, verify_contents_iff}

abbrev pub Key : Type 0
Key = Text × Text

-- `|1|salt|hash`, or patterns between commas.
abbrev toy_patterns : List Text → Text → HostPatterns
toy_patterns ([] ∷ one ∷ salt ∷ hash ∷ []) p = hashed_name salt hash
toy_patterns _ p = patterns (split b',' p)

abbrev toy_entry : List Text → Option (Entry Key)
toy_entry (p ∷ alg ∷ body ∷ []) = some (record {
  host_patterns = toy_patterns (split b'|' p) p;
  marker = none;
  public_key = (alg, body);
})
toy_entry (_ ∷ p ∷ alg ∷ body ∷ []) = some (record {
  host_patterns = toy_patterns (split b'|' p) p;
  marker = some revoked;
  public_key = (alg, body);
})
toy_entry _ = none

abbrev patterns_text : HostPatterns → Text
patterns_text (patterns list) = join (codes ",") list
patterns_text (hashed_name salt hash) = salt ++ hash

abbrev pub toy : SshKeys Key
toy = record {
  algorithm = λ k. k.0;
  same_key_data = λ k l. k.0 == l.0 && k.1 == l.1;
  fingerprint = λ k. k.1;
  to_openssh = λ k. some (k.0 ++ (codes " " ++ k.1));
  parse = λ line. toy_entry (split_whitespace line);
  patterns_text = patterns_text;
  hmac_sha1 = λ salt text. salt ++ text;
  base64 = λ text. text;
}

abbrev pub good : Key
good = (codes "ed", codes "AA")

abbrev file : Text
file = codes "# mine\nhost ed AA\n@revoked host ed AA\n"

abbrev pub host : Text
host = codes "host"

abbrev first_entry : Entry Key
first_entry = record { host_patterns = patterns (host ∷ []); marker = none; public_key = good }

verify_contents_iff_example :
    (verify_contents toy file host 22 good ≡ trusted)
    ↔ Says toy (match_target host 22) host good (parsed_entries toy file) trusted
verify_contents_iff_example = verify_contents_iff toy file host 22 good trusted

first-Vouches : Vouches toy (match_target host 22) host good first_entry
unfolding patterns_match pattern_list strip_char match_target KnownHosts.glob_match Glob.glob_match
first-Vouches = (refl, refl, refl)

abbrev second_entry : Entry Key
second_entry = record first_entry { marker = some revoked }

abbrev entries : List (ℕ × Entry Key)
entries = (2, first_entry) ∷ (3, second_entry) ∷ []

parsed : parsed_entries toy file ≡ entries
unfolding parsed_entries lines split split_whitespace trim KnownHosts.parse_entry tern.Prelude.chomp
parsed = refl

abbrev RevokesGood : ℕ × Entry Key → Type 0
RevokesGood (line, e) =
    Revokes toy (match_target host 22) host good e × (toy.same_key_data e.public_key good ≡ true)

second_revokes : RevokesGood (3, second_entry)
unfolding patterns_match pattern_list strip_char match_target KnownHosts.glob_match Glob.glob_match
second_revokes = ((refl, refl), refl)

first-Decides :
    FirstOf
      (Decides toy (match_target host 22) host good)
      (2, first_entry)
      (parsed_entries toy file)
first-Decides =
    subst (FirstOf (Decides toy (match_target host 22) host good) (2, first_entry)) (sym parsed)
      (here (inr first-Vouches))

later_revokes : Exists RevokesGood (parsed_entries toy file)
later_revokes = subst (Exists RevokesGood) (sym parsed) (inr (inl second_revokes))

-- The first entry decides, although the next one revokes the key.
later_revoked_run : verify_contents toy file host 22 good ≡ trusted
later_revoked_run =
    (verify_contents_iff toy file host 22 good trusted).1
      (inl ((2, first_entry), first-Decides, inr (first-Vouches, refl)))

key_changed :
    verify_contents toy (codes "host ed AA\n") host 22 (codes "ed", codes "BB")
    ≡ changed 1 (codes "ed") (codes "AA")
unfolding verify_contents lines split split_whitespace trim patterns_match pattern_list strip_char
    KnownHosts.glob_match Glob.glob_match KnownHosts.parse_entry tern.Prelude.chomp
key_changed = refl
