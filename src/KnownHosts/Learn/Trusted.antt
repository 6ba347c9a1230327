-- ===== src/KnownHosts/Learn/Trusted.antt =====
-- After `learn` the host is trusted: crates/core-ssh/src/known_hosts.rs.
use tern.Prelude.{
  ℕ, ◌+◌, ◌≡◌, inl, inr, refl, ap, sym, ◌∙◌, Bool, true, false, Option, none, some, List, [], ◌∷◌,
  ◌++◌, Text, codes, newline, subst, IsLine, lines, lines-line, chomp, length, All, FirstOf, here,
  later, ok, arith, list_beq_refl, nat_eq, strip_char, append_assoc,
}
use tern.Glob.Matches.{Matches, empty, one}
use tern.Glob.Complete.{StarFree, glob_match_complete}
use tern.Glob.Patterns.{pattern_list_iff}
use tern.KnownHosts
use tern.KnownHosts.{
  HostPatterns, patterns, hashed_name, Entry, SshKeys, HostKeyVerdict, trusted, unknown,
  match_target, parse_entry, number_entries, parsed_entries, patterns_match, verify_contents,
}
use tern.KnownHosts.File.{no_faults, Disk, contents, read, make_dir, ended, append, verify}
use tern.KnownHosts.Lines.{parse_entry-chomp, parsed_entries-append}
use tern.KnownHosts.Verdict.{Decides, Vouches, Says, verify_contents_iff}
use tern.KnownHosts.Learn.{learn, learn_in, learned_line, openssh_key_part, hash_pattern}

-- What the crate `ssh-key` is relied on for: the line of a pattern and a key is read back as an
-- entry of them without a marker.
pub record ReadsBack {K : Type 0} (lib : SshKeys K) (line : Text) (ps : HostPatterns) (key : K)
    : Type 0 where
  pub entry : Entry K
  pub is_line : IsLine line
  pub parsed : parse_entry lib line ≡ some entry
  pub host_patterns : entry.host_patterns ≡ ps
  pub marker : entry.marker ≡ none
  pub same_key : lib.same_key_data entry.public_key key ≡ true

-- A text without `*` matches itself.
Matches-self : (t : Text) → StarFree t → Matches t t
Matches-self [] h = empty
Matches-self (c ∷ t) (n, h) = one (n, inr refl) (Matches-self t h)

FirstOf-append {ℓ} :
    {A : Type ℓ} {P : A → Type 0} (xs : List A) (x : A)
    → All (λ y. ¬ P y) xs
    → P x
    → FirstOf P x (xs ++ x ∷ [])
FirstOf-append [] x a h = here h
FirstOf-append (y ∷ xs) x (n, a) h = later n (FirstOf-append xs x a h)

number_entries-one :
    {K : Type 0} (lib : SshKeys K) (n : ℕ) (l : Text) (e : Entry K)
    → parse_entry lib l ≡ some e
    → number_entries lib n (l ∷ lines []) ≡ (n, e) ∷ []
unfolding number_entries lines
number_entries-one lib n l e h = rw (number_entries, h)

module _ {K : Type 0} (lib : SshKeys K) (disk : Disk) (host : Text) (port : ℕ) (key : K) where
  abbrev target : Text
  target = match_target host port

  -- What an answer `unknown` says of the entries.
  none-Decides :
      (es : List (ℕ × Entry K))
      → Says lib target host key es unknown
      → All (λ x. ¬ Decides lib target host key x) es
  none-Decides es (inl (x, f, inl (_, e))) = cc
  none-Decides es (inl (x, f, inr (_, e))) = cc
  none-Decides es (inr (a, _)) = a

  -- A line behind the file that names the host and holds the key.
  verify_contents-append :
      (s line : Text) (ps : HostPatterns) (r : ReadsBack lib line ps key)
      → patterns_match lib ps target host ≡ true
      → verify_contents lib s host port key ≡ unknown
      → verify_contents lib (ended s ++ (line ++ newline ∷ [])) host port key ≡ trusted
  verify_contents-append s line ps r named before =
      (verify_contents_iff lib _ host port key trusted).1 (
        inl (
          added,
          subst (FirstOf (Decides lib target host key) added) (sym entries) first,
          inr (vouch, refl),
        ))
    where
      line_no : ℕ
      line_no = 1 + length (lines (ended s))

      added : ℕ × Entry K
      added = (line_no, r.entry)

      vouch : Vouches lib target host key r.entry
      vouch = (rw r.host_patterns named, r.marker, r.same_key)

      entries :
          parsed_entries lib (ended s ++ (line ++ newline ∷ []))
          ≡ parsed_entries lib s ++ added ∷ []
      entries =
          parsed_entries-append lib s (line ++ newline ∷ [])
          ∙ ap (λ es. parsed_entries lib s ++ es)
              (ap (number_entries lib line_no) (lines-line line [] r.is_line)
                ∙ number_entries-one lib line_no (chomp line) r.entry
                    (parse_entry-chomp lib line ∙ r.parsed))

      first : FirstOf (Decides lib target host key) added (parsed_entries lib s ++ added ∷ [])
      first =
          FirstOf-append (parsed_entries lib s) added
            (none-Decides (parsed_entries lib s)
              ((verify_contents_iff lib s host port key unknown).0 before))
            (inr vouch)

  file-learn :
      (salt : Option Text) (hashed : Bool) (part : Text)
      → openssh_key_part lib key ≡ ok part
      → learn lib no_faults disk salt host port key hashed ≡ (
        ok tt,
        record {
          file = some (ended (contents disk) ++ learned_line lib hashed salt host port part);
          dir_exists = true;
        },
      )
  unfolding learn learn_in append read make_dir ended
  file-learn salt hashed part e = ground (
    arith,
    append_assoc (contents disk) (newline ∷ []) (learned_line lib hashed salt host port part),
  )

  -- What is written for a key that reads back makes the verdict `trusted`.
  learn-verify :
      (salt : Option Text) (hashed : Bool) (part line : Text) (ps : HostPatterns)
      (r : ReadsBack lib line ps key)
      → openssh_key_part lib key ≡ ok part
      → learned_line lib hashed salt host port part ≡ line ++ newline ∷ []
      → patterns_match lib ps target host ≡ true
      → verify lib no_faults disk host port key ≡ ok unknown
      → ((learn lib no_faults disk salt host port key hashed).0 ≡ ok tt)
        × (verify lib no_faults (learn lib no_faults disk salt host port key hashed).1 host port key
            ≡ ok trusted)
  unfolding verify read
  learn-verify salt hashed part line ps r e f named before =
      rw (file-learn salt hashed part e)
        (refl, rw f (ap ok (verify_contents-append (contents disk) line ps r named (cc))))

  learned_plain :
      (salt : Option Text) (part : Text)
      → learned_line lib false salt host port part ≡ (target ++ (codes " " ++ part)) ++ newline ∷ []
  unfolding learned_line
  learned_plain salt part = sym (append_assoc target (codes " " ++ part) (newline ∷ []))

  learned_hashed :
      (salt part : Text)
      → learned_line lib true (some salt) host port part
        ≡ (hash_pattern lib (some salt) target ++ (codes " " ++ part)) ++ newline ∷ []
  unfolding learned_line
  learned_hashed salt part =
      sym (append_assoc (hash_pattern lib (some salt) target) (codes " " ++ part) (newline ∷ []))

  -- The target as a pattern names itself.
  names_self :
      StarFree target
      → strip_char b'!' target ≡ none
      → patterns_match lib (patterns (target ∷ [])) target host ≡ true
  unfolding patterns_match KnownHosts.glob_match
  names_self free plain = (pattern_list_iff _ (target ∷ [])).1 (
    inl (plain, rw (glob_match_complete target target free (Matches-self target free))),
    (λ n q. cc, tt),
  )

  names_hashed :
      (salt : Text)
      → patterns_match lib (hashed_name salt (lib.hmac_sha1 salt target)) target host ≡ true
  unfolding patterns_match
  names_hashed salt = list_beq_refl (lib.hmac_sha1 salt target)

  -- Accepting an unknown key, unhashed: `learn` succeeds, and from then on the verdict on that key
  -- for that host and port is `trusted`, if the file can be read and written, the target holds no
  -- `*` and does not begin with `!`, and the written line reads back as its pattern and key.
  pub verify-learn_plain :
      (salt : Option Text) (part : Text)
      → ReadsBack lib (target ++ (codes " " ++ part)) (patterns (target ∷ [])) key
      → openssh_key_part lib key ≡ ok part
      → StarFree target
      → strip_char b'!' target ≡ none
      → verify lib no_faults disk host port key ≡ ok unknown
      → ((learn lib no_faults disk salt host port key false).0 ≡ ok tt)
        × (verify lib no_faults (learn lib no_faults disk salt host port key false).1 host port key
            ≡ ok trusted)
  verify-learn_plain salt part r e free plain before =
      learn-verify salt false part (target ++ (codes " " ++ part)) (patterns (target ∷ [])) r e
        (learned_plain salt part) (names_self free plain) before

  -- Accepting an unknown key, hashed: `learn` succeeds, and from then on the verdict on that key for
  -- that host and port is `trusted`, whatever the target, if the file can be read and written, the
  -- salt is at hand, and the written line reads back as that salt and hash and that key.
  pub verify-learn_hashed :
      (salt part : Text)
      → ReadsBack lib
          (hash_pattern lib (some salt) target ++ (codes " " ++ part))
          (hashed_name salt (lib.hmac_sha1 salt target))
          key
      → openssh_key_part lib key ≡ ok part
      → verify lib no_faults disk host port key ≡ ok unknown
      → ((learn lib no_faults disk (some salt) host port key true).0 ≡ ok tt)
        × (verify lib no_faults
              (learn lib no_faults disk (some salt) host port key true).1
              host
              port
              key
            ≡ ok trusted)
  verify-learn_hashed salt part r e before =
      learn-verify (some salt) true part
        (hash_pattern lib (some salt) target ++ (codes " " ++ part))
        (hashed_name salt (lib.hmac_sha1 salt target)) r e (learned_hashed salt part)
        (names_hashed salt) before
