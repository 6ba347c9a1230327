-- ===== src/KnownHosts/Remove/Forgotten.antt =====
-- After `remove` the host is unknown, and nothing else is lost: crates/core-ssh/src/known_hosts.rs.
use tern.Prelude.{
  ℕ, ◌+◌, ◌≡◌, inl, inr, refl, ap, Bool, true, false, not, none, List, [], ◌∷◌, Text, IsLine, lines,
  lines-line, lines-IsLine, chomp, length, lines-nil, filter, filter_map, All, ok, arith,
  Bool-cases,
}
use tern.KnownHosts.{
  Entry, SshKeys, unknown, match_target, parse_entry, number_entries, parsed_entries,
  patterns_match, verify_contents, verify_entries,
}
use tern.KnownHosts.File.{no_faults, Disk, contents, read, overwrite, verify}
use tern.KnownHosts.Lines.{parse_entry-chomp}
use tern.KnownHosts.Remove.{remove, keep_lines, line_matches, write_kept}

module _ {K : Type 0} (lib : SshKeys K) where
  -- The entries on lines, in their order.
  abbrev pub entries_on : List Text → List (Entry K)
  entries_on = filter_map (parse_entry lib)

  abbrev pub entries_in : Text → List (Entry K)
  entries_in text = entries_on (lines text)

  -- The entry does not name the host.
  abbrev pub spares : Text → Text → Entry K → Bool
  spares target host e = not (patterns_match lib e.host_patterns target host)

  module _ (target host : Text) where
    entries_on-matching :
        (l : Text) (ls : List Text)
        → line_matches lib target host l ≡ true
        → filter (spares target host) (entries_on (l ∷ ls))
          ≡ filter (spares target host) (entries_on ls)
    unfolding line_matches
    entries_on-matching l ls e = ground arith

    entries_on-other :
        (l : Text) (ks ls : List Text)
        → line_matches lib target host l ≡ false
        → entries_on ks ≡ filter (spares target host) (entries_on ls)
        → entries_on (chomp l ∷ ks) ≡ filter (spares target host) (entries_on (l ∷ ls))
    unfolding line_matches
    entries_on-other l ks ls e f = ground (arith, parse_entry-chomp lib l)

    -- The kept text holds the entries that do not name the host, in their order.
    keep_lines-entries :
        (ls : List Text)
        → All IsLine ls
        → entries_on (lines (keep_lines lib target host ls).0)
          ≡ filter (spares target host) (entries_on ls)
    unfolding keep_lines
    keep_lines-entries [] h = ap entries_on lines-nil
    keep_lines-entries (l ∷ ls) (hl, h) = elim (Bool-cases (line_matches lib target host l)) [
      | inl e ↦ rw (e, entries_on-matching l ls e) (keep_lines-entries ls h)
      | inr e ↦
          rw (e, lines-line l (keep_lines lib target host ls).0 hl)
            (entries_on-other l (lines (keep_lines lib target host ls).0) ls e
              (keep_lines-entries ls h))
    ]

    abbrev pub named : Entry K → Bool
    named e = patterns_match lib e.host_patterns target host

    -- The count is of the entries that name the host.
    keep_lines-count :
        (ls : List Text) → (keep_lines lib target host ls).1 ≡ length (filter named (entries_on ls))
    unfolding keep_lines line_matches
    keep_lines-count [] = refl
    keep_lines-count (l ∷ ls) = ground (arith, keep_lines-count ls)

    filter-spares_all :
        (es : List (Entry K)) → length (filter named es) ≡ 0 → filter (spares target host) es ≡ es
    filter-spares_all [] h = refl
    filter-spares_all (e ∷ es) h = ground (arith, filter-spares_all es)

    filter-spares_none : (es : List (Entry K)) → filter named (filter (spares target host) es) ≡ []
    filter-spares_none [] = refl
    filter-spares_none (e ∷ es) = ground (arith, filter-spares_none es)

    -- A file without an entry for the host says nothing of any key.
    verify_entries-unnamed :
        (key : K) (n : ℕ) (ls : List Text)
        → filter named (entries_on ls) ≡ []
        → verify_entries lib target host key none (number_entries lib n ls) ≡ unknown
    unfolding verify_entries number_entries
    verify_entries-unnamed key n [] h = refl
    verify_entries-unnamed key n (l ∷ ls) h = ground (arith, verify_entries-unnamed key (n + 1) ls)

  module _ (disk : Disk) (host : Text) (port : ℕ) where
    abbrev target_of : Text
    target_of = match_target host port

    write_kept_outcome :
        (es : List (Entry K)) (kept : Text) (n : ℕ)
        → entries_in (contents disk) ≡ es
        → n ≡ length (filter (named target_of host) es)
        → entries_in kept ≡ filter (spares target_of host) es
        → ((write_kept lib no_faults disk (kept, n)).0
            ≡ ok (length (filter (named target_of host) es)))
          × (entries_in (contents (write_kept lib no_faults disk (kept, n)).1)
              ≡ filter (spares target_of host) es)
    unfolding write_kept overwrite
    write_kept_outcome es kept n before count after =
        ground (arith, filter-spares_all target_of host es)

    -- The file after `remove`, and the count that it returns.
    remove_outcome :
        ((remove lib no_faults disk host port).0
          ≡ ok (length (filter (named target_of host) (entries_in (contents disk)))))
        × (entries_in (contents (remove lib no_faults disk host port).1)
            ≡ filter (spares target_of host) (entries_in (contents disk)))
    unfolding remove read
    remove_outcome =
        let ls : List Text = lines (contents disk) in
        write_kept_outcome (entries_on ls) (keep_lines lib target_of host ls).0
          (keep_lines lib target_of host ls).1 refl (keep_lines-count target_of host ls)
          (keep_lines-entries target_of host ls (lines-IsLine (contents disk)))

    -- `remove` with no fault returns the number of entries that name the host, leaves exactly the
    -- other entries, in their order, and from then on the verdict on every key for that host and
    -- port is `unknown`.
    pub verify-remove :
        (key : K)
        → ((remove lib no_faults disk host port).0
            ≡ ok (length (filter (named target_of host) (entries_in (contents disk)))))
          × (entries_in (contents (remove lib no_faults disk host port).1)
              ≡ filter (spares target_of host) (entries_in (contents disk)))
          × (verify lib no_faults (remove lib no_faults disk host port).1 host port key
              ≡ ok unknown)
    unfolding verify read verify_contents parsed_entries
    verify-remove key =
        let (count, rest) = remove_outcome in
        (
          count,
          rest,
          ap ok (
              verify_entries-unnamed target_of host key 1
                (lines (contents (remove lib no_faults disk host port).1))
                (rw rest (filter-spares_none target_of host (entries_in (contents disk))))),
        )
