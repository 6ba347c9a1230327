-- ===== src/KnownHosts/Import/Accounts.antt =====
-- What an import reports and what it leaves of the file: crates/core-ssh/src/known_hosts.rs.
use tern.Prelude.{
  ℕ, ◌+◌, ◌≡◌, refl, List, [], ◌∷◌, ◌++◌, Text, lines, trim, length, ok, arith, is_empty,
  append-nil, if◌then◌else◌,
}
use tern.KnownHosts.{Entry, SshKeys, is_skipped, parsed_entries, number_entries}
use tern.KnownHosts.File.{no_faults, Disk, contents, read, make_dir, overwrite, ended}
use tern.KnownHosts.Lines.{parsed_entries-append}
use tern.KnownHosts.Import.{
  ImportReport, Importing, incoming, imports, begin_import, import_lines, import_line, import_entry,
  import_host, write_imports, import_from, write_in,
}

-- Every line that counts is counted once more, as one of the four outcomes.
pub record Balances (r : ImportReport) : Type 0 where
  pub total : r.total ≡ r.imported + r.duplicates + r.skipped_cert_authority + r.malformed

-- The lines that are neither blank nor a comment.
abbrev pub counted_lines : List Text → ℕ
counted_lines [] = 0
counted_lines (l ∷ ls) =
    let rest = counted_lines ls in if is_skipped (trim l) then rest else rest + 1

module _ {K : Type 0} (lib : SshKeys K) where
  import_line-Balances :
      (st : Importing) (line : Text)
      → Balances st.report
      → Balances (import_line lib st line).report
  unfolding import_line import_entry import_host
  import_line-Balances st line b = ground arith

  import_lines-Balances :
      (st : Importing) (ls : List Text)
      → Balances st.report
      → Balances (import_lines lib st ls).report
  unfolding import_lines
  import_lines-Balances st [] b = b
  import_lines-Balances st (l ∷ ls) b =
      import_lines-Balances (import_line lib st l) ls (import_line-Balances st l b)

  import_line-total :
      (st : Importing) (line : Text)
      → (import_line lib st line).report.total
        ≡ (if is_skipped (trim line) then st.report.total else st.report.total + 1)
  unfolding import_line import_entry import_host
  import_line-total st line = ground arith

  import_lines-total :
      (st : Importing) (ls : List Text)
      → (import_lines lib st ls).report.total ≡ st.report.total + counted_lines ls
  unfolding import_lines
  import_lines-total st [] = omega arith
  import_lines-total st (l ∷ ls) =
      ground (arith, import_lines-total (import_line lib st l) ls, import_line-total st l)

  -- The entries of the file once the loop is done.
  added_entries : Text → Importing → List (ℕ × Entry K)
  added_entries existing st =
      if is_empty st.appended
      then []
      else number_entries lib (1 + length (lines (ended existing))) (lines st.appended)

  write_imports-keeps :
      (disk : Disk) (existing : Text) (st : Importing)
      → contents disk ≡ existing
      → ((write_imports lib no_faults disk existing st).0 ≡ ok st.report)
        × (parsed_entries lib (contents (write_imports lib no_faults disk existing st).1)
            ≡ parsed_entries lib existing ++ added_entries existing st)
  unfolding write_imports write_in make_dir overwrite added_entries
  write_imports-keeps disk existing st e = ground (
    arith,
    parsed_entries-append lib existing st.appended,
    append-nil (parsed_entries lib existing),
  )

  -- An import with no fault succeeds. Its report counts each line of the source that is neither
  -- blank nor a comment exactly once, and the entries that were on file keep their places in front
  -- of those that are added.
  pub import_from-keeps :
      (disk : Disk) (text : Text)
      → (report : ImportReport) × ((import_from lib no_faults disk (incoming text)).0 ≡ ok report)
        × (report.total
            ≡ report.imported + report.duplicates + report.skipped_cert_authority
              + report.malformed)
        × (report.total ≡ counted_lines (lines text))
        × ((added : List (ℕ × Entry K)) × (parsed_entries lib
                (contents (import_from lib no_faults disk (incoming text)).1)
              ≡ parsed_entries lib (contents disk) ++ added))
  unfolding import_from read imports
  import_from-keeps disk text =
      let existing : Text = contents disk in
      let st : Importing = imports lib existing text in
      let (result, kept) = write_imports-keeps disk existing st refl in
      (
        st.report,
        result,
        (import_lines-Balances (begin_import lib existing) (lines text)
            (record { total = refl })).total,
        omega (arith, import_lines-total (begin_import lib existing) (lines text)),
        (added_entries existing st, kept),
      )
