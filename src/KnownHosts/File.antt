-- ===== src/KnownHosts/File.antt =====
-- The file on the disk, and `verify`: crates/core-ssh/src/known_hosts.rs.
use tern.Prelude.{
  ℕ, Bool, true, false, ◌&&◌, not, Option, none, some, [], ◌∷◌, ◌++◌, Text, list_eq, nat_eq,
  if◌then◌else◌, is_empty, ends_with, take, Result, ok, err, ◌>>=◌, newline,
}
use tern.KnownHosts.{SshKeys, HostKeyVerdict, KnownHostsError, io, verify_contents}

-- What the operating system answers while an operation runs. `write_all` may fail after a part of
-- the text.
pub record Faults : Type 0 where
  pub create_dir : Bool
  pub reading : Bool
  pub opening : Bool
  pub writing : Option ℕ

abbrev pub no_faults : Faults
no_faults = record { create_dir = false; reading = false; opening = false; writing = none }

-- The file, if it exists, and whether its folder does.
pub record Disk : Type 0 where
  pub file : Option Text
  pub dir_exists : Bool

-- The text of the file, none if there is no file.
abbrev pub contents : Disk → Text
contents disk = elim disk.file [ none ↦ [] | some text ↦ text ]

-- A file that does not exist knows no hosts.
unfoldable pub read : Faults → Disk → Result KnownHostsError Text
read faults disk = if faults.reading then err io else ok (contents disk)

-- `if let Some(dir) = self.path.parent() && !dir.exists()`
unfoldable pub make_dir : Faults → Disk → Result KnownHostsError Disk
make_dir faults disk =
    if disk.dir_exists
    then ok disk
    else if faults.create_dir
    then err io
    else ok (record disk { dir_exists = true })

-- `!existing.is_empty() && !existing.ends_with('\n')`
unfoldable pub needs_newline : Text → Bool
needs_newline existing = not (is_empty existing) && not (ends_with newline existing)

-- `existing`, and the newline that its last line lacks.
unfoldable pub ended : Text → Text
unfolding needs_newline
ended existing = if needs_newline existing then existing ++ newline ∷ [] else existing

-- Append to the file, which `OpenOptions` creates first.
unfoldable pub append : Faults → Disk → Text → Text → Result KnownHostsError (Unit {0}) × Disk
append faults disk existing text = if faults.opening then (err io, disk) else elim faults.writing [
  | none ↦ (ok tt, record disk { file = some (existing ++ text) })
  | some n ↦ (err io, record disk { file = some (existing ++ take n text) })
]

-- `std::fs::write` replaces the file: a failure leaves a part of the new text.
unfoldable pub overwrite : Faults → Disk → Text → Result KnownHostsError (Unit {0}) × Disk
overwrite faults disk text = elim faults.writing [
  | none ↦ (ok tt, record disk { file = some text })
  | some n ↦ (err io, record disk { file = some (take n text) })
]

module _ {K : Type 0} (lib : SshKeys K) where
  unfoldable pub verify : Faults → Disk → Text → ℕ → K → Result KnownHostsError HostKeyVerdict
  unfolding read
  verify faults disk host port key = do
    contents ← read faults disk
    ok (verify_contents lib contents host port key)
