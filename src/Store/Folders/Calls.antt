-- ===== src/Store/Folders/Calls.antt =====
-- What the calls of crates/core-store/src/folders.rs keep and refuse.
use tern.Prelude.{ℕ, Option, Text, nat_eq, Result, ok, err}
use tern.Store.{Db, StoreError}
use tern.Store.Hosts.{folder_keys}
use tern.Store.Folders.{create, rename, reparent, delete}
use tern.Store.Folders.Forest.{Forest}

-- The calls that change the folders, with the time at which they happen.
pub data FolderCall : Type 0 where
  create_folder : Option ℕ → Text → (now : ℕ) → FolderCall
  rename_folder : ℕ → Text → (now : ℕ) → FolderCall
  reparent_folder : ℕ → Option ℕ → (now : ℕ) → FolderCall
  delete_folder : ℕ → FolderCall

unfoldable pub perform : FolderCall → Db → Result {0, 0} StoreError Db
perform (create_folder parent name now) db = elim (create parent name now db) [
  | ok p ↦ ok p.1
  | err e ↦ err e
]
perform (rename_folder id name now) db = rename id name now db
perform (reparent_folder id to now) db = reparent id to now db
perform (delete_folder id) db = delete id db
