-- ===== src/Store/Folders.antt =====
-- The folders of the store: crates/core-store/src/folders.rs.
use tern.Prelude.{
  ℕ, zero, suc, ◌+◌, Bool, true, false, not, ◌&&◌, ◌||◌, Option, none, some, List, [], ◌∷◌, ◌++◌,
  Text, codes, nat_beq, leb, map, filter, any, contains, length, is_empty, trim, to_ascii_lowercase,
  if◌then◌else◌, ◌==◌, list_eq, nat_eq, Result, ok, err, ok_or, ◌>>=◌,
}
use tern.Store.{
  StoreError, sqlite, unique, foreign_key, not_found, invalid, folder_cycle, folder_entity, Folder,
  Row, Db,
}
use tern.Store.Rows.{Keyed, ids, next_id, row_of, change_row}
use tern.Store.Hosts.{folder_keys, folder_exists}
pub mod Depth
pub mod Forest
pub mod Calls
pub mod Refuses
pub mod Tree

abbrev pub same_parent : Option ℕ → Option ℕ → Bool
same_parent none none = true
same_parent (some a) (some b) = a == b
same_parent _ _ = false

-- `COALESCE(MAX(position), -1) + 1`
unfoldable pub end_position : List Folder → Option ℕ → ℕ
end_position [] parent = 0
end_position (f ∷ fs) parent =
    let rest = end_position fs parent in
    if same_parent f.parent_id parent && leb rest f.position then suc f.position else rest

-- `folders_parent_name`: siblings have different names, the case of ASCII letters aside.
unfoldable pub name_taken : Folder → List Folder → Bool
name_taken f fs =
    any
      (λ g.
        not (g.id == f.id)
        && (same_parent g.parent_id f.parent_id
            && to_ascii_lowercase g.name == to_ascii_lowercase f.name))
      fs

-- The constraints of the table on a row that is written.
unfoldable pub folder_constraints : List Folder → Folder → Result {0, 0} StoreError Unit
unfolding name_taken folder_exists
folder_constraints fs f =
    if name_taken f fs
    then err (sqlite unique)
    else if folder_exists fs f.parent_id
    then ok tt
    else err (sqlite foreign_key)

-- A name without the white space around it, unless nothing is left.
unfoldable pub checked_name : Text → Text → Result {0, 0} StoreError Text
unfolding trim
checked_name message name = if is_empty (trim name) then err (invalid message) else ok (trim name)

-- The row that `create` inserts.
unfoldable pub new_folder : List Folder → Option ℕ → Text → (now : ℕ) → Folder
unfolding end_position next_id
new_folder fs parent name now = record {
  id = next_id (ids fs);
  parent_id = parent;
  name = name;
  position = end_position fs parent;
  created_at = now;
  updated_at = now;
}

unfoldable pub create : Option ℕ → Text → (now : ℕ) → Db → Result {0, 0} StoreError (ℕ × Db)
unfolding checked_name new_folder folder_constraints
create parent name now db = do
  name' ← checked_name (codes "folder name cannot be empty") name
  let folder : Folder = new_folder db.folders parent name' now
  u ← folder_constraints db.folders folder
  ok (folder.id, record db { folders = db.folders ++ folder ∷ [] })

-- `UPDATE folders SET .. WHERE id = ?1`, with `NotFound` when no row changed.
unfoldable pub change_folder : (Folder → Folder) → ℕ → Db → Result {0, 0} StoreError Db
unfolding folder_constraints row_of change_row
change_folder f id db = do
  folder ← ok_or (not_found folder_entity id) (row_of db.folders id)
  u ← folder_constraints db.folders (f folder)
  ok (record db { folders = change_row f id db.folders })

unfoldable pub rename : ℕ → Text → (now : ℕ) → Db → Result {0, 0} StoreError Db
unfolding checked_name change_folder
rename id name now db = do
  name' ← checked_name (codes "folder name cannot be empty") name
  change_folder (λ f. record f { name = name'; updated_at = now }) id db

-- The parent of a folder that is there.
unfoldable pub parent_of : List Folder → ℕ → Option (Option ℕ)
parent_of [] id = none
parent_of (f ∷ fs) id = let rest = parent_of fs id in if f.id == id then some f.parent_id else rest

-- The recursive query `anc`: a folder, its parent, the parent of that and so on, by at most so many steps.
unfoldable pub ancestors : ℕ → List Folder → ℕ → List ℕ
unfolding parent_of
ancestors zero fs id = id ∷ []
ancestors (suc n) fs id = elim (parent_of fs id) [
  | none ↦ id ∷ []
  | some parent ↦ elim parent [ none ↦ id ∷ [] | some p ↦ id ∷ ancestors n fs p ]
]

unfoldable pub is_descendant : List Folder → (target id : ℕ) → Bool
unfolding ancestors
is_descendant fs target id = contains (ancestors (length fs) fs target) id

unfoldable pub reparented : Option ℕ → (now : ℕ) → Folder → Folder
reparented to now f = record f { parent_id = to; updated_at = now }

unfoldable pub reparent : ℕ → Option ℕ → (now : ℕ) → Db → Result {0, 0} StoreError Db
unfolding is_descendant change_folder reparented
reparent id none now db = change_folder (reparented none now) id db
reparent id (some target) now db =
    if id == target
    then err (folder_cycle id id)
    else if is_descendant db.folders target id
    then err (folder_cycle id target)
    else change_folder (reparented (some target) now) id db

-- The folders that `ON DELETE CASCADE` takes with one: those that have it among their ancestors.
unfoldable pub kept_folders : ℕ → List Folder → List Folder → List Folder
unfolding is_descendant
kept_folders id all fs = filter (λ f. not (is_descendant all f.id id)) fs

-- `ON DELETE SET NULL`
unfoldable pub cleared : List Folder → ℕ → Option ℕ → Option ℕ
unfolding is_descendant
cleared fs id none = none
cleared fs id (some f) = if is_descendant fs f id then none else some f

unfoldable pub released : List Folder → ℕ → Row → Row
unfolding cleared
released fs id h = record h { folder_id = cleared fs id h.folder_id }

unfoldable pub delete : ℕ → Db → Result {0, 0} StoreError Db
unfolding row_of kept_folders released
delete id db = do
  folder ← ok_or (not_found folder_entity id) (row_of db.folders id)
  ok (record db {
    folders = kept_folders id db.folders db.folders;
    hosts = map (released db.folders id) db.hosts;
  })
