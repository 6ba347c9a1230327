-- ===== src/Store/Folders/Refuses.antt =====
-- The moves that `reparent` refuses, and what `delete` leaves of the hosts:
-- crates/core-store/src/folders.rs.
use tern.Prelude.{
  ℕ, ◌≡◌, refl, sym, ap, ap₂, ◌∙◌, subst, Bool, true, false, not, ◌&&◌, Option, none, some, List,
  [], ◌∷◌, map, filter, All, contains, ◌==◌, nat_eq, nat_beq_iff, Bool-cases, inl, inr,
  if◌then◌else◌, arith, false≢true, ok, err, bind-ok, ok-injective, ok_or,
}
use tern.Store.{Folder, Db, not_found, folder_entity, folder_cycle, Row}
use tern.Store.Rows.{ids, row_of}
use tern.Store.Hosts.{folder_keys, folder_exists}
use tern.Store.Folders.{
  reparent, delete, cleared, released, is_descendant, kept_folders, reparented, change_folder,
}
use tern.Store.Folders.Depth.{Walk, ends, climbs, ancestors_complete}

is_descendant-Walk :
    (fs : List Folder) (t : ℕ) (w : List ℕ) (id : ℕ)
    → Walk fs t w
    → is_descendant fs t id ≡ contains w id
unfolding is_descendant
is_descendant-Walk fs t w id k = ap (λ l. contains l id) (ancestors_complete fs t w k)

head_on : (fs : List Folder) (t : ℕ) (w : List ℕ) → Walk fs t w → contains w t ≡ true
head_on fs t w (ends e) = ground arith
head_on fs t w (climbs e k) = ground arith

-- For a target whose parents lead to a root: the move is refused as a cycle when the folder that moves is the target or one of its ancestors, and otherwise the folder's parent is changed, under the constraints of the table.
pub reparent-refuses :
    (id t now : ℕ) (db : Db) (w : List ℕ)
    → Walk db.folders t w
    → (contains w id ≡ true → reparent id (some t) now db ≡ err (folder_cycle id t))
      × (contains w id ≡ false
          → reparent id (some t) now db ≡ change_folder (reparented (some t) now) id db)
unfolding reparent
reparent-refuses id t now db w k = elim (Bool-cases (id == t)) [
  | inl s ↦ (
    (λ h. rw s (ap (λ n. err (folder_cycle id n)) ((nat_beq_iff id t).0 s))),
    (λ h. absurd (
        false≢true (
          sym h
          ∙ subst (λ n. contains w n ≡ true) (sym ((nat_beq_iff id t).0 s))
              (head_on db.folders t w k)))),
  )
  | inr n ↦ (
    (λ h. rw (n, is_descendant-Walk db.folders t w id k, h) refl),
    (λ h. rw (n, is_descendant-Walk db.folders t w id k, h) refl),
  )
]

-- A reference to a folder, if the folder is there.
abbrev pub filed : List Folder → Option ℕ → Option ℕ
filed fs none = none
filed fs (some f) = if contains (ids fs) f then some f else none

-- Each host names a folder that is there, or none.
unfoldable pub HostsFiled : Db → Type 0
HostsFiled db = All (λ h. folder_exists db.folders h.folder_id ≡ true) db.hosts

contains-kept :
    (keep : ℕ → Bool) (fs : List Folder) (f : ℕ)
    → contains (ids (filter (λ g. keep g.id) fs)) f ≡ (keep f && contains (ids fs) f)
contains-kept keep [] f = ground arith
contains-kept keep (g ∷ fs) f =
    let ih : contains (ids (filter (λ g. keep g.id) fs)) f ≡ (keep f && contains (ids fs) f) =
      contains-kept keep fs f in
    elim (Bool-cases (g.id == f)) [
      | inl t ↦ let e : keep g.id ≡ keep f = ap keep ((nat_beq_iff g.id f).0 t) in ground arith
      | inr n ↦ ground arith
    ]

cleared-filed :
    (fs : List Folder) (id : ℕ) (o : Option ℕ)
    → folder_exists fs o ≡ true
    → cleared fs id o ≡ filed (kept_folders id fs fs) o
unfolding cleared folder_exists kept_folders
cleared-filed fs id none e = refl
cleared-filed fs id (some f) e =
    rw (contains-kept (λ j. not (is_descendant fs j id)) fs f, e) (clearing (is_descendant fs f id))
  where
    clearing : (b : Bool) → (if b then none else some f) ≡ (if not b && true then some f else none)
    clearing b = ground arith

-- A host with its folder as it is among these folders.
unfoldable pub refiled : List Folder → Row → Row
refiled fs h = record h { folder_id = filed fs h.folder_id }

released-refiled :
    (fs : List Folder) (id : ℕ) (h : Row)
    → folder_exists fs h.folder_id ≡ true
    → released fs id h ≡ refiled (kept_folders id fs fs) h
unfolding released refiled
released-refiled fs id h e =
    ap (λ o. record h { folder_id = o }) (cleared-filed fs id h.folder_id e)

map-All :
    {A B : Type 0} (P : A → Type 0) (f g : A → B)
    → ((a : A) → P a → f a ≡ g a)
    → (xs : List A) → All P xs
    → map f xs ≡ map g xs
map-All P f g same [] h = refl
map-All P f g same (x ∷ xs) (h, hs) = ap₂ ◌∷◌ (same x h) (map-All P f g same xs hs)

-- Deleting a folder keeps every host, where each host names a folder that is there: the hosts are the same rows in the same order, each with its folder cleared exactly when that folder is gone, and no tag, tag assignment or setting is touched.
pub delete-hosts :
    (id : ℕ) (db db' : Db)
    → HostsFiled db
    → delete id db ≡ ok db'
    → (db'.hosts ≡ map (refiled db'.folders) db.hosts)
      × (db'.tags ≡ db.tags)
      × (db'.host_tags ≡ db.host_tags)
      × (db'.settings ≡ db.settings)
unfolding delete HostsFiled
delete-hosts id db db' all h =
    let (f, found, done) =
      bind-ok (ok_or (not_found folder_entity id) (row_of db.folders id)) _ db' h in
    subst
      (λ d.
        (d.hosts ≡ map (refiled d.folders) db.hosts)
        × (d.tags ≡ db.tags)
        × (d.host_tags ≡ db.host_tags)
        × (d.settings ≡ db.settings))
      (ok-injective done)
      (
        map-All (λ h. folder_exists db.folders h.folder_id ≡ true) (released db.folders id)
            (refiled (kept_folders id db.folders db.folders)) (released-refiled db.folders id)
            db.hosts all,
        refl,
        refl,
        refl,
      )
