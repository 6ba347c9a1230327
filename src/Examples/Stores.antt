-- ===== src/Examples/Stores.antt =====
-- Tests of the store, and a concrete case of each result on it.
use tern.Prelude.{
  ℕ, ◌≡◌, refl, ◌≢◌, true, false, Option, none, some, List, [], ◌∷◌, Text, codes, contains, map,
  if◌then◌else◌, ◌==◌, nat_eq, nat_beq, nat_beq_iff, subst, Bool-cases, inl, inr, arith, ok, err,
}
use tern.Store.{
  HostOverrides, Host, NewHost, Folder, Tag, HostTag, Db, Row, Setting, manual, agent_kind,
  password_kind, folder_cycle, StoreError, not_found, folder_entity, host_entity, sqlite, unique,
  check, SqliteError,
}
use tern.Store.Rows.{ids}
use tern.Store.Hosts.{host_keys, folder_keys, create, get, delete, set_tags, tags_for, row_of_draft}
use tern.Store.Hosts.Created.{get-create, host_of_draft, TagsRefer}
use tern.Store.Hosts.Table.{perform-Means, perform, Means, view, delete_call}
use tern.Store.Hosts.Tagged.{tags_for-set_tags}
use tern.Store.Folders
use tern.Store.Folders.Calls
use tern.Store.Folders.Depth.{Walk, Rooted, ends, climbs}
use tern.Store.Folders.Forest.{Forest}
use tern.Store.Folders.Refuses.{reparent-refuses, delete-hosts, HostsFiled, refiled}
use tern.Store.Folders.Tree.{tree, tree_complete, ParentsFirst}

abbrev plain : HostOverrides
plain = record {
  term = none;
  keepalive_secs = none;
  keepalive_max = none;
  connect_timeout_secs = none;
  window_size = none;
  reconnect_enabled = none;
  reconnect_max_attempts = none;
}

abbrev pub box : NewHost
box = record {
  folder_id = some 2;
  name = codes "box";
  hostname = codes "box.example";
  port = 22;
  username = codes "ann";
  auth = agent_kind;
  auth_fallbacks = password_kind ∷ [];
  secret_ref = none;
  key_path = none;
  overrides = plain;
  proxy_jump = none;
  source = manual;
  source_alias = none;
  color = none;
  notes = none;
}

abbrev folder : ℕ → Option ℕ → Folder
folder id parent = record {
  id = id;
  parent_id = parent;
  name = codes "f";
  position = 0;
  created_at = 1;
  updated_at = 1;
}

-- A root folder with a child, a tag, and no host.
abbrev two_folders : List Folder
two_folders = folder 1 none ∷ folder 2 (some 1) ∷ []

abbrev tag : ℕ → Text → Tag
tag id name = record { id = id; name = name; color = none; created_at = 1 }

abbrev pub no_hosts : Db
no_hosts = record {
  folders = two_folders;
  hosts = [];
  tags = tag 1 (codes "prod") ∷ tag 2 (codes "eu") ∷ [];
  host_tags = [];
  settings = [];
}

-- The same with one host, in the child folder.
abbrev pub one_host : Db
one_host = record no_hosts { hosts = row_of_draft box 1 5 ∷ [] }

create_run : create box 5 no_hosts ≡ ok (1, one_host)
unfolding create row_of_draft tern.Store.Hosts.constraints
create_run = refl

refer : TagsRefer no_hosts
unfolding TagsRefer
refer = tt

get-create_example :
    (get 1 one_host ≡ ok (some (host_of_draft box 1 5)))
    × ((j : ℕ) → j ≢ 1 → get j one_host ≡ get j no_hosts)
get-create_example = get-create box 5 no_hosts 1 one_host refer create_run

port_run : create (record box { port = 0 }) 5 no_hosts ≡ err (sqlite check)
unfolding create row_of_draft tern.Store.Hosts.constraints
port_run = refl

delete_run : perform (delete_call 1) one_host ≡ ok no_hosts
unfolding perform row_of_draft delete
delete_run = refl

perform-Means_example : Means (delete_call 1) (view one_host) (view no_hosts)
perform-Means_example = perform-Means (delete_call 1) one_host no_hosts delete_run

-- The host with both tags.
abbrev tagged : Db
tagged = record one_host {
  host_tags = record { host_id = 1; tag_id = 2 } ∷ record { host_id = 1; tag_id = 1 } ∷ [];
}

set_tags_run : set_tags 1 (2 ∷ 1 ∷ 2 ∷ []) one_host ≡ ok tagged
unfolding set_tags row_of_draft
set_tags_run = refl

tags_for_run : tags_for tagged.host_tags 1 ≡ 1 ∷ 2 ∷ []
unfolding tags_for
tags_for_run = refl

tags_for-set_tags_example : contains (tags_for tagged.host_tags 1) 2 ≡ (
    if nat_beq 1 1
    then contains {A = ℕ} (2 ∷ 1 ∷ 2 ∷ []) 2
    else contains (tags_for one_host.host_tags 1) 2)
tags_for-set_tags_example = tags_for-set_tags 1 (2 ∷ 1 ∷ 2 ∷ []) one_host tagged set_tags_run 1 2

root-Walk : Walk two_folders 1 (1 ∷ [])
unfolding Folders.parent_of
root-Walk = ends refl

child-Walk : Walk two_folders 2 (2 ∷ 1 ∷ [])
unfolding Folders.parent_of
child-Walk = climbs refl root-Walk

forest : Forest two_folders
unfolding Forest Folders.parent_of
forest i o e = elim (Bool-cases (1 == i)) [
  | inl t ↦ subst (Rooted two_folders) ((nat_beq_iff 1 i).0 t) (1 ∷ [], root-Walk)
  | inr f ↦ elim (Bool-cases (2 == i)) [
    | inl t ↦ subst (Rooted two_folders) ((nat_beq_iff 2 i).0 t) (2 ∷ 1 ∷ [], child-Walk)
    | inr g ↦ absurd (ground arith)
  ]
]

reparent-refuses_example :
    (contains {A = ℕ} (2 ∷ 1 ∷ []) 1 ≡ true
      → Folders.reparent 1 (some 2) 9 one_host ≡ err (folder_cycle 1 2))
    × (contains {A = ℕ} (2 ∷ 1 ∷ []) 1 ≡ false
        → Folders.reparent 1 (some 2) 9 one_host
          ≡ Folders.change_folder (Folders.reparented (some 2) 9) 1 one_host)
reparent-refuses_example = reparent-refuses 1 2 9 one_host (2 ∷ 1 ∷ []) child-Walk

-- The root folder alone, the host back at the root.
abbrev child_gone : Db
child_gone = record one_host {
  folders = folder 1 none ∷ [];
  hosts = record (row_of_draft box 1 5) { folder_id = none } ∷ [];
}

delete_folder_run : Folders.delete 2 one_host ≡ ok child_gone
unfolding Folders.delete row_of_draft
delete_folder_run = refl

filed : HostsFiled one_host
unfolding HostsFiled row_of_draft tern.Store.Hosts.folder_exists
filed = (refl, tt)

delete-hosts_example :
    (child_gone.hosts ≡ map (refiled child_gone.folders) one_host.hosts)
    × (child_gone.tags ≡ one_host.tags)
    × (child_gone.host_tags ≡ one_host.host_tags)
    × (child_gone.settings ≡ one_host.settings)
delete-hosts_example = delete-hosts 2 one_host child_gone filed delete_folder_run

tree_complete_example :
    ParentsFirst [] (tree two_folders)
    × ((i : ℕ) → contains (ids two_folders) i ≡ true → contains (ids (tree two_folders)) i ≡ true)
tree_complete_example = tree_complete two_folders forest

tree_run : ids (tree (folder 1 (some 2) ∷ folder 2 none ∷ [])) ≡ 2 ∷ 1 ∷ []
unfolding tree
tree_run = refl
