-- ===== src/Store/Hosts.antt =====
-- The saved hosts: crates/core-store/src/hosts.rs. A statement that fails changes nothing; the clock
-- `now` is an argument.
use tern.Prelude.{
  ℕ, ◌+◌, Bool, true, false, not, ◌&&◌, ◌||◌, Option, none, some, List, [], ◌∷◌, ◌++◌, Text, codes,
  nat_beq, leb, map, filter, any, contains, if◌then◌else◌, ◌==◌, list_eq, nat_eq, Result, ok, err,
  ok_or, ◌>>=◌,
}
use tern.Store.{
  HostSource, manual, ssh_config, Host, NewHost, StoreError, sqlite, check, unique, foreign_key,
  from_sql_conversion_failure, not_found, host_entity, Row, HostTag, Db, Folder, Tag,
}
use tern.Store.Rows.{Keyed, ids, next_id, row_of, change_row, delete_row}
use tern.Login.Fallbacks.{as_str, kind_of, encode_auth_fallbacks, decode_auth_fallbacks}
pub mod Created
pub mod Table
pub mod Saved
pub mod Read
pub mod Tagged

instance abbrev pub host_keys : Keyed Row
host_keys = record { key_of = λ r. r.id }

instance abbrev pub folder_keys : Keyed Folder
folder_keys = record { key_of = λ f. f.id }

instance abbrev pub tag_keys : Keyed Tag
tag_keys = record { key_of = λ t. t.id }

-- `HostSource::as_str`
unfoldable pub source_name : HostSource → Text
source_name manual = codes "manual"
source_name ssh_config = codes "ssh_config"

-- `HostSource::try_from(..).ok()`
unfoldable pub source_of : Text → Option HostSource
source_of value =
    if value == codes "manual"
    then some manual
    else if value == codes "ssh_config"
    then some ssh_config
    else none

-- A column in the type the code reads it as.
abbrev pub converted : {A : Type 0} → Text → Option A → Result {0, 0} StoreError A
converted value o = ok_or (sqlite (from_sql_conversion_failure value)) o

unfoldable pub row_to_host : Row → Result {0, 0} StoreError Host
row_to_host row = do
  auth ← converted row.auth_method (kind_of row.auth_method)
  source ← converted row.source (source_of row.source)
  ok (record {
    id = row.id;
    folder_id = row.folder_id;
    name = row.name;
    hostname = row.hostname;
    port = row.port;
    username = row.username;
    auth = auth;
    auth_fallbacks = decode_auth_fallbacks row.auth_fallbacks;
    secret_ref = row.secret_ref;
    key_path = row.key_path;
    overrides = row.overrides;
    proxy_jump = row.proxy_jump;
    source = source;
    source_alias = row.source_alias;
    color = row.color;
    notes = row.notes;
    last_connected_at = row.last_connected_at;
    connect_count = row.connect_count;
    created_at = row.created_at;
    updated_at = row.updated_at;
    tags = [];
  })

-- `ORDER BY tag_id`
unfoldable pub insert_sorted : ℕ → List ℕ → List ℕ
insert_sorted t [] = t ∷ []
insert_sorted t (u ∷ us) = let rest = insert_sorted t us in if leb t u then t ∷ u ∷ us else u ∷ rest

unfoldable pub sort : List ℕ → List ℕ
unfolding insert_sorted
sort [] = []
sort (t ∷ ts) = insert_sorted t (sort ts)

unfoldable pub tags_for : List HostTag → ℕ → List ℕ
unfolding sort
tags_for rows id = sort (map (λ r. r.tag_id) (filter (λ r. r.host_id == id) rows))

-- The row of a draft: the columns that the statement does not name have their defaults.
unfoldable pub row_of_draft : NewHost → (id now : ℕ) → Row
unfolding source_name
row_of_draft draft id now = record {
  id = id;
  folder_id = draft.folder_id;
  name = draft.name;
  hostname = draft.hostname;
  port = draft.port;
  username = draft.username;
  auth_method = as_str draft.auth;
  auth_fallbacks = encode_auth_fallbacks draft.auth_fallbacks;
  secret_ref = draft.secret_ref;
  key_path = draft.key_path;
  overrides = draft.overrides;
  proxy_jump = draft.proxy_jump;
  source = source_name draft.source;
  source_alias = draft.source_alias;
  color = draft.color;
  notes = draft.notes;
  last_connected_at = none;
  connect_count = 0;
  created_at = now;
  updated_at = now;
}

abbrev pub same_text : Option Text → Option Text → Bool
same_text (some a) (some b) = a == b
same_text _ _ = false

-- `hosts_source_alias`: imported hosts have different aliases; a NULL differs from each.
unfoldable pub alias_taken : Row → List Row → Bool
alias_taken row rows =
    row.source == codes "ssh_config"
    && any
        (λ r.
          not (r.id == row.id)
          && (r.source == codes "ssh_config" && same_text r.source_alias row.source_alias))
        rows

-- A reference to a folder names one, or is NULL.
unfoldable pub folder_exists : List Folder → Option ℕ → Bool
folder_exists folders none = true
folder_exists folders (some id) = contains (ids folders) id

-- The constraints of the table on a row that is written. The numbers of the overrides cannot break theirs.
unfoldable pub constraints : Db → Row → Result {0, 0} StoreError Unit
unfolding alias_taken folder_exists
constraints db row =
    if not (leb 1 row.port && leb row.port 65535)
    then err (sqlite check)
    else if alias_taken row db.hosts
    then err (sqlite unique)
    else if folder_exists db.folders row.folder_id
    then ok tt
    else err (sqlite foreign_key)

unfoldable pub create : NewHost → (now : ℕ) → Db → Result {0, 0} StoreError (ℕ × Db)
unfolding next_id row_of_draft
create draft now db =
    let id = next_id (ids db.hosts) in
    let row = row_of_draft draft id now in
    do u ← constraints db row; ok (id, record db { hosts = db.hosts ++ row ∷ [] })

-- The host of a row that a query found, with its tags.
unfoldable pub with_tags : Db → Option Row → Result {0, 0} StoreError (Option Host)
unfolding row_to_host tags_for
with_tags db none = ok none
with_tags db (some row) = do
  host ← row_to_host row
  ok (some (record host { tags = tags_for db.host_tags host.id }))

unfoldable pub get : ℕ → Db → Result {0, 0} StoreError (Option Host)
unfolding with_tags row_of
get id db = with_tags db (row_of db.hosts id)

-- The columns that an update sets.
unfoldable pub updated : Host → (now : ℕ) → Row → Row
unfolding source_name
updated host now row = record row {
  folder_id = host.folder_id;
  name = host.name;
  hostname = host.hostname;
  port = host.port;
  username = host.username;
  auth_method = as_str host.auth;
  auth_fallbacks = encode_auth_fallbacks host.auth_fallbacks;
  secret_ref = host.secret_ref;
  key_path = host.key_path;
  overrides = host.overrides;
  proxy_jump = host.proxy_jump;
  source = source_name host.source;
  source_alias = host.source_alias;
  color = host.color;
  notes = host.notes;
  updated_at = now;
}

-- `UPDATE hosts SET .. WHERE id = ?1`, with `NotFound` when no row changed.
unfoldable pub change_host : (Row → Row) → ℕ → Db → Result {0, 0} StoreError Db
unfolding constraints row_of change_row
change_host f id db = do
  row ← ok_or (not_found host_entity id) (row_of db.hosts id)
  u ← constraints db (f row)
  ok (record db { hosts = change_row f id db.hosts })

unfoldable pub update : Host → (now : ℕ) → Db → Result {0, 0} StoreError Db
unfolding change_host updated
update host now db = change_host (updated host now) host.id db

unfoldable pub delete : ℕ → Db → Result {0, 0} StoreError Db
unfolding row_of delete_row
delete id db = do
  row ← ok_or (not_found host_entity id) (row_of db.hosts id)
  ok (record db {
    hosts = delete_row id db.hosts;
    host_tags = filter (λ r. not (r.host_id == id)) db.host_tags;
  })

unfoldable pub moved : Option ℕ → (now : ℕ) → Row → Row
moved to now row = record row { folder_id = to; updated_at = now }

unfoldable pub move_to_folder : ℕ → Option ℕ → (now : ℕ) → Db → Result {0, 0} StoreError Db
unfolding change_host moved
move_to_folder id to now db = change_host (moved to now) id db

unfoldable pub connected : (at : ℕ) → Row → Row
connected at row = record row { last_connected_at = some at; connect_count = row.connect_count + 1 }

-- No error for an id that names no host.
unfoldable pub record_connection : ℕ → (at : ℕ) → Db → Db
unfolding change_row connected
record_connection id at db = record db { hosts = change_row (connected at) id db.hosts }

-- `source = 'ssh_config' AND source_alias = ?1`
unfoldable pub has_alias : Text → Row → Bool
has_alias alias r = r.source == codes "ssh_config" && same_text r.source_alias (some alias)

unfoldable pub row_of_alias : List Row → Text → Option Row
unfolding has_alias
row_of_alias [] alias = none
row_of_alias (r ∷ rows) alias =
    let rest = row_of_alias rows alias in if has_alias alias r then some r else rest

unfoldable pub find_by_source_alias : Text → Db → Result {0, 0} StoreError (Option Host)
unfolding with_tags row_of_alias
find_by_source_alias alias db = with_tags db (row_of_alias db.hosts alias)

-- `INSERT OR IGNORE INTO host_tags`: an assignment that is there is left, one that names no host or
-- no tag fails.
unfoldable pub insert_tag : ℕ → ℕ → Db → Result {0, 0} StoreError Db
insert_tag id tag db =
    if any (λ r. r.host_id == id && r.tag_id == tag) db.host_tags
    then ok db
    else if contains (ids db.hosts) id && contains (ids db.tags) tag
    then ok (record db { host_tags = db.host_tags ++ record { host_id = id; tag_id = tag } ∷ [] })
    else err (sqlite foreign_key)

unfoldable pub insert_tags : ℕ → List ℕ → Db → Result {0, 0} StoreError Db
unfolding insert_tag
insert_tags id [] db = ok db
insert_tags id (tag ∷ tags) db = insert_tag id tag db >>= insert_tags id tags

-- The assignments of the other hosts.
unfoldable pub without_host : ℕ → Db → Db
without_host id db = record db { host_tags = filter (λ r. not (r.host_id == id)) db.host_tags }

-- One transaction.
unfoldable pub set_tags : ℕ → List ℕ → Db → Result {0, 0} StoreError Db
unfolding insert_tags without_host
set_tags id tags db = insert_tags id tags (without_host id db)
