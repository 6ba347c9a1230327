-- ===== src/Store/Hosts/Table.antt =====
-- The table of hosts as a map from ids to rows.
use tern.Prelude.{
  ℕ, ◌≡◌, refl, sym, ap, ◌∙◌, Option, none, some, List, ◌==◌, nat_eq, Result, ok, err, ok-injective,
  if◌then◌else◌, arith, bind-ok, ok_or, ok_or-ok,
}
use mathlib.Core.Option
use tern.Store.{Host, NewHost, StoreError, Row, Db, not_found, host_entity}
use tern.Store.Rows.{
  ids, next_id, row_of, change_row, row_of-appended, row_of-next_id, row_of-change, row_of-delete,
}
use tern.Store.Hosts.{
  host_keys, create, update, delete, move_to_folder, record_connection, row_of_draft, updated,
  moved, connected, constraints, change_host,
}
use tern.Store.Hosts.Created.{create_ok}

-- The calls that change the table, with the time at which they happen.
pub data HostCall : Type 0 where
  create_call : NewHost → (now : ℕ) → HostCall
  update_call : Host → (now : ℕ) → HostCall
  delete_call : ℕ → HostCall
  move_call : ℕ → Option ℕ → (now : ℕ) → HostCall
  connection_call : ℕ → (at : ℕ) → HostCall

unfoldable pub perform : HostCall → Db → Result {0, 0} StoreError Db
perform (create_call draft now) db = elim (create draft now db) [ ok p ↦ ok p.1 | err e ↦ err e ]
perform (update_call host now) db = update host now db
perform (delete_call id) db = delete id db
perform (move_call id to now) db = move_to_folder id to now db
perform (connection_call id at) db = ok (record_connection id at db)

abbrev pub HostMap : Type 0
HostMap = ℕ → Option Row

abbrev pub view : Db → HostMap
view db = row_of db.hosts

-- A map changed at one id.
abbrev pub at_id : ℕ → Option Row → HostMap → HostMap
at_id id o m i = if id == i then o else m i

-- What a call means for the map: a creation takes an id that is free, the others change one host.
unfoldable pub Means : HostCall → HostMap → HostMap → Type 0
Means (create_call draft now) m m' =
    (id : ℕ) × (m id ≡ none) × ((i : ℕ) → m' i ≡ at_id id (some (row_of_draft draft id now)) m i)
Means (update_call host now) m m' =
    (row : Row) × (m host.id ≡ some row)
    × ((i : ℕ) → m' i ≡ at_id host.id (some (updated host now row)) m i)
Means (delete_call id) m m' = (row : Row) × (m id ≡ some row) × ((i : ℕ) → m' i ≡ at_id id none m i)
Means (move_call id to now) m m' =
    (row : Row) × (m id ≡ some row) × ((i : ℕ) → m' i ≡ at_id id (some (moved to now row)) m i)
Means (connection_call id at) m m' =
    (i : ℕ) → m' i ≡ at_id id (Option.map (connected at) (m id)) m i

-- The new row is what the change makes of the old one.
at_found :
    (f : Row → Row) (id : ℕ) (m : HostMap) (row : Row)
    → m id ≡ some row
    → (i : ℕ) → at_id id (Option.map f (m id)) m i ≡ at_id id (some (f row)) m i
at_found f id m row e i = rw e refl

view-change :
    (f : Row → Row) (same : (r : Row) → (f r).id ≡ r.id) (id : ℕ) (rows : List Row) (i : ℕ)
    → row_of (change_row f id rows) i ≡ at_id id (Option.map f (row_of rows id)) (row_of rows) i
view-change f same id rows i =
    let step : row_of (change_row f id rows) i
        ≡ (if id == i then Option.map f (row_of rows i) else row_of rows i) =
      row_of-change f id rows i same in
    ground arith

-- The map behind a change of one host.
pub change_host-view :
    (f : Row → Row) (same : (r : Row) → (f r).id ≡ r.id) (id : ℕ) (db db' : Db)
    → change_host f id db ≡ ok db'
    → (row : Row) × (view db id ≡ some row)
      × ((i : ℕ) → view db' i ≡ at_id id (some (f row)) (view db) i)
unfolding change_host
change_host-view f same id db db' h =
    let (row, found, h') =
      bind-ok (ok_or (not_found host_entity id) (row_of db.hosts id)) _ db' h in
    let (u, c, done) = bind-ok (constraints db (f row)) _ db' h' in
    let e : row_of db.hosts id ≡ some row =
      ok_or-ok (not_found host_entity id) (row_of db.hosts id) row found in
    (
      row,
      e,
      λ i.
          ap (λ d. view d i) (sym (ok-injective done))
          ∙ view-change f same id db.hosts i
          ∙ at_found f id (view db) row e i,
    )

delete-view :
    (id : ℕ) (db db' : Db)
    → delete id db ≡ ok db'
    → (row : Row) × (view db id ≡ some row) × ((i : ℕ) → view db' i ≡ at_id id none (view db) i)
unfolding delete
delete-view id db db' h =
    let (row, found, done) =
      bind-ok (ok_or (not_found host_entity id) (row_of db.hosts id)) _ db' h in
    (
      row,
      ok_or-ok (not_found host_entity id) (row_of db.hosts id) row found,
      λ i. ap (λ d. view d i) (sym (ok-injective done)) ∙ row_of-delete id db.hosts i,
    )

-- The map behind a creation.
pub create-view :
    (draft : NewHost) (now : ℕ) (db : Db) (id : ℕ) (db' : Db)
    → create draft now db ≡ ok (id, db')
    → (view db id ≡ none)
      × ((i : ℕ) → view db' i ≡ at_id id (some (row_of_draft draft id now)) (view db) i)
unfolding row_of_draft
create-view draft now db id db' h =
    let (ei, ed) = create_ok draft now db id db' h in
    (
      ap (view db) ei ∙ row_of-next_id db.hosts,
      λ i.
          ap (λ d. view d i) ed
          ∙ row_of-appended db.hosts (row_of_draft draft (next_id (ids db.hosts)) now) refl i
          ∙ ap (λ n. at_id n (some (row_of_draft draft n now)) (view db) i) (sym ei),
    )

created_only :
    (r : Result {0, 0} StoreError (ℕ × Db)) (db' : Db)
    → ◌≡◌ {A = Result {0, 0} StoreError Db} (elim r [ ok p ↦ ok p.1 | err e ↦ err e ]) (ok db')
    → (id : ℕ) × (r ≡ ok (id, db'))
created_only (ok (id, d)) db' h = (id, ap (λ x. ok (id, x)) (ok-injective h))
created_only (err e) db' h = cc

-- Each call that succeeds does to the map from ids to hosts what it means: a creation takes an id that was free, an update, a move and a deletion need the host and touch no other, and a connection to an id without a host changes nothing.
pub perform-Means :
    (c : HostCall) (db db' : Db) → perform c db ≡ ok db' → Means c (view db) (view db')
unfolding perform Means update move_to_folder record_connection updated moved connected
perform-Means (create_call draft now) db db' h =
    let (id, e) = created_only (create draft now db) db' h in
    let (free, shows) = create-view draft now db id db' e in (id, free, shows)
perform-Means (update_call host now) db db' h =
    change_host-view (updated host now) (λ r. refl) host.id db db' h
perform-Means (delete_call id) db db' h = delete-view id db db' h
perform-Means (move_call id to now) db db' h =
    change_host-view (moved to now) (λ r. refl) id db db' h
perform-Means (connection_call id at) db db' h = λ i.
    ap (λ d. view d i) (sym (ok-injective h)) ∙ view-change (connected at) (λ r. refl) id db.hosts i
