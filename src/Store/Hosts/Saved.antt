-- ===== src/Store/Hosts/Saved.antt =====
-- What an updated host is when it is read back.
use tern.Prelude.{
  ℕ, ◌≡◌, refl, sym, ap, ◌∙◌, Option, some, some-injective, List, [], if◌then◌else◌, ◌==◌, nat_eq,
  ok, bind-ok, ok-injective, ok_or, ok_or-ok, arith,
}
use mathlib.Core.Option
use tern.Store.{Host, not_found, host_entity, Row, Db}
use tern.Store.Rows.{row_of, change_row, row_of-change}
use tern.Store.Hosts.{
  host_keys, get, update, change_host, updated, constraints, with_tags, row_to_host, tags_for,
  converted, source_of,
}
use tern.Store.Hosts.Created.{with_tags-hosts, kind_of-as_str, source_of-name}
use tern.Login.Fallbacks.{kind_of, decode-encode_auth_fallbacks}

-- The host `g`, with what no update sets as it is in `h`.
unfoldable pub saved : (g h : Host) (now : ℕ) → Host
saved g h now = record g {
  id = h.id;
  last_connected_at = h.last_connected_at;
  connect_count = h.connect_count;
  created_at = h.created_at;
  updated_at = now;
  tags = h.tags;
}

-- The same, of a row and its tags.
saved_row : (g : Host) (row : Row) (now : ℕ) (tags : List ℕ) → Host
saved_row g row now tags = record g {
  id = row.id;
  last_connected_at = row.last_connected_at;
  connect_count = row.connect_count;
  created_at = row.created_at;
  updated_at = now;
  tags = tags;
}

row_to_host-updated :
    (g : Host) (now : ℕ) (row : Row) → row_to_host (updated g now row) ≡ ok (saved_row g row now [])
unfolding row_to_host updated saved_row
row_to_host-updated g now row =
    rw
      (
        kind_of-as_str g.auth,
        source_of-name g.source,
        decode-encode_auth_fallbacks g.auth_fallbacks,
      )
      refl

with_tags-updated :
    (db : Db) (g : Host) (now : ℕ) (row : Row)
    → with_tags db (some (updated g now row))
      ≡ ok (some (saved_row g row now (tags_for db.host_tags row.id)))
unfolding with_tags saved_row
with_tags-updated db g now row = rw (row_to_host-updated g now row) refl

-- What a host that was read has of its row.
saved-read :
    (db : Db) (g h : Host) (now : ℕ) (row : Row)
    → with_tags db (some row) ≡ ok (some h)
    → saved_row g row now (tags_for db.host_tags row.id) ≡ saved g h now
unfolding with_tags saved saved_row row_to_host
saved-read db g h now row e =
    let (h0, e1, done) = bind-ok (row_to_host row) _ (some h) e in
    let (auth, e2, e3) = bind-ok (converted row.auth_method (kind_of row.auth_method)) _ h0 e1 in
    let (source, e4, made) = bind-ok (converted row.source (source_of row.source)) _ h0 e3 in
    ap (λ x. saved g (record x { tags = tags_for db.host_tags x.id }) now) (ok-injective made)
    ∙ ap (λ x. saved g x now)
        (some-injective (record h0 { tags = tags_for db.host_tags h0.id }) h (ok-injective done))

update_ok :
    (g : Host) (now : ℕ) (db db' : Db)
    → update g now db ≡ ok db'
    → (row : Row) × (row_of db.hosts g.id ≡ some row)
      × (db' ≡ record db { hosts = change_row (updated g now) g.id db.hosts })
unfolding update change_host
update_ok g now db db' h =
    let (row, found, h') =
      bind-ok (ok_or (not_found host_entity g.id) (row_of db.hosts g.id)) _ db' h in
    let (u, c, done) = bind-ok (constraints db (updated g now row)) _ db' h' in
    (
      row,
      ok_or-ok (not_found host_entity g.id) (row_of db.hosts g.id) row found,
      sym (ok-injective done),
    )

row_of-changed :
    (f : Row → Row) (id : ℕ) (rows : List Row) (row : Row)
    → ((r : Row) → (f r).id ≡ r.id)
    → row_of rows id ≡ some row
    → row_of (change_row f id rows) id ≡ some (f row)
row_of-changed f id rows row same e =
    row_of-change f id rows id same
    ∙ itself id (Option.map f (row_of rows id)) (row_of rows id)
    ∙ ap (Option.map f) e
  where
    itself : (n : ℕ) (a b : Option Row) → (if n == n then a else b) ≡ a
    itself n a b = ground arith

-- A host that was read and is updated is read back as it was passed, with what no update sets as it was read (its connections, its creation and its tags) and the time of the update.
pub get-update :
    (g h : Host) (now : ℕ) (db db' : Db)
    → g.id ≡ h.id
    → get g.id db ≡ ok (some h)
    → update g now db ≡ ok db'
    → get g.id db' ≡ ok (some (saved g h now))
unfolding get updated
get-update g h now db db' same before e =
    let (row, found, done) = update_ok g now db db' e in
    ap (λ d. with_tags d (row_of d.hosts g.id)) done
    ∙ with_tags-hosts db (change_row (updated g now) g.id db.hosts)
        (row_of (change_row (updated g now) g.id db.hosts) g.id)
    ∙ ap (with_tags db) (row_of-changed (updated g now) g.id db.hosts row (λ r. refl) found)
    ∙ with_tags-updated db g now row
    ∙ ap (λ x. ok (some x)) (saved-read db g h now row (ap (with_tags db) (sym found) ∙ before))
