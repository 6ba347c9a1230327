-- ===== src/Store/Hosts/Created.antt =====
-- What a new host is when it is read back.
use tern.Prelude.{
  ℕ, ◌≡◌, ◌≢◌, refl, sym, ap, ◌∙◌, subst, true, false, Option, none, some, List, [], ◌∷◌, ◌++◌, All,
  contains, ◌==◌, nat_eq, ok, bind-ok, ok-injective,
}
use tern.Store.{HostSource, manual, ssh_config, Host, NewHost, StoreError, Row, HostTag, Db}
use tern.Store.Rows.{
  ids, next_id, row_of, row_of-appended_itself, row_of-appended_other, next_id_fresh,
}
use tern.Store.Hosts.{
  host_keys, create, get, with_tags, row_of_draft, constraints, row_to_host, source_of, source_name,
  tags_for,
}
use tern.Login.Fallbacks.{as_str, kind_of, decode-encode_auth_fallbacks}

-- The host that a draft describes, under the id and at the time that the store gives it.
unfoldable pub host_of_draft : NewHost → (id now : ℕ) → Host
host_of_draft draft id now = record {
  id = id;
  folder_id = draft.folder_id;
  name = draft.name;
  hostname = draft.hostname;
  port = draft.port;
  username = draft.username;
  auth = draft.auth;
  auth_fallbacks = draft.auth_fallbacks;
  secret_ref = draft.secret_ref;
  key_path = draft.key_path;
  overrides = draft.overrides;
  proxy_jump = draft.proxy_jump;
  source = draft.source;
  source_alias = draft.source_alias;
  color = draft.color;
  notes = draft.notes;
  last_connected_at = none;
  connect_count = 0;
  created_at = now;
  updated_at = now;
  tags = [];
}

pub kind_of-as_str : (k : tern.Store.AuthKind) → kind_of (as_str k) ≡ some k
unfolding kind_of as_str
kind_of-as_str tern.Store.agent_kind = refl
kind_of-as_str tern.Store.key_file_kind = refl
kind_of-as_str tern.Store.password_kind = refl

pub source_of-name : (s : HostSource) → source_of (source_name s) ≡ some s
unfolding source_of source_name
source_of-name manual = refl
source_of-name ssh_config = refl

row_to_host-draft :
    (draft : NewHost) (id now : ℕ)
    → row_to_host (row_of_draft draft id now) ≡ ok (host_of_draft draft id now)
unfolding row_to_host row_of_draft host_of_draft
row_to_host-draft draft id now =
    rw
      (
        kind_of-as_str draft.auth,
        source_of-name draft.source,
        decode-encode_auth_fallbacks draft.auth_fallbacks,
      )
      refl

tags_for-none :
    (rows : List HostTag) (id : ℕ)
    → All (λ r. (r.host_id == id) ≡ false) rows
    → tags_for rows id ≡ []
unfolding tags_for tern.Store.Hosts.sort
tags_for-none [] id h = refl
tags_for-none (r ∷ rows) id (h, hs) = rw h (tags_for-none rows id hs)

-- Each row of `host_tags` names a host.
unfoldable pub TagsRefer : Db → Type 0
TagsRefer db = All (λ r. contains (ids db.hosts) r.host_id ≡ true) db.host_tags

pub create_ok :
    (draft : NewHost) (now : ℕ) (db : Db) (i : ℕ) (db' : Db)
    → create draft now db ≡ ok (i, db')
    → (i ≡ next_id (ids db.hosts))
      × (db'
          ≡ record db { hosts = db.hosts ++ row_of_draft draft (next_id (ids db.hosts)) now ∷ [] })
unfolding create
create_ok draft now db i db' h =
    let (u, c, e) =
      bind-ok (constraints db (row_of_draft draft (next_id (ids db.hosts)) now)) _ (i, db') h in
    (sym (ap (λ p. p.0) (ok-injective e)), sym (ap (λ p. p.1) (ok-injective e)))

All-map :
    {A : Type 0} {P Q : A → Type 0} → ((a : A) → P a → Q a) → (xs : List A) → All P xs → All Q xs
All-map f [] h = tt
All-map f (x ∷ xs) (p, ps) = (f x p, All-map f xs ps)

pub with_tags-hosts :
    (db : Db) (rows : List Row) (o : Option Row)
    → with_tags (record db { hosts = rows }) o ≡ with_tags db o
unfolding with_tags
with_tags-hosts db rows none = refl
with_tags-hosts db rows (some r) = refl

with_tags-draft :
    (draft : NewHost) (id now : ℕ) (db : Db)
    → tags_for db.host_tags id ≡ []
    → with_tags db (some (row_of_draft draft id now)) ≡ ok (some (host_of_draft draft id now))
unfolding with_tags host_of_draft
with_tags-draft draft id now db e = rw (row_to_host-draft draft id now, e) refl

no_tags_yet : (db : Db) → TagsRefer db → tags_for db.host_tags (next_id (ids db.hosts)) ≡ []
unfolding TagsRefer
no_tags_yet db t =
    tags_for-none db.host_tags (next_id (ids db.hosts))
      (All-map (λ r. next_id_fresh (ids db.hosts) r.host_id) db.host_tags t)

module _ (draft : NewHost) (now : ℕ) (db : Db) (t : TagsRefer db) where
  abbrev new_row : Row
  new_row = row_of_draft draft (next_id (ids db.hosts)) now

  abbrev after : Db
  after = record db { hosts = db.hosts ++ new_row ∷ [] }

  new_row_id : new_row.id ≡ next_id (ids db.hosts)
  unfolding row_of_draft
  new_row_id = refl

  get-created_itself :
      get (next_id (ids db.hosts)) after
      ≡ ok (some (host_of_draft draft (next_id (ids db.hosts)) now))
  unfolding get
  get-created_itself =
      with_tags-hosts db (db.hosts ++ new_row ∷ [])
        (row_of (db.hosts ++ new_row ∷ []) (next_id (ids db.hosts)))
      ∙ ap (with_tags db) (
          row_of-appended_itself db.hosts new_row new_row_id (next_id (ids db.hosts))
            (sym new_row_id))
      ∙ with_tags-draft draft (next_id (ids db.hosts)) now db (no_tags_yet db t)

  get-created_other : (j : ℕ) → j ≢ next_id (ids db.hosts) → get j after ≡ get j db
  unfolding get
  get-created_other j n =
      with_tags-hosts db (db.hosts ++ new_row ∷ []) (row_of (db.hosts ++ new_row ∷ []) j)
      ∙ ap (with_tags db)
          (row_of-appended_other db.hosts new_row new_row_id j (λ e. n (e ∙ new_row_id)))

-- A host that is created is read back under its id as the draft describes it, its fallbacks and source decoded again and without tags, provided that each stored tag assignment names a stored host; every other id reads as before.
pub get-create :
    (draft : NewHost) (now : ℕ) (db : Db) (i : ℕ) (db' : Db)
    → TagsRefer db
    → create draft now db ≡ ok (i, db')
    → (get i db' ≡ ok (some (host_of_draft draft i now))) × ((j : ℕ) → j ≢ i → get j db' ≡ get j db)
get-create draft now db i db' t h =
    let (ei, ed) = create_ok draft now db i db' h in
    (
      ap (get i) ed
          ∙ subst (λ n. get n (after draft now db t) ≡ ok (some (host_of_draft draft n now)))
              (sym ei) (get-created_itself draft now db t),
      λ j n. ap (get j) ed ∙ get-created_other draft now db t j (λ e. n (e ∙ sym ei)),
    )
