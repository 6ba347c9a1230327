-- ===== src/Store/Hosts/Tagged.antt =====
-- The tags of a host after `set_tags`.
use tern.Prelude.{
  ℕ, ◌≡◌, refl, sym, ap, ◌∙◌, Bool, true, false, not, ◌&&◌, ◌||◌, List, [], ◌∷◌, ◌++◌, map, filter,
  any, contains, ◌==◌, nat_eq, ok, err, bind-ok, ok-injective, if◌then◌else◌, arith,
}
use tern.Store.{sqlite, foreign_key, HostTag, Db}
use tern.Store.Rows.{ids}
use tern.Store.Hosts.{
  host_keys, tag_keys, insert_sorted, sort, tags_for, insert_tag, insert_tags, without_host,
  set_tags,
}

-- Whether an assignment stands in the table.
abbrev pub assigned : List HostTag → (id tag : ℕ) → Bool
assigned rows id tag = any (λ r. r.host_id == id && r.tag_id == tag) rows

contains-insert_sorted :
    (t : ℕ) (ts : List ℕ) (u : ℕ) → contains (insert_sorted t ts) u ≡ (t == u || contains ts u)
unfolding insert_sorted
contains-insert_sorted t [] u = ground arith
contains-insert_sorted t (v ∷ ts) u =
    let ih : contains (insert_sorted t ts) u ≡ (t == u || contains ts u) =
      contains-insert_sorted t ts u in
    ground arith

contains-sort : (ts : List ℕ) (u : ℕ) → contains (sort ts) u ≡ contains ts u
unfolding sort
contains-sort [] u = refl
contains-sort (t ∷ ts) u =
    contains-insert_sorted t (sort ts) u ∙ ap (λ b. t == u || b) (contains-sort ts u)

contains-of_host :
    (rows : List HostTag) (id tag : ℕ)
    → contains (map (λ r. r.tag_id) (filter (λ r. r.host_id == id) rows)) tag ≡ assigned rows id tag
contains-of_host [] id tag = refl
contains-of_host (r ∷ rows) id tag =
    let ih : contains (map (λ r. r.tag_id) (filter (λ r. r.host_id == id) rows)) tag
        ≡ assigned rows id tag =
      contains-of_host rows id tag in
    ground arith

-- A host reads the tags that are assigned to it.
tags_for-assigned :
    (rows : List HostTag) (id tag : ℕ) → contains (tags_for rows id) tag ≡ assigned rows id tag
unfolding tags_for
tags_for-assigned rows id tag =
    contains-sort (map (λ r. r.tag_id) (filter (λ r. r.host_id == id) rows)) tag
    ∙ contains-of_host rows id tag

assigned-snoc :
    (rows : List HostTag) (r : HostTag) (id tag : ℕ)
    → assigned (rows ++ r ∷ []) id tag
      ≡ (assigned rows id tag || (r.host_id == id && r.tag_id == tag))
assigned-snoc [] r id tag = ground arith
assigned-snoc (q ∷ rows) r id tag = rw (assigned-snoc rows r id tag) ground arith

assigned-without :
    (rows : List HostTag) (id i tag : ℕ)
    → assigned (filter (λ r. not (r.host_id == id)) rows) i tag
      ≡ (not (id == i) && assigned rows i tag)
assigned-without [] id i tag = ground arith
assigned-without (r ∷ rows) id i tag =
    let ih : assigned (filter (λ r. not (r.host_id == id)) rows) i tag
        ≡ (not (id == i) && assigned rows i tag) =
      assigned-without rows id i tag in
    ground arith

-- An assignment that stands in the table is not changed by one more.
already :
    (rows : List HostTag) (id t i tag : ℕ)
    → assigned rows id t ≡ true
    → assigned rows i tag ≡ (assigned rows i tag || (id == i && t == tag))
already [] id t i tag h = cc
already (r ∷ rows) id t i tag h =
    let ih : assigned rows id t ≡ true
        → assigned rows i tag ≡ (assigned rows i tag || (id == i && t == tag)) =
      already rows id t i tag in
    ground arith

-- The three outcomes of an insertion.
assigned-inserted :
    (id t : ℕ) (db db' : Db) (i tag : ℕ) (there refers : Bool)
    → there ≡ assigned db.host_tags id t
    → (if there
        then ok db
        else if refers
        then ok (record db { host_tags = db.host_tags ++ record { host_id = id; tag_id = t } ∷ [] })
        else err (sqlite foreign_key))
      ≡ ok db'
    → assigned db'.host_tags i tag ≡ (assigned db.host_tags i tag || (id == i && t == tag))
assigned-inserted id t db db' i tag true refers e h =
    rw (sym (ok-injective h)) (already db.host_tags id t i tag (sym e))
assigned-inserted id t db db' i tag false true e h =
    rw (sym (ok-injective h))
      (assigned-snoc db.host_tags (record { host_id = id; tag_id = t }) i tag)
assigned-inserted id t db db' i tag false false e h = cc

assigned-insert_tag :
    (id t : ℕ) (db db' : Db) (i tag : ℕ)
    → insert_tag id t db ≡ ok db'
    → assigned db'.host_tags i tag ≡ (assigned db.host_tags i tag || (id == i && t == tag))
unfolding insert_tag
assigned-insert_tag id t db db' i tag h =
    assigned-inserted id t db db' i tag (assigned db.host_tags id t)
      (contains (ids db.hosts) id && contains (ids db.tags) t) refl h

assigned-insert_tags :
    (id : ℕ) (ts : List ℕ) (db db' : Db) (i tag : ℕ)
    → insert_tags id ts db ≡ ok db'
    → assigned db'.host_tags i tag ≡ (assigned db.host_tags i tag || (id == i && contains ts tag))
unfolding insert_tags
assigned-insert_tags id [] db db' i tag h = rw (sym (ok-injective h)) (ground arith)
assigned-insert_tags id (t ∷ ts) db db' i tag h =
    let (mid, one, rest) = bind-ok (insert_tag id t db) (insert_tags id ts) db' h in
    rw (assigned-insert_tags id ts mid db' i tag rest, assigned-insert_tag id t db mid i tag one)
      (ground arith)

-- After `set_tags` succeeds, the host reads the tags that were passed and no others, and every other host reads the tags it had.
pub tags_for-set_tags :
    (id : ℕ) (ts : List ℕ) (db db' : Db)
    → set_tags id ts db ≡ ok db'
    → (i tag : ℕ)
    → contains (tags_for db'.host_tags i) tag
      ≡ (if id == i then contains ts tag else contains (tags_for db.host_tags i) tag)
unfolding set_tags without_host
tags_for-set_tags id ts db db' h i tag =
    rw
      (
        tags_for-assigned db'.host_tags i tag,
        tags_for-assigned db.host_tags i tag,
        assigned-insert_tags id ts (without_host id db) db' i tag h,
        assigned-without db.host_tags id i tag,
      )
      (ground arith)
