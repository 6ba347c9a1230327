-- ===== src/Store/Tags.antt =====
-- The tags of the store: crates/core-store/src/tags.rs.
use tern.Prelude.{
  ℕ, ◌≡◌, refl, sym, ap, ◌∙◌, subst, not, Option, none, some, List, [], ◌∷◌, ◌++◌, Text, codes,
  filter, is_empty, trim, to_ascii_lowercase, if◌then◌else◌, ◌==◌, list_eq, nat_eq, Result, ok, err,
  ok_or, ◌>>=◌, sort_by, text_before, bind-ok, ok-injective, arith, list_beq_iff,
}
use tern.Store.{StoreError, invalid, not_found, tag_entity, Tag, Db}
use tern.Store.Rows.{ids, next_id, row_of, delete_row}
use tern.Store.Hosts.{tag_keys}
use tern.Store.Folders.{checked_name}

-- `SELECT id FROM tags WHERE name = ?1 COLLATE NOCASE`
unfoldable pub id_of_name : List Tag → Text → Option ℕ
unfolding to_ascii_lowercase
id_of_name [] name = none
id_of_name (t ∷ tags) name =
    let rest = id_of_name tags name in
    if to_ascii_lowercase t.name == to_ascii_lowercase name then some t.id else rest

-- The row that `get_or_create` inserts.
unfoldable pub new_tag : List Tag → Text → Option Text → (now : ℕ) → Tag
unfolding next_id
new_tag tags name color now = record {
  id = next_id (ids tags);
  name = name;
  color = color;
  created_at = now;
}

-- What follows the query for the name.
unfoldable pub found_or_insert : Text → Option Text → (now : ℕ) → Db → Option ℕ → ℕ × Db
unfolding new_tag
found_or_insert name color now db (some id) = (id, db)
found_or_insert name color now db none =
    (next_id (ids db.tags), record db { tags = db.tags ++ new_tag db.tags name color now ∷ [] })

unfoldable pub get_or_create :
    Text → Option Text → (now : ℕ) → Db → Result {0, 0} StoreError (ℕ × Db)
unfolding checked_name id_of_name found_or_insert
get_or_create name color now db = do
  name' ← checked_name (codes "tag name cannot be empty") name
  ok (found_or_insert name' color now db (id_of_name db.tags name'))

unfoldable pub list : Db → List Tag
unfolding sort_by text_before to_ascii_lowercase
list db =
    sort_by (λ t u. text_before (to_ascii_lowercase t.name) (to_ascii_lowercase u.name)) db.tags

unfoldable pub delete : ℕ → Db → Result {0, 0} StoreError Db
unfolding row_of delete_row
delete id db = do
  tag ← ok_or (not_found tag_entity id) (row_of db.tags id)
  ok (record db {
    tags = delete_row id db.tags;
    host_tags = filter (λ r. not (r.tag_id == id)) db.host_tags;
  })

id_of_name-snoc :
    (tags : List Tag) (t : Tag) (name : Text)
    → id_of_name tags name ≡ none
    → to_ascii_lowercase t.name ≡ to_ascii_lowercase name
    → id_of_name (tags ++ t ∷ []) name ≡ some t.id
unfolding id_of_name
id_of_name-snoc [] t name h e =
    rw ((list_beq_iff (to_ascii_lowercase t.name) (to_ascii_lowercase name)).1 e) refl
id_of_name-snoc (u ∷ tags) t name h e =
    let ih : id_of_name tags name ≡ none → id_of_name (tags ++ t ∷ []) name ≡ some t.id =
      λ n. id_of_name-snoc tags t name n e in
    ground arith

id_of_name-same :
    (tags : List Tag) (a b : Text)
    → to_ascii_lowercase a ≡ to_ascii_lowercase b
    → id_of_name tags a ≡ id_of_name tags b
unfolding id_of_name
id_of_name-same [] a b e = refl
id_of_name-same (t ∷ tags) a b e = rw (e, id_of_name-same tags a b e) refl

-- The name is taken afterwards, by the id that was returned.
found_or_insert-known :
    (name : Text) (color : Option Text) (now : ℕ) (db : Db) (o : Option ℕ)
    → id_of_name db.tags name ≡ o
    → id_of_name (found_or_insert name color now db o).1.tags name
      ≡ some (found_or_insert name color now db o).0
unfolding found_or_insert new_tag
found_or_insert-known name color now db (some id) e = e
found_or_insert-known name color now db none e =
    id_of_name-snoc db.tags (new_tag db.tags name color now) name e refl

is_empty-to_ascii_lowercase : (t : Text) → is_empty (to_ascii_lowercase t) ≡ is_empty t
unfolding to_ascii_lowercase
is_empty-to_ascii_lowercase [] = refl
is_empty-to_ascii_lowercase (c ∷ t) = refl

checked_name_same :
    (message a b n : Text)
    → to_ascii_lowercase (trim b) ≡ to_ascii_lowercase (trim a)
    → checked_name message a ≡ ok n
    → (n ≡ trim a) × (checked_name message b ≡ ok (trim b))
unfolding checked_name
checked_name_same message a b n e h =
    checked (trim a) (trim b)
      (sym (is_empty-to_ascii_lowercase (trim b))
        ∙ ap is_empty e
        ∙ is_empty-to_ascii_lowercase (trim a))
      h
  where
    checked :
        (u v : Text)
        → is_empty v ≡ is_empty u
        → ◌≡◌ {A = Result {0, 0} StoreError Text}
            (if is_empty u then err (invalid message) else ok u)
            (ok n)
        → (n ≡ u) × ((if is_empty v then err (invalid message) else ok v) ≡ ok v)
    checked [] v q h = cc
    checked (c ∷ u) v q h = (sym (ok-injective h), rw q refl)

-- A tag that was asked for once is the tag of its name from then on: asking again, under any name that differs from it only in the case of ASCII letters or in the white space around it and with any colour, returns the same id and changes nothing.
pub get_or_create-again :
    (name name' : Text) (color color' : Option Text) (now now' : ℕ) (db : Db) (id : ℕ) (db' : Db)
    → get_or_create name color now db ≡ ok (id, db')
    → to_ascii_lowercase (trim name') ≡ to_ascii_lowercase (trim name)
    → get_or_create name' color' now' db' ≡ ok (id, db')
unfolding get_or_create
get_or_create-again name name' color color' now now' db id db' h e =
    let (n, c, done) =
      bind-ok (checked_name (codes "tag name cannot be empty") name) _ (id, db') h in
    let (same, c') = checked_name_same (codes "tag name cannot be empty") name name' n e c in
    let known : id_of_name db'.tags n ≡ some id =
      subst (λ p. id_of_name p.1.tags n ≡ some p.0) (ok-injective done)
        (found_or_insert-known n color now db (id_of_name db.tags n) refl) in
    let found : id_of_name db'.tags (trim name') ≡ some id =
      id_of_name-same db'.tags (trim name') n (e ∙ ap to_ascii_lowercase (sym same)) ∙ known in
    again (trim name') color' now' db' id c' found
  where
    again :
        (n : Text) (color : Option Text) (now : ℕ) (d : Db) (id : ℕ)
        → checked_name (codes "tag name cannot be empty") name' ≡ ok n
        → id_of_name d.tags n ≡ some id
        → get_or_create name' color now d ≡ ok (id, d)
    again n color now d id c found = rw (c, found, found_or_insert) refl
