-- ===== src/Store/Hosts/Read.antt =====
-- What a host that was read has of its row: crates/core-store/src/hosts.rs.
use tern.Prelude.{
  ℕ, ◌≡◌, refl, sym, ap, ◌∙◌, Option, none, some, some-injective, List, [], ◌∷◌, if◌then◌else◌,
  ◌==◌, nat_eq, nat_beq_iff, Bool, true, false, ◌⊎◌, inl, inr, ok, bind-ok, ok-injective, ok_or-ok,
}
use tern.Store.{Host, sqlite, from_sql_conversion_failure, Row, Db}
use tern.Store.Rows.{row_of}
use tern.Store.Hosts.{host_keys, row_to_host, source_of, converted, with_tags, tags_for, get}
use tern.Login.Fallbacks.{kind_of}

pub row_to_host_ok :
    (r : Row) (h : Host)
    → row_to_host r ≡ ok h
    → (h.id ≡ r.id) × (source_of r.source ≡ some h.source) × (h.source_alias ≡ r.source_alias)
unfolding row_to_host
row_to_host_ok r h e =
    let (auth, e1, e') = bind-ok (converted r.auth_method (kind_of r.auth_method)) _ h e in
    let (source, e2, done) = bind-ok (converted r.source (source_of r.source)) _ h e' in
    (
      ap (λ x. x.id) (sym (ok-injective done)),
      ok_or-ok (sqlite (from_sql_conversion_failure r.source)) (source_of r.source) source e2
          ∙ ap some (ap (λ x. x.source) (ok-injective done)),
      ap (λ x. x.source_alias) (sym (ok-injective done)),
    )

-- What a query for one host answered.
pub with_tags_ok :
    (db : Db) (o : Option Row) (answer : Option Host)
    → with_tags db o ≡ ok answer
    → ((o ≡ none) × (answer ≡ none))
      ⊎ ((r : Row) × (h : Host) × (o ≡ some r)
          × (answer ≡ some h)
          × (h.id ≡ r.id)
          × (source_of r.source ≡ some h.source)
          × (h.source_alias ≡ r.source_alias))
unfolding with_tags
with_tags_ok db none answer e = inl (refl, sym (ok-injective e))
with_tags_ok db (some r) answer e =
    let (h, e1, done) = bind-ok (row_to_host r) _ answer e in
    let (same_id, same_source, same_alias) = row_to_host_ok r h e1 in
    inr (
      r,
      record h { tags = tags_for db.host_tags h.id },
      refl,
      sym (ok-injective done),
      same_id,
      same_source,
      same_alias,
    )

row_of-id : (rows : List Row) (id : ℕ) (r : Row) → row_of rows id ≡ some r → r.id ≡ id
unfolding row_of
row_of-id [] id r h = cc
row_of-id (q ∷ rows) id r h = by_test (q.id == id) refl (row_of-id rows id r) h
  where
    by_test :
        (b : Bool)
        → (q.id == id) ≡ b
        → (row_of rows id ≡ some r → r.id ≡ id)
        → (if b then some q else row_of rows id) ≡ some r
        → r.id ≡ id
    by_test true e rest k = ap (λ x. x.id) (sym (some-injective q r k)) ∙ (nat_beq_iff q.id id).0 e
    by_test false e rest k = rest k

-- A host is read under its own id.
pub get-id : (id : ℕ) (db : Db) (h : Host) → get id db ≡ ok (some h) → h.id ≡ id
unfolding get
get-id id db h e = elim (with_tags_ok db (row_of db.hosts id) (some h) e) [
  | inl (n, q) ↦ absurd (some_none q)
  | inr (r, g, k, same, s1, s2, s3) ↦
      ap (λ x. x.id) (some-injective h g same) ∙ s1 ∙ row_of-id db.hosts id r k
]
  where
    some_none : ¬ (some h ≡ none)
    some_none q = cc
