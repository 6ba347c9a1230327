-- ===== src/SshConfig/Import/Steps.antt =====
-- What the import of one host does to the table: `apply` of
-- crates/core-store/src/ssh_config/mod.rs.
use tern.Prelude.{
  ℕ, ◌≡◌, refl, sym, ap, ap₂, ◌∙◌, subst, Bool, true, false, ◌||◌, false≢true, Option, none, some,
  some-injective, List, [], ◌∷◌, ◌++◌, Text, ◌==◌, list_eq, nat_eq, nat_beq_iff, if◌then◌else◌,
  arith, Distinct, Distinct-snoc, contains, Bool-cases, ◌⊎◌, inl, inr, ok, bind-ok, ok-injective,
  ok_or, map,
}
use tern.Store.{Host, NewHost, not_found, host_entity, Row, Db}
use tern.Store.Rows.{ids, next_id, next_id_fresh, row_of, change_row}
use tern.Store.Hosts.{
  host_keys, source_of, has_alias, row_of_alias, update, create, updated, row_of_draft, change_host,
  constraints,
}
use tern.Store.Hosts.Created.{create_ok}
use tern.Store.Hosts.Table.{view, at_id}
use tern.SshConfig.Import.{Candidate, Disposition, new_host, update_host, refreshed, draft_of}

row_of-none : (rows : List Row) (i : ℕ) → contains (ids rows) i ≡ false → row_of rows i ≡ none
unfolding row_of
row_of-none [] i h = refl
row_of-none (r ∷ rows) i h =
    let ih : contains (ids rows) i ≡ false → row_of rows i ≡ none = row_of-none rows i in
    ground arith

-- The row of an alias is the first row or a later one.
alias_cons :
    (q : Row) (rows : List Row) (a : Text) (r : Row)
    → row_of_alias (q ∷ rows) a ≡ some r
    → ((q ≡ r) × (has_alias a q ≡ true)) ⊎ (row_of_alias rows a ≡ some r)
unfolding row_of_alias
alias_cons q rows a r h = by_test (has_alias a q) refl h
  where
    by_test :
        (b : Bool)
        → has_alias a q ≡ b
        → (if b then some q else row_of_alias rows a) ≡ some r
        → ((q ≡ r) × (has_alias a q ≡ true)) ⊎ (row_of_alias rows a ≡ some r)
    by_test true e h = inl (some-injective q r h, e)
    by_test false e h = inr h

or_left : (a b : Bool) → a ≡ true → (a || b) ≡ true
or_left a b h = ground arith

or_right : (a b : Bool) → b ≡ true → (a || b) ≡ true
or_right a b h = ground arith

known_id :
    (rows : List Row) (a : Text) (r : Row)
    → row_of_alias rows a ≡ some r
    → contains (ids rows) r.id ≡ true
unfolding row_of_alias
known_id [] a r h = cc
known_id (q ∷ rows) a r h = elim (alias_cons q rows a r h) [
  | inl (e, t) ↦
      or_left (q.id == r.id) (contains (ids rows) r.id)
        ((nat_beq_iff q.id r.id).1 (ap (λ x. x.id) e))
  | inr k ↦ or_right (q.id == r.id) (contains (ids rows) r.id) (known_id rows a r k)
]

pub row_of_alias-has :
    (rows : List Row) (a : Text) (r : Row) → row_of_alias rows a ≡ some r → has_alias a r ≡ true
unfolding row_of_alias
row_of_alias-has [] a r h = cc
row_of_alias-has (q ∷ rows) a r h = elim (alias_cons q rows a r h) [
  | inl (e, t) ↦ subst (λ x. has_alias a x ≡ true) e t
  | inr k ↦ row_of_alias-has rows a r k
]

-- Where ids are distinct, the row of an alias is the row of its id.
pub row_of-alias :
    (rows : List Row) (a : Text) (r : Row)
    → Distinct (ids rows)
    → row_of_alias rows a ≡ some r
    → row_of rows r.id ≡ some r
unfolding row_of row_of_alias
row_of-alias [] a r d h = cc
row_of-alias (q ∷ rows) a r (n, d) h = elim (alias_cons q rows a r h) [
  | inl (e, t) ↦ first (q.id) (r.id) q (row_of rows r.id) (ap (λ x. x.id) e) ∙ ap some e
  | inr k ↦
      later q.id r.id q (row_of rows r.id)
        (differs (q.id) (r.id) (ids rows) n (known_id rows a r k))
      ∙ row_of-alias rows a r d k
]
  where
    first : (i j : ℕ) (q : Row) (o : Option Row) → i ≡ j → (if i == j then some q else o) ≡ some q
    first i j q o e = ground arith

    later :
        (i j : ℕ) (q : Row) (o : Option Row) → (i == j) ≡ false → (if i == j then some q else o) ≡ o
    later i j q o e = ground arith

    differs :
        (i j : ℕ) (is : List ℕ) → contains is i ≡ false → contains is j ≡ true → (i == j) ≡ false
    differs i j is n c = elim (Bool-cases (i == j)) [
      | inl t ↦
          absurd
            (false≢true (sym n ∙ subst (λ x. contains is x ≡ true) (sym ((nat_beq_iff i j).0 t)) c))
      | inr f ↦ f
    ]

-- A row that has an alias makes the alias known.
pub alias_of-row :
    (rows : List Row) (i : ℕ) (r : Row) (a : Text)
    → row_of rows i ≡ some r
    → has_alias a r ≡ true
    → (q : Row) × (row_of_alias rows a ≡ some q)
unfolding row_of row_of_alias
alias_of-row [] i r a e h = cc
alias_of-row (q ∷ rows) i r a e h =
    by_tests (λ k. alias_of-row rows i r a k h) (has_alias a q) refl (q.id == i) e
  where
    by_tests :
        (row_of rows i ≡ some r → (x : Row) × (row_of_alias rows a ≡ some x))
        → (b : Bool) → has_alias a q ≡ b
        → (c : Bool) → (if c then some q else row_of rows i) ≡ some r
        → (x : Row) × ((if b then some q else row_of_alias rows a) ≡ some x)
    by_tests rest true t c e = (q, refl)
    by_tests rest false f true e =
        absurd
          (false≢true (sym f ∙ subst (λ x. has_alias a x ≡ true) (sym (some-injective q r e)) h))
    by_tests rest false f false e = rest e

ids-change :
    (f : Row → Row) (id : ℕ) (rows : List Row)
    → ((r : Row) → (f r).id ≡ r.id)
    → ids (change_row f id rows) ≡ ids rows
unfolding change_row
ids-change f id [] same = refl
ids-change f id (r ∷ rows) same = by_test (r.id == id) (ids-change f id rows same)
  where
    by_test :
        (b : Bool)
        → ids (change_row f id rows) ≡ ids rows
        → ids (if b then f r ∷ change_row f id rows else r ∷ change_row f id rows) ≡ r.id ∷ ids rows
    by_test true e = ap₂ ◌∷◌ (same r) e
    by_test false e = ap (λ l. r.id ∷ l) e

pub update-ids :
    (h : Host) (now : ℕ) (db db' : Db) → update h now db ≡ ok db' → ids db'.hosts ≡ ids db.hosts
unfolding update change_host updated
update-ids h now db db' e =
    let (row, found, e') =
      bind-ok (ok_or (not_found host_entity h.id) (row_of db.hosts h.id)) _ db' e in
    let (u, c, done) = bind-ok (constraints db (updated h now row)) _ db' e' in
    ap (λ d. ids d.hosts) (sym (ok-injective done))
    ∙ ids-change (updated h now) h.id db.hosts (λ r. refl)

map-snoc :
    {A B : Type 0} (f : A → B) (xs : List A) (x : A) → map f (xs ++ x ∷ []) ≡ map f xs ++ f x ∷ []
map-snoc f [] x = refl
map-snoc f (y ∷ xs) x = ap (λ l. f y ∷ l) (map-snoc f xs x)

fresh_id : (is : List ℕ) → contains is (next_id is) ≡ false
fresh_id is = elim (Bool-cases (contains is (next_id is))) [
  | inl t ↦ absurd (
      false≢true
        (sym (next_id_fresh is (next_id is) t) ∙ (nat_beq_iff (next_id is) (next_id is)).1 refl))
  | inr f ↦ f
]

pub create-Distinct :
    (draft : NewHost) (now : ℕ) (db : Db) (id : ℕ) (db' : Db)
    → Distinct (ids db.hosts)
    → create draft now db ≡ ok (id, db')
    → Distinct (ids db'.hosts)
unfolding row_of_draft
create-Distinct draft now db id db' d e =
    let (ei, ed) = create_ok draft now db id db' e in
    subst Distinct
      (sym (
        ap (λ x. ids x.hosts) ed
        ∙ map-snoc (λ r. r.id) db.hosts (row_of_draft draft (next_id (ids db.hosts)) now)))
      (Distinct-snoc (ids db.hosts) (next_id (ids db.hosts)) d (fresh_id (ids db.hosts)))

-- The import of one host: the row of the alias is refreshed, or a row is added under a free id.
pub data Imports (now : ℕ) (c : Candidate) (db db' : Db) : Disposition → Type 0 where
  refreshes :
      (r : Row) (h : Host)
      → row_of_alias db.hosts c.alias ≡ some r
      → h.id ≡ r.id
      → source_of r.source ≡ some h.source
      → h.source_alias ≡ r.source_alias
      → ((i : ℕ) → view db' i ≡ at_id h.id (some (updated (refreshed c h) now r)) (view db) i)
      → Imports now c db db' update_host
  adds :
      (id : ℕ)
      → row_of_alias db.hosts c.alias ≡ none
      → view db id ≡ none
      → ((i : ℕ) → view db' i ≡ at_id id (some (row_of_draft (draft_of c) id now)) (view db) i)
      → Imports now c db db' new_host
