-- ===== src/SshConfig/Import/Again.antt =====
-- What importing again does: `apply` of crates/core-store/src/ssh_config/mod.rs.
use tern.Prelude.{
  ℕ, ◌≡◌, refl, sym, ap, ap₂, ◌∙◌, subst, Bool, true, false, ◌&&◌, Option, none, some,
  some-injective, Text, codes, ◌==◌, list_eq, nat_eq, nat_beq_iff, list_beq_iff, if◌then◌else◌,
  arith, Distinct, Bool-cases, ◌⊎◌, inl, inr, ok, bind-ok, ok-injective,
}
use tern.Store.{HostSource, manual, ssh_config, Host, Row, Db}
use tern.Store.Rows.{ids}
use tern.Store.Hosts.{
  host_keys, source_of, source_name, has_alias, find_by_source_alias, row_of_alias, same_text,
  update, create, updated, row_of_draft,
}
use tern.Store.Hosts.Table.{view, at_id, create-view, change_host-view}
use tern.SshConfig.Import.{Candidate, Disposition, refreshed, draft_of, commit, apply_one}
use tern.Store.Hosts.Read.{with_tags_ok}
use tern.SshConfig.Import.Steps.{
  Imports, refreshes, adds, update-ids, create-Distinct, row_of_alias-has, row_of-alias,
  alias_of-row,
}

ended :
    {now : ℕ} {c : Candidate} {db : Db} {d0 : Disposition} {db0 : Db} (d : Disposition) (db' : Db)
    → d0 ≡ d
    → db0 ≡ db'
    → Imports now c db db0 d0
    → Distinct (ids db0.hosts)
    → Imports now c db db' d × Distinct (ids db'.hosts)
ended {now} {c} {db} {d0} {db0} d db' p q i k = (
  subst (λ x. Imports now c db x d) q (subst (λ x. Imports now c db db0 x) p i),
  subst (λ x. Distinct (ids x.hosts)) q k,
)

commit_ok :
    (now : ℕ) (c : Candidate) (db : Db) (answer : Option Host) (d : Disposition) (db' : Db)
    → Distinct (ids db.hosts)
    → ((row_of_alias db.hosts c.alias ≡ none) × (answer ≡ none))
      ⊎ ((r : Row) × (h : Host) × (row_of_alias db.hosts c.alias ≡ some r)
          × (answer ≡ some h)
          × (h.id ≡ r.id)
          × (source_of r.source ≡ some h.source)
          × (h.source_alias ≡ r.source_alias))
    → commit now c db answer ≡ ok (d, db')
    → Imports now c db db' d × Distinct (ids db'.hosts)
unfolding commit update refreshed updated
commit_ok now c db none d db' distinct (inl (n, e)) done =
    let ((id, db2), made, last) = bind-ok (create (draft_of c) now db) _ (d, db') done in
    let (free, shows) = create-view (draft_of c) now db id db2 made in
    ended d db' (ap (λ p. p.0) (ok-injective last)) (ap (λ p. p.1) (ok-injective last))
      (adds id n free shows) (create-Distinct (draft_of c) now db id db2 distinct made)
commit_ok now c db (some g) d db' distinct (inl (n, e)) done = cc
commit_ok now c db none d db' distinct (inr (r, h, k, e, s1, s2, s3)) done = cc
commit_ok now c db (some g) d db' distinct (inr (r, h, k, e, s1, s2, s3)) done =
    let (db2, made, last) = bind-ok (update (refreshed c g) now db) _ (d, db') done in
    let (row, found, shows) =
      change_host-view (updated (refreshed c g) now) (λ r. refl) g.id db db2 made in
    let same : g ≡ h = some-injective g h e in
    let here : row ≡ r = some-injective row r (
      sym found
      ∙ ap (view db) (ap (λ x. x.id) same ∙ s1)
      ∙ row_of-alias db.hosts c.alias r distinct k) in
    ended d db' (ap (λ p. p.0) (ok-injective last)) (ap (λ p. p.1) (ok-injective last))
      (refreshes r g k (ap (λ x. x.id) same ∙ s1) (s2 ∙ ap (λ x. some x.source) (sym same))
        (ap (λ x. x.source_alias) same ∙ s3)
        (λ i.
          shows i ∙ ap (λ x. at_id g.id (some (updated (refreshed c g) now x)) (view db) i) here))
      (subst Distinct (sym (update-ids (refreshed c g) now db db2 made)) distinct)

-- The import of one host that succeeds is one of the two steps, and keeps the ids distinct.
pub apply_one_ok :
    (now : ℕ) (c : Candidate) (db : Db) (d : Disposition) (db' : Db)
    → Distinct (ids db.hosts)
    → apply_one now c db ≡ ok (d, db')
    → Imports now c db db' d × Distinct (ids db'.hosts)
unfolding apply_one find_by_source_alias
apply_one_ok now c db d db' distinct e =
    let (answer, found, done) =
      bind-ok (find_by_source_alias c.alias db) (commit now c db) (d, db') e in
    commit_ok now c db answer d db' distinct
      (with_tags_ok db (row_of_alias db.hosts c.alias) answer found) done

source_of-inverse : (v : Text) (s : HostSource) → source_of v ≡ some s → source_name s ≡ v
unfolding source_of source_name
source_of-inverse v s e = by_tests (v == codes "manual") refl (v == codes "ssh_config") refl e
  where
    by_tests :
        (b : Bool)
        → (v == codes "manual") ≡ b
        → (c : Bool) → (v == codes "ssh_config") ≡ c
        → (if b then some manual else if c then some ssh_config else none) ≡ some s
        → source_name s ≡ v
    by_tests true m c n q =
        ap source_name (sym (some-injective manual s q))
        ∙ sym ((list_beq_iff v (codes "manual")).0 m)
    by_tests false m true n q =
        ap source_name (sym (some-injective ssh_config s q))
        ∙ sym ((list_beq_iff v (codes "ssh_config")).0 n)
    by_tests false m false n q = cc

has_alias-updated :
    (now : ℕ) (c : Candidate) (h : Host) (r : Row) (a : Text)
    → source_of r.source ≡ some h.source
    → h.source_alias ≡ r.source_alias
    → has_alias a (updated (refreshed c h) now r) ≡ has_alias a r
unfolding has_alias updated refreshed
has_alias-updated now c h r a s e =
    ap₂ (λ v o. v == codes "ssh_config" && same_text o (some a))
      (source_of-inverse r.source h.source s) e

-- An alias that has a row.
unfoldable pub Known : Db → Text → Type 0
Known db a = (r : Row) × (row_of_alias db.hosts a ≡ some r)

at_itself : (n : ℕ) (o : Option Row) (m : ℕ → Option Row) → at_id n o m n ≡ o
at_itself n o m = by_itself n o (m n)
  where
    by_itself : (n : ℕ) (o p : Option Row) → (if n == n then o else p) ≡ o
    by_itself n o p = ground arith

pub at_other :
    (n i : ℕ) (o : Option Row) (m : ℕ → Option Row) → (n == i) ≡ false → at_id n o m i ≡ m i
at_other n i o m f = rw f refl

has_alias-draft :
    (c : Candidate) (id now : ℕ) → has_alias c.alias (row_of_draft (draft_of c) id now) ≡ true
unfolding has_alias row_of_draft draft_of source_name
has_alias-draft c id now = (list_beq_iff c.alias c.alias).1 refl

-- The alias that was imported is known.
pub Imports-Known :
    (now : ℕ) (c : Candidate) (db db' : Db) (d : Disposition)
    → Imports now c db db' d
    → Known db' c.alias
unfolding Known
Imports-Known now c db db' _ (refreshes r h k s1 s2 s3 shows) =
    alias_of-row db'.hosts h.id (updated (refreshed c h) now r) c.alias
      (shows h.id ∙ at_itself h.id _ (view db))
      (has_alias-updated now c h r c.alias s2 s3 ∙ row_of_alias-has db.hosts c.alias r k)
Imports-Known now c db db' _ (adds id k free shows) =
    alias_of-row db'.hosts id (row_of_draft (draft_of c) id now) c.alias
      (shows id ∙ at_itself id _ (view db)) (has_alias-draft c id now)

-- Every other alias stays known.
pub Imports-keeps :
    (now : ℕ) (c : Candidate) (db db' : Db) (d : Disposition) (a : Text)
    → Distinct (ids db.hosts)
    → Imports now c db db' d
    → Known db a
    → Known db' a
unfolding Known
Imports-keeps now c db db' _ a distinct (refreshes r h k s1 s2 s3 shows) (q, e) =
    let there : view db q.id ≡ some q = row_of-alias db.hosts a q distinct e in
    elim (Bool-cases (h.id == q.id)) [
      | inl t ↦
          let n : h.id ≡ q.id = (nat_beq_iff h.id q.id).0 t in
          let same : q ≡ r =
            some-injective q r (
              sym there ∙ ap (view db) (sym n ∙ s1) ∙ row_of-alias db.hosts c.alias r distinct k) in
          alias_of-row db'.hosts h.id (updated (refreshed c h) now r) a
            (shows h.id ∙ at_itself h.id _ (view db))
            (has_alias-updated now c h r a s2 s3
              ∙ ap (has_alias a) (sym same)
              ∙ row_of_alias-has db.hosts a q e)
      | inr f ↦
          alias_of-row db'.hosts q.id q a (shows q.id ∙ at_other h.id q.id _ (view db) f ∙ there)
            (row_of_alias-has db.hosts a q e)
    ]
Imports-keeps now c db db' _ a distinct (adds id k free shows) (q, e) =
    let there : view db q.id ≡ some q = row_of-alias db.hosts a q distinct e in
    elim (Bool-cases (id == q.id)) [
      | inl t ↦ absurd (none_some q (sym free ∙ ap (view db) ((nat_beq_iff id q.id).0 t) ∙ there))
      | inr f ↦
          alias_of-row db'.hosts q.id q a (shows q.id ∙ at_other id q.id _ (view db) f ∙ there)
            (row_of_alias-has db.hosts a q e)
    ]
  where
    none_some : (q : Row) → ¬ (none ≡ some q)
    none_some q h = cc
