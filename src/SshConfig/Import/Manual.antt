-- ===== src/SshConfig/Import/Manual.antt =====
-- What an import leaves alone: `apply` of crates/core-store/src/ssh_config/mod.rs.
use tern.Prelude.{
  ℕ, ◌≡◌, refl, sym, ap, ◌∙◌, Bool, false, ◌&&◌, false≢true, none, some, some-injective, List, [],
  ◌∷◌, Text, codes, ◌==◌, list_eq, nat_eq, nat_beq_iff, Distinct, Bool-cases, inl, inr, Result, ok,
  err, arith,
}
use tern.Store.{StoreError, Db, Row}
use tern.Store.Rows.{ids, row_of}
use tern.Store.Hosts.{host_keys, has_alias, same_text}
use tern.Store.Hosts.Table.{view}
use tern.SshConfig.Import.{
  Candidate, Disposition, ImportOutcome, counted, continued, apply_one, apply,
}
use tern.SshConfig.Import.Steps.{Imports, refreshes, adds, row_of-alias, row_of_alias-has}
use tern.SshConfig.Import.Again.{apply_one_ok, at_other}

not_imported :
    (a : Text) (r : Row) → (r.source == codes "ssh_config") ≡ false → has_alias a r ≡ false
unfolding has_alias
not_imported a r h =
    first_fails (r.source == codes "ssh_config") (same_text r.source_alias (some a)) h
  where
    first_fails : (b c : Bool) → b ≡ false → (b && c) ≡ false
    first_fails b c h = ground arith

Imports-leaves :
    (now : ℕ) (c : Candidate) (db db' : Db) (d : Disposition) (i : ℕ) (r : Row)
    → Distinct (ids db.hosts)
    → Imports now c db db' d
    → view db i ≡ some r
    → (r.source == codes "ssh_config") ≡ false
    → view db' i ≡ some r
Imports-leaves now c db db' _ i r distinct (refreshes q h k s1 s2 s3 shows) there by_hand =
    elim (Bool-cases (h.id == i)) [
      | inl t ↦
          let same : q ≡ r = some-injective q r (
            sym (row_of-alias db.hosts c.alias q distinct k)
            ∙ ap (view db) (sym s1 ∙ (nat_beq_iff h.id i).0 t)
            ∙ there) in
          absurd (
            false≢true (
              sym (not_imported c.alias r by_hand)
              ∙ ap (has_alias c.alias) (sym same)
              ∙ row_of_alias-has db.hosts c.alias q k))
      | inr f ↦ shows i ∙ at_other h.id i _ (view db) f ∙ there
    ]
Imports-leaves now c db db' _ i r distinct (adds id k free shows) there by_hand =
    elim (Bool-cases (id == i)) [
      | inl t ↦ absurd (none_some (sym free ∙ ap (view db) ((nat_beq_iff id i).0 t) ∙ there))
      | inr f ↦ shows i ∙ at_other id i _ (view db) f ∙ there
    ]
  where
    none_some : ¬ (none ≡ some r)
    none_some h = cc

-- An import never touches a host that was not imported, whether it succeeds or stops at an error, where the ids of the stored hosts are distinct: a row of another source is there afterwards under its id as it was.
pub apply-leaves :
    (now : ℕ) (o : ImportOutcome) (chosen : List Candidate) (db : Db) (i : ℕ) (r : Row)
    → Distinct (ids db.hosts)
    → row_of db.hosts i ≡ some r
    → (r.source == codes "ssh_config") ≡ false
    → row_of (apply now o chosen db).1.hosts i ≡ some r
unfolding apply
apply-leaves now o [] db i r distinct there by_hand = there
apply-leaves now o (c ∷ chosen) db i r distinct there by_hand =
    by_answer (apply_one now c db) refl
      (λ d db' k h. apply-leaves now (counted d o) chosen db' i r k h by_hand)
  where
    by_answer :
        (a : Result {0, 0} StoreError (Disposition × Db))
        → apply_one now c db ≡ a
        → ((d : Disposition) (db' : Db)
            → Distinct (ids db'.hosts)
            → row_of db'.hosts i ≡ some r
            → row_of (apply now (counted d o) chosen db').1.hosts i ≡ some r)
        → row_of (continued o db a (λ o' db'. apply now o' chosen db')).1.hosts i ≡ some r
    by_answer (err x) e rest = there
    by_answer (ok (d, db')) e rest =
        let (step, distinct') = apply_one_ok now c db d db' distinct e in
        rest d db' distinct' (Imports-leaves now c db db' d i r distinct step there by_hand)
