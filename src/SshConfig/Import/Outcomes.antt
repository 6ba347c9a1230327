-- ===== src/SshConfig/Import/Outcomes.antt =====
-- What an import counts: `apply` of crates/core-store/src/ssh_config/mod.rs.
use tern.Prelude.{
  ℕ, suc, ◌+◌, ◌≡◌, refl, sym, ap, ◌∙◌, subst, none, some, List, [], ◌∷◌, Text, length, All,
  Distinct, nat_eq, arith, Result, ok, err, ok-injective,
}
use tern.Store.{StoreError, Db, Row}
use tern.Store.Rows.{ids}
use tern.Store.Hosts.{host_keys}
use tern.SshConfig.Import.{
  Candidate, Disposition, new_host, update_host, ImportOutcome, no_outcome, counted, continued,
  apply_one, apply,
}
use tern.SshConfig.Import.Steps.{Imports, refreshes, adds}
use tern.SshConfig.Import.Again.{Known, apply_one_ok, Imports-Known, Imports-keeps}

abbrev Answer : Type 0
Answer = Result {0, 0} StoreError ImportOutcome × Db

-- What a run of the import shows when it succeeds: every alias that was known and every alias that
-- was chosen is known, and each candidate is counted once.
abbrev Completed : Db → ImportOutcome → List Candidate → Answer → Type 0
Completed db o chosen (answer, db') =
    (done : ImportOutcome)
    → answer ≡ ok done
    → ((a : Text) → Known db a → Known db' a)
      × All (λ c. Known db' c.alias) chosen
      × (done.created + done.updated ≡ o.created + o.updated + length chosen)
      × Distinct (ids db'.hosts)

counted-total :
    (d : Disposition) (o : ImportOutcome)
    → (counted d o).created + (counted d o).updated ≡ suc (o.created + o.updated)
counted-total new_host o = omega arith
counted-total update_host o = omega arith

apply-Completed :
    (now : ℕ) (o : ImportOutcome) (chosen : List Candidate) (db : Db)
    → Distinct (ids db.hosts)
    → Completed db o chosen (apply now o chosen db)
unfolding apply
apply-Completed now o [] db distinct = λ done e.
    ((λ a k. k), tt, ap (λ x. x.created + x.updated) (sym (ok-injective e)) ∙ omega arith, distinct)
apply-Completed now o (c ∷ chosen) db distinct =
    by_answer (apply_one now c db) refl (λ d db'. apply-Completed now (counted d o) chosen db')
  where
    by_answer :
        (r : Result {0, 0} StoreError (Disposition × Db))
        → apply_one now c db ≡ r
        → ((d : Disposition) (db' : Db)
            → Distinct (ids db'.hosts)
            → Completed db' (counted d o) chosen (apply now (counted d o) chosen db'))
        → Completed db o (c ∷ chosen) (continued o db r (λ o' db'. apply now o' chosen db'))
    by_answer (err x) e rest done q = cc
    by_answer (ok (d, db')) e rest done q =
        let (i, distinct') = apply_one_ok now c db d db' distinct e in
        let (keeps, all, total, distinct2) = rest d db' distinct' done q in
        (
          (λ a k. keeps a (Imports-keeps now c db db' d a distinct i k)),
          (keeps c.alias (Imports-Known now c db db' d i), all),
          omega (arith, total, counted-total d o),
          distinct2,
        )

-- A candidate whose alias is known is an update.
Known-updates :
    (now : ℕ) (c : Candidate) (db db' : Db) (d : Disposition)
    → Known db c.alias
    → Imports now c db db' d
    → d ≡ update_host
unfolding Known
Known-updates now c db db' _ k (refreshes r h x s1 s2 s3 shows) = refl
Known-updates now c db db' _ (q, e) (adds id x free shows) = absurd (none_some q (sym x ∙ e))
  where
    none_some : (q : Row) → ¬ (none ≡ some q)
    none_some q h = cc

apply-updates :
    (now : ℕ) (o : ImportOutcome) (chosen : List Candidate) (db : Db) (done : ImportOutcome)
    → Distinct (ids db.hosts)
    → All (λ c. Known db c.alias) chosen
    → (apply now o chosen db).0 ≡ ok done
    → done.created ≡ o.created
unfolding apply
apply-updates now o [] db done distinct known e = ap (λ x. x.created) (sym (ok-injective e))
apply-updates now o (c ∷ chosen) db done distinct (k, ks) e =
    by_answer (apply_one now c db) refl (λ d db'. apply-updates now (counted d o) chosen db' done) e
  where
    keep_all :
        (db' : Db) (d : Disposition)
        → Imports now c db db' d
        → (cs : List Candidate) → All (λ x. Known db x.alias) cs
        → All (λ x. Known db' x.alias) cs
    keep_all db' d i [] h = tt
    keep_all db' d i (x ∷ cs) (h, hs) =
        (Imports-keeps now c db db' d x.alias distinct i h, keep_all db' d i cs hs)

    by_answer :
        (r : Result {0, 0} StoreError (Disposition × Db))
        → apply_one now c db ≡ r
        → ((d : Disposition) (db' : Db)
            → Distinct (ids db'.hosts)
            → All (λ x. Known db' x.alias) chosen
            → (apply now (counted d o) chosen db').0 ≡ ok done
            → done.created ≡ (counted d o).created)
        → (continued o db r (λ o' db'. apply now o' chosen db')).0 ≡ ok done
        → done.created ≡ o.created
    by_answer (err x) e rest q = cc
    by_answer (ok (d, db')) e rest q =
        let (i, distinct') = apply_one_ok now c db d db' distinct e in
        rest d db' distinct' (keep_all db' d i chosen ks) q
        ∙ ap (λ x. (counted x o).created) (Known-updates now c db db' d k i)

-- Where the ids of the stored hosts are distinct: an import that succeeds counts each chosen candidate once, and importing the same candidates again, if that succeeds too, creates no host and updates one for each candidate.
pub apply-again :
    (now now' : ℕ) (chosen : List Candidate) (db db' db2 : Db) (first again : ImportOutcome)
    → Distinct (ids db.hosts)
    → apply now no_outcome chosen db ≡ (ok first, db')
    → apply now' no_outcome chosen db' ≡ (ok again, db2)
    → (first.created + first.updated ≡ length chosen)
      × (again.created ≡ 0)
      × (again.updated ≡ length chosen)
apply-again now now' chosen db db' db2 first again distinct e e' =
    let (keeps, known, total, distinct') =
      apply-Completed now no_outcome chosen db distinct first (ap (λ p. p.0) e) in
    let here : (apply now no_outcome chosen db).1 ≡ db' = ap (λ p. p.1) e in
    let known' : All (λ c. Known db' c.alias) chosen =
      subst (λ d. All (λ c. Known d c.alias) chosen) here known in
    let distinct2 : Distinct (ids db'.hosts) = subst (λ d. Distinct (ids d.hosts)) here distinct' in
    let none_new : again.created ≡ 0 =
      apply-updates now' no_outcome chosen db' again distinct2 known' (ap (λ p. p.0) e') in
    let (keeps2, known2, total2, distinct3) =
      apply-Completed now' no_outcome chosen db' distinct2 again (ap (λ p. p.0) e') in
    (omega (arith, total), none_new, omega (arith, total2, none_new))
