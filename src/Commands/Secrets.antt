-- ===== src/Commands/Secrets.antt =====
-- The credential of a host that is saved: apps/desktop/src/store_commands.rs.
use tern.Prelude.{
  ℕ, ◌≡◌, refl, sym, ap, ◌∙◌, Option, none, some, Text, Option-cases, ◌⊎◌, inl, inr, Result, ok,
  err, bind-ok, ok-injective, ok_or, ok_or-ok,
}
use tern.Store.{Host, StoreError, Db}
use tern.Store.Hosts
use tern.Store.Hosts.Saved.{saved, get-update}
use tern.Store.Hosts.Read.{get-id}
use tern.Login.Credentials.{Keyring, VaultError, account_for, read_secret, secret_of}
use tern.Commands.{HostDto, SecretUpdateDto, unchanged, set_secret_dto, edited}
use tern.Commands.Hosts.{
  CommandError, store_failed, vault_failed, no_such_host, World, Outcome, stored, call_store,
  and_then, reading, existing, store_under, store_secret_for, update_secret, update_host,
  delete_host,
}

-- A step that succeeds has a first part that succeeds.
and_then_ok :
    {V A B : Type 0} (o : Outcome V A) (next : A → World V → Outcome V B) (b : B) (w' : World V)
    → and_then o next ≡ (ok b, w')
    → (a : A) × (w : World V) × (o ≡ (ok a, w)) × (next a w ≡ (ok b, w'))
and_then_ok (ok a, w) next b w' h = (a, w, refl, h)
and_then_ok {B = B} (err e, w) next b w' h =
    let q : ◌≡◌ {A = Result {0, 0} CommandError B} (err e) (ok b) = ap (λ p. p.0) h in cc

call_store_ok :
    {V : Type 0} (r : Result {0, 0} StoreError Db) (w w' : World V)
    → call_store r w ≡ (ok tt, w')
    → (db : Db) × (r ≡ ok db) × (w' ≡ record w { db = db })
call_store_ok (ok db) w w' h = (db, refl, sym (ap (λ p. p.1) h))
call_store_ok (err e) w w' h =
    let q : ◌≡◌ {A = Result {0, 0} CommandError Unit} (err (store_failed e)) (ok tt) =
      ap (λ p. p.0) h in
    cc

existing_ok :
    {V : Type 0} (ring : Keyring V) (now id : ℕ) (w w1 : World V) (h : Host)
    → reading (existing ring now id w) w ≡ (ok h, w1)
    → (Hosts.get id w.db ≡ ok (some h)) × (w1 ≡ w)
unfolding existing
existing_ok ring now id w w1 h e =
    let (answer, e1, e2) =
      bind-ok (stored (Hosts.get id w.db)) (ok_or (no_such_host id)) h (ap (λ p. p.0) e) in
    (
      stored_ok (Hosts.get id w.db) answer e1 ∙ ap ok (ok_or-ok (no_such_host id) answer h e2),
      sym (ap (λ p. p.1) e),
    )
  where
    stored_ok :
        (r : Result {0, 0} StoreError (Option Host)) (a : Option Host) → stored r ≡ ok a → r ≡ ok a
    stored_ok (ok b) a q = ap ok (ok-injective q)
    stored_ok (err x) a q = cc

-- The part of `update_host` that comes before the credential.
before_secret :
    {V : Type 0} (ring : Keyring V) (now : ℕ) (dto : HostDto) (secret : SecretUpdateDto)
    (w w' : World V)
    → update_host ring now dto secret w ≡ (ok tt, w')
    → (w3 : World V) × (w3.ring ≡ w.ring) × (update_secret ring now dto.id secret w3 ≡ (ok tt, w'))
unfolding update_host
before_secret ring now dto secret w w' e =
    let (found, w1, e1, k1) = and_then_ok (reading (existing ring now dto.id w) w) _ tt w' e in
    let (u, w2, e2, k2) =
      and_then_ok (call_store (Hosts.update (edited dto found) now w1.db) w1) _ tt w' k1 in
    let (v, w3, e3, k3) =
      and_then_ok (call_store (Hosts.set_tags dto.id dto.tags w2.db) w2) _ tt w' k2 in
    let (g, s1) = existing_ok ring now dto.id w w1 found e1 in
    let (d2, r2, s2) = call_store_ok (Hosts.update (edited dto found) now w1.db) w1 w2 e2 in
    let (d3, r3, s3) = call_store_ok (Hosts.set_tags dto.id dto.tags w2.db) w2 w3 e3 in
    (w3, ap (λ x. x.ring) s3 ∙ ap (λ x. x.ring) s2 ∙ ap (λ x. x.ring) s1, k3)

call_store-same :
    {V W : Type 0} (r : Result {0, 0} StoreError Db) (v : World V) (w : World W)
    → v.db ≡ w.db
    → ((call_store r v).0 ≡ (call_store r w).0) × ((call_store r v).1.db ≡ (call_store r w).1.db)
call_store-same (ok db) v w e = (refl, refl)
call_store-same (err x) v w e = (refl, e)

-- The keyring has no say in the deletion of a host: whatever two keyrings answer, errors included, on the same store the deletion has the same result and leaves the same store.
pub delete_host-same :
    {V W : Type 0} (ring : Keyring V) (other : Keyring W) (now id : ℕ) (db : Db) (v : V) (w : W)
    → ((delete_host ring now id (record { db = db; ring = v })).0
        ≡ (delete_host other now id (record { db = db; ring = w })).0)
      × ((delete_host ring now id (record { db = db; ring = v })).1.db
          ≡ (delete_host other now id (record { db = db; ring = w })).1.db)
unfolding delete_host
delete_host-same ring other now id db v w = call_store-same (Hosts.delete id db) _ _ refl

-- A saved host whose credential is left unchanged leaves the keyring as it is.
update_host-unchanged :
    {V : Type 0} (ring : Keyring V) (now : ℕ) (dto : HostDto) (w w' : World V)
    → update_host ring now dto unchanged w ≡ (ok tt, w')
    → w'.ring ≡ w.ring
unfolding update_secret
update_host-unchanged ring now dto w w' e =
    let (w3, same, k) = before_secret ring now dto unchanged w w' e in
    ap (λ p. p.1.ring) (sym k) ∙ same

module _ {V : Type 0} (ring : Keyring V)
    (remembers : (account secret : Text) (v v' : V)
      → ring.set_password account secret v ≡ (ok tt, v')
      → ring.get_password account v' ≡ ok secret)
    (now : ℕ) where
  read_remembered :
      (account secret : Text) (v : V)
      → ring.get_password account v ≡ ok secret
      → read_secret ring account v ≡ (some secret, none)
  unfolding read_secret
  read_remembered account secret v e = rw (e, read_secret) refl

  -- Under an account that the host has.
  stored_under :
      (h : Host) (o : Option Text) (secret : Text) (w w' : World V)
      → Hosts.get h.id w.db ≡ ok (some h)
      → store_under ring now h o secret w ≡ (ok tt, w')
      → (o ≡ none)
        ⊎ ((h' : Host) × (Hosts.get h.id w'.db ≡ ok (some h'))
            × (secret_of ring h'.secret_ref w'.ring ≡ (some secret, none)))
  unfolding store_under saved
  stored_under h none secret w w' g e = inl refl
  stored_under h (some account) secret w w' g e = inr (
      by_answer (ring.set_password account secret w.ring).0
        (ring.set_password account secret w.ring).1 refl e)
    where
      by_answer :
          (a : Result {0, 0} VaultError Unit) (v : V)
          → ring.set_password account secret w.ring ≡ (a, v)
          → (elim a [
            | err x ↦ (err (vault_failed x), record w { ring = v })
            | ok u ↦
                call_store
                  (Hosts.update (record h { secret_ref = some account }) now w.db)
                  (record w { ring = v })
          ])
            ≡ (ok tt, w')
          → (h' : Host) × (Hosts.get h.id w'.db ≡ ok (some h'))
            × (secret_of ring h'.secret_ref w'.ring ≡ (some secret, none))
      by_answer (err x) v q k =
          let z : ◌≡◌ {A = Result {0, 0} CommandError Unit} (err (vault_failed x)) (ok tt) =
            ap (λ p. p.0) k in
          cc
      by_answer (ok tt) v q k =
          let (db, made, done) =
            call_store_ok (Hosts.update (record h { secret_ref = some account }) now w.db)
              (record w { ring = v }) w' k in
          (
            saved (record h { secret_ref = some account }) h now,
            ap (λ x. Hosts.get h.id x.db) done
                ∙ get-update (record h { secret_ref = some account }) h now w.db db refl g made,
            ap (λ x. read_secret ring account x.ring) done
                ∙ read_remembered account secret v (remembers account secret w.ring v q),
          )

  left_alone :
      (h : Host) (secret : Text) (w : World V) → store_under ring now h none secret w ≡ (ok tt, w)
  unfolding store_under
  left_alone h secret w = refl

  -- Where the keyring reads back what it accepted: after a host is saved with a new credential, the host is there, and either its chain of methods needs no credential, or connecting to it reads that credential, with no degradation.
  pub update_host-set :
      (dto : HostDto) (secret : Text) (w w' : World V)
      → update_host ring now dto (set_secret_dto secret) w ≡ (ok tt, w')
      → (h : Host) × (Hosts.get dto.id w'.db ≡ ok (some h))
        × ((account_for h ≡ none) ⊎ (secret_of ring h.secret_ref w'.ring ≡ (some secret, none)))
  unfolding update_secret store_secret_for
  update_host-set dto secret w w' e =
      let (w3, same, k) = before_secret ring now dto (set_secret_dto secret) w w' e in
      let (h, w4, e4, k4) = and_then_ok (reading (existing ring now dto.id w3) w3) _ tt w' k in
      let (g, s4) = existing_ok ring now dto.id w3 w4 h e4 in
      let n : h.id ≡ dto.id = get-id dto.id w3.db h g in
      let g' : Hosts.get h.id w4.db ≡ ok (some h) =
        ap (Hosts.get h.id) (ap (λ x. x.db) s4) ∙ ap (λ i. Hosts.get i w3.db) n ∙ g in
      elim (Option-cases (account_for h)) [
        | inl free ↦ (
          h,
          ap (Hosts.get dto.id) (ap (λ x. x.db) (unused h w4 free k4))
              ∙ ap (λ i. Hosts.get i w4.db) (sym n)
              ∙ g',
          inl free,
        )
        | inr (account, a) ↦ elim (stored_under h (account_for h) secret w4 w' g' k4) [
          | inl free ↦ absurd (some_none account (sym a ∙ free))
          | inr (h', g2, r) ↦ (h', ap (λ i. Hosts.get i w'.db) (sym n) ∙ g2, inr r)
        ]
      ]
    where
      some_none : (t : Text) → ¬ (some t ≡ none)
      some_none t q = cc

      unused :
          (h : Host) (w4 : World V)
          → account_for h ≡ none
          → store_under ring now h (account_for h) secret w4 ≡ (ok tt, w')
          → w' ≡ w4
      unused h w4 free q =
          ap (λ p. p.1)
            (sym q ∙ ap (λ o. store_under ring now h o secret w4) free ∙ left_alone h secret w4)
