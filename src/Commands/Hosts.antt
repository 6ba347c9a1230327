-- ===== src/Commands/Hosts.antt =====
-- The commands on hosts: apps/desktop/src/store_commands.rs. The store and the keyring change
-- together; a command that fails keeps what it changed before. The clock is read once a command.
use tern.Prelude.{
  ℕ, Option, none, some, List, [], ◌∷◌, Text, filter, contains, is_empty, if◌then◌else◌, nat_eq,
  list_eq, Result, ok, err, ok_or, ◌>>=◌,
}
use tern.Store.{Host, StoreError, Db}
use tern.Store.Hosts
use tern.Login.Credentials.{
  Keyring, VaultError, account_for, clear_secret, password_account, passphrase_account,
}
use tern.SshConfig.Parse.{ParsedConfig}
use tern.SshConfig.Import.{ImportOutcome, no_outcome, scan, apply}
use tern.Commands.{
  HostDto, NewHostDto, SecretUpdateDto, unchanged, set_secret_dto, clear, host_dto, draft_of_dto,
  edited,
}

-- The errors of which a command answers the text.
pub data CommandError : Type 0 where
  store_failed : StoreError → CommandError
  vault_failed : VaultError → CommandError
  no_such_host : ℕ → CommandError

pub record World (V : Type 0) : Type 0 where
  pub db : Db
  pub ring : V

abbrev pub Outcome : (V A : Type 0) → Type 0
Outcome V A = Result {0, 0} CommandError A × World V

-- `map_err(|e| e.to_string())`
abbrev pub stored : {A : Type 0} → Result {0, 0} StoreError A → Result {0, 0} CommandError A
stored (ok a) = ok a
stored (err e) = err (store_failed e)

-- A call of the store that changes it.
abbrev pub call_store : {V : Type 0} → Result {0, 0} StoreError Db → World V → Outcome V Unit
call_store (ok db) w = (ok tt, record w { db = db })
call_store (err e) w = (err (store_failed e), w)

-- The next step, unless this one failed.
abbrev pub and_then : {V A B : Type 0} → Outcome V A → (A → World V → Outcome V B) → Outcome V B
and_then (ok a, w) next = next a w
and_then (err e, w) next = (err e, w)

-- A value that was read.
abbrev pub reading : {V A : Type 0} → Result {0, 0} CommandError A → World V → Outcome V A
reading r w = (r, w)

module _ {V : Type 0} (ring : Keyring V) (now : ℕ) where
  -- The host, or that there is none.
  unfoldable pub existing : ℕ → World V → Result {0, 0} CommandError Host
  existing id w = stored (Hosts.get id w.db) >>= ok_or (no_such_host id)

  -- What `store_secret_for` does with a host and the account of its credential.
  unfoldable pub store_under : Host → Option Text → (secret : Text) → World V → Outcome V Unit
  store_under host none secret w = (ok tt, w)
  store_under host (some account) secret w =
      let (answer, v) = ring.set_password account secret w.ring in
      elim answer [
        | err e ↦ (err (vault_failed e), record w { ring = v })
        | ok u ↦
            call_store (Hosts.update (record host { secret_ref = some account }) now w.db)
              (record w { ring = v })
      ]

  unfoldable pub store_secret_for : ℕ → (secret : Text) → World V → Outcome V Unit
  unfolding existing store_under
  store_secret_for id secret w =
      and_then (reading (existing id w) w)
        (λ host w'. store_under host (account_for host) secret w')

  unfoldable pub clear_under : Host → Option Text → World V → Outcome V Unit
  clear_under host none w = (ok tt, w)
  clear_under host (some account) w =
      let (answer, v) = clear_secret ring account w.ring in
      elim answer [
        | err e ↦ (err (vault_failed e), record w { ring = v })
        | ok u ↦
            call_store (Hosts.update (record host { secret_ref = none }) now w.db)
              (record w { ring = v })
      ]

  unfoldable pub clear_secret_for : ℕ → World V → Outcome V Unit
  unfolding existing clear_under
  clear_secret_for id w =
      and_then (reading (existing id w) w) (λ host w'. clear_under host host.secret_ref w')

  -- The tags of a new host, if there are any.
  abbrev pub tag_new : ℕ → List ℕ → World V → Outcome V Unit
  tag_new id [] w = (ok tt, w)
  tag_new id (t ∷ tags) w = call_store (Hosts.set_tags id (t ∷ tags) w.db) w

  -- The credential of a new host, if there is one and it is not empty.
  abbrev pub store_new : ℕ → Option Text → World V → Outcome V Unit
  store_new id none w = (ok tt, w)
  store_new id (some secret) w =
      if is_empty secret then (ok tt, w) else store_secret_for id secret w

  abbrev pub insert_new : Result {0, 0} StoreError (ℕ × Db) → World V → Outcome V ℕ
  insert_new (ok p) w = (ok p.0, record w { db = p.1 })
  insert_new (err e) w = (err (store_failed e), w)

  unfoldable pub create_host : NewHostDto → Option Text → World V → Outcome V ℕ
  unfolding store_secret_for draft_of_dto
  create_host host secret w =
      and_then (insert_new (Hosts.create (draft_of_dto host) now w.db) w) (λ id w1.
        and_then (tag_new id host.tags w1)
          (λ u w2. and_then (store_new id secret w2) (λ v w3. (ok id, w3))))

  -- What an update does with the credential.
  unfoldable pub update_secret : ℕ → SecretUpdateDto → World V → Outcome V Unit
  unfolding store_secret_for clear_secret_for
  update_secret id unchanged w = (ok tt, w)
  update_secret id (set_secret_dto secret) w = store_secret_for id secret w
  update_secret id clear w = clear_secret_for id w

  unfoldable pub update_host : HostDto → SecretUpdateDto → World V → Outcome V Unit
  unfolding existing edited update_secret
  update_host host secret w = and_then (reading (existing host.id w) w) (λ found w1.
      and_then (call_store (Hosts.update (edited host found) now w1.db) w1) (λ u w2.
        and_then (call_store (Hosts.set_tags host.id host.tags w2.db) w2)
          (λ v w3. update_secret host.id secret w3)))

  -- The keyring answers are dropped.
  unfoldable pub delete_host : ℕ → World V → Outcome V Unit
  delete_host id w =
      let (a, v1) = clear_secret ring (password_account id) w.ring in
      let (b, v2) = clear_secret ring (passphrase_account id) v1 in
      call_store (Hosts.delete id w.db) (record w { ring = v2 })

  unfoldable pub get_host : ℕ → World V → Result {0, 0} CommandError (Option HostDto)
  unfolding host_dto
  get_host id w = elim (Hosts.get id w.db) [
    | err e ↦ err (store_failed e)
    | ok answer ↦ ok (elim answer [ none ↦ none | some host ↦ some (host_dto host) ])
  ]

  unfoldable pub move_host : ℕ → Option ℕ → World V → Outcome V Unit
  move_host id folder_id w = call_store (Hosts.move_to_folder id folder_id now w.db) w

  unfoldable pub set_host_tags : ℕ → List ℕ → World V → Outcome V Unit
  set_host_tags id tag_ids w = call_store (Hosts.set_tags id tag_ids w.db) w

  -- The candidates whose aliases the user chose, of a fresh scan.
  unfoldable pub import_ssh_config :
      List Text → (source : Text) → ParsedConfig → World V → Outcome V ImportOutcome
  import_ssh_config aliases source parsed w = elim (scan source parsed w.db) [
    | err e ↦ (err (store_failed e), w)
    | ok found ↦
        let (answer, db) =
          apply now no_outcome (filter (λ c. contains aliases c.alias) found.candidates) w.db in
        (stored answer, record w { db = db })
  ]
