-- ===== src/SshConfig/Import.antt =====
-- The import of hosts: crates/core-store/src/ssh_config/mod.rs.
use tern.Prelude.{
  ℕ, ◌+◌, Bool, true, false, Option, none, some, List, [], ◌∷◌, ◌++◌, Text, codes, Result, ok, err,
  ◌>>=◌,
}
use tern.Store.{
  AuthKind, agent_kind, key_file_kind, HostOverrides, Host, NewHost, ssh_config, StoreError, Db,
}
use tern.Store.Hosts.{create, update, find_by_source_alias}
use tern.SshConfig.Parse.{Warning, Stanza, ParsedConfig, aliases, resolve}
pub mod Steps
pub mod Again
pub mod Outcomes
pub mod Manual

-- What `apply` would do with a candidate.
pub data Disposition : Type 0 where
  new_host update_host : Disposition

pub record Candidate : Type 0 where
  pub alias : Text
  pub hostname : Text
  pub port : ℕ
  pub username : Text
  pub auth : AuthKind
  pub key_path : Option Text
  pub proxy_jump : Option Text
  pub overrides : HostOverrides
  pub disposition : Disposition

pub record Scan : Type 0 where
  pub source : Text
  pub candidates : List Candidate
  pub warnings : List Warning

pub record ImportOutcome : Type 0 where
  pub created : ℕ
  pub updated : ℕ

abbrev pub unwrap_or {ℓ} : {A : Type ℓ} → A → Option A → A
unwrap_or default none = default
unwrap_or default (some x) = x

-- `HostOverrides::default`
abbrev pub no_overrides : HostOverrides
no_overrides = record {
  term = none;
  keepalive_secs = none;
  keepalive_max = none;
  connect_timeout_secs = none;
  window_size = none;
  reconnect_enabled = none;
  reconnect_max_attempts = none;
}

abbrev pub auth_of : Option Text → AuthKind
auth_of none = agent_kind
auth_of (some identity) = key_file_kind

abbrev pub disposition_of : Option Host → Disposition
disposition_of none = new_host
disposition_of (some existing) = update_host

unfoldable pub candidate : Text → Stanza → Option Host → Candidate
candidate alias resolved existing = record {
  alias = alias;
  hostname = unwrap_or alias resolved.hostname;
  port = unwrap_or 22 resolved.port;
  username = unwrap_or [] resolved.user;
  auth = auth_of resolved.identity_file;
  key_path = resolved.identity_file;
  proxy_jump = resolved.proxy_jump;
  overrides = record no_overrides {
    keepalive_secs = resolved.server_alive_interval;
    connect_timeout_secs = resolved.connect_timeout;
  };
  disposition = disposition_of existing;
}

unfoldable pub candidates :
    ParsedConfig → Db → List Text → Result {0, 0} StoreError (List Candidate)
unfolding candidate
candidates parsed db [] = ok []
candidates parsed db (alias ∷ rest) = do
  existing ← find_by_source_alias alias db
  others ← candidates parsed db rest
  ok (candidate alias (resolve parsed alias) existing ∷ others)

-- `scan`, of a file that was parsed.
unfoldable pub scan : (source : Text) → ParsedConfig → Db → Result {0, 0} StoreError Scan
unfolding candidates aliases
scan source parsed db = do
  found ← candidates parsed db (aliases parsed)
  ok (record { source = source; candidates = found; warnings = parsed.warnings })

-- The fields of a stored host that an import takes from the file.
unfoldable pub refreshed : Candidate → Host → Host
refreshed c existing = record existing {
  hostname = c.hostname;
  port = c.port;
  username = c.username;
  auth = c.auth;
  key_path = c.key_path;
  proxy_jump = c.proxy_jump;
  overrides = c.overrides;
}

unfoldable pub draft_of : Candidate → NewHost
draft_of c = record {
  folder_id = none;
  name = c.alias;
  hostname = c.hostname;
  port = c.port;
  username = c.username;
  auth = c.auth;
  auth_fallbacks = [];
  secret_ref = none;
  key_path = c.key_path;
  overrides = c.overrides;
  proxy_jump = c.proxy_jump;
  source = ssh_config;
  source_alias = some c.alias;
  color = none;
  notes = none;
}

-- One candidate, behind the look for its alias.
unfoldable pub commit :
    (now : ℕ) → Candidate → Db → Option Host → Result {0, 0} StoreError (Disposition × Db)
unfolding refreshed draft_of
commit now c db (some existing) = do
  db' ← update (refreshed c existing) now db
  ok (update_host, db')
commit now c db none = do (id, db') ← create (draft_of c) now db; ok (new_host, db')

unfoldable pub apply_one : (now : ℕ) → Candidate → Db → Result {0, 0} StoreError (Disposition × Db)
unfolding commit
apply_one now c db = find_by_source_alias c.alias db >>= commit now c db

abbrev pub counted : Disposition → ImportOutcome → ImportOutcome
counted new_host o = record o { created = o.created + 1 }
counted update_host o = record o { updated = o.updated + 1 }

-- What follows a candidate: the next ones, or the error.
abbrev pub continued :
    ImportOutcome
    → Db
    → Result {0, 0} StoreError (Disposition × Db)
    → (ImportOutcome → Db → Result {0, 0} StoreError ImportOutcome × Db)
    → Result {0, 0} StoreError ImportOutcome × Db
continued o db (ok (d, db')) next = next (counted d o) db'
continued o db (err e) next = (err e, db)

-- The loop over the chosen candidates: an error ends it, and what was committed before it stays.
unfoldable pub apply :
    (now : ℕ) → ImportOutcome → List Candidate → Db → Result {0, 0} StoreError ImportOutcome × Db
unfolding apply_one
apply now o [] db = (ok o, db)
apply now o (c ∷ chosen) db =
    continued o db (apply_one now c db) (λ o' db'. apply now o' chosen db')

-- `ImportOutcome::default`
abbrev pub no_outcome : ImportOutcome
no_outcome = record { created = 0; updated = 0 }
