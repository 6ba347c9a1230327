-- ===== src/Sessions.antt =====
-- From a request to a connection: apps/desktop/src/commands.rs, with the requests of
-- crates/proto/src/lib.rs.
use tern.Prelude.{
  ℕ, ◌*◌, Bool, true, false, Option, none, some, List, [], ◌∷◌, ◌++◌, Text, codes, number_text,
  is_empty, map, if◌then◌else◌, Result, ok, err,
}
use tern.Store.{Host, HostOverrides, StoreError, Db}
use tern.Store.Hosts
use tern.Store.Settings.{Json, get_or}
use tern.Reconnect.{ReconnectPolicy, default_policy, default_backoff}
use tern.Login.{SshError, AuthMethod, password, key_file, agent, is_retryable}
use tern.Login.Credentials.{Keyring, auth_for_host, stored_secret, or_empty}
use tern.Login.Settings.{SessionConfig, for_host, new}
pub mod Retried
pub mod Registry
pub mod Closed

pub data AuthMethodDto : Type 0 where
  password_method : Text → AuthMethodDto
  key_file_method : (path : Text) → (passphrase : Option Text) → AuthMethodDto
  agent_method : AuthMethodDto

unfoldable pub auth_from_dto : AuthMethodDto → AuthMethod
auth_from_dto (password_method p) = password p
auth_from_dto (key_file_method path passphrase) = key_file path passphrase
auth_from_dto agent_method = agent

-- A field that was left blank is filled with what is stored.
unfoldable pub auth_from_dto_or_stored : AuthMethodDto → Option Text → AuthMethod
unfolding auth_from_dto
auth_from_dto_or_stored (password_method p) stored =
    if is_empty p then password (or_empty stored) else auth_from_dto (password_method p)
auth_from_dto_or_stored (key_file_method path none) stored = key_file path stored
auth_from_dto_or_stored (key_file_method path (some p)) stored =
    if is_empty p then key_file path stored else auth_from_dto (key_file_method path (some p))
auth_from_dto_or_stored agent_method stored = auth_from_dto agent_method

pub record TestConnectionReq : Type 0 where
  pub host : Text
  pub port : ℕ
  pub username : Text
  pub auth : List AuthMethodDto
  pub host_id : Option ℕ

pub record CoalescerConfig : Type 0 where
  pub max_frame : ℕ
  pub tick : ℕ

abbrev pub unwrap_or {ℓ} : {A : Type ℓ} → Option A → A → A
unwrap_or none default = default
unwrap_or (some x) default = x

-- The tick is in milliseconds.
unfoldable pub coalescer_cfg : (chunk_max tick_ms : Option ℕ) → CoalescerConfig
coalescer_cfg chunk_max tick_ms = record {
  max_frame = unwrap_or chunk_max (128 * 1024);
  tick = unwrap_or tick_ms 8;
}

pub record ReconnectError : Type 0 where
  pub retryable : Bool
  pub message : Text

-- The texts of errors.
pub record Messages : Type 0 where
  pub ssh_text : SshError → Text
  pub store_text : StoreError → Text

-- `ReconnectError::from`
unfoldable pub from_ssh : Messages → SshError → ReconnectError
from_ssh texts e = record { retryable = is_retryable e; message = texts.ssh_text e }

abbrev pub key_reconnect_enabled : Text
key_reconnect_enabled = codes "reconnect.enabled"

abbrev pub key_reconnect_max_attempts : Text
key_reconnect_max_attempts = codes "reconnect.max_attempts"

abbrev pub key_hash_known_hosts : Text
key_hash_known_hosts = codes "known_hosts.hash"

unfoldable pub reconnect_policy_for : Json Bool → Json ℕ → Db → Host → ReconnectPolicy
reconnect_policy_for bools numbers db host = record {
  enabled = unwrap_or host.overrides.reconnect_enabled (get_or bools key_reconnect_enabled true db);
  max_attempts =
      unwrap_or host.overrides.reconnect_max_attempts
        (get_or numbers key_reconnect_max_attempts default_policy.max_attempts db);
  backoff = default_backoff;
}

-- `connect` and `open_shell`, with how host keys are treated: a transport `T`, or the error.
module _ {V T : Type 0} (ring : Keyring V) (texts : Messages) (bools : Json Bool)
    (connect : (insecure hash_new : Bool)
      → SessionConfig
      → (cols rows : ℕ) → Result {0, 0} SshError T) where
  -- What the store answered for the host.
  unfoldable pub connect_found :
      (hash_new : Bool)
      → ℕ
      → Result {0, 0} StoreError (Option Host)
      → V
      → (window : Option ℕ) → (cols rows : ℕ) → Result {0, 0} ReconnectError T
  unfolding from_ssh
  connect_found hash_new host_id (err e) v window cols rows =
      err (record { retryable = false; message = texts.store_text e })
  connect_found hash_new host_id (ok none) v window cols rows = err (record {
    retryable = false;
    message = codes "host " ++ number_text host_id ++ codes " was removed";
  })
  connect_found hash_new host_id (ok (some host)) v window cols rows =
      elim (connect false hash_new (for_host host (auth_for_host ring host v).methods window) cols
        rows) [ err e ↦ err (from_ssh texts e) | ok t ↦ ok t ]

  unfoldable pub establish_saved_host :
      ℕ → Db → V → (window : Option ℕ) → (cols rows : ℕ) → Result {0, 0} ReconnectError T
  unfolding connect_found
  establish_saved_host host_id db v window cols rows =
      connect_found (get_or bools key_hash_known_hosts false db) host_id (Hosts.get host_id db) v
        window cols rows

module _ {V : Type 0} (ring : Keyring V) where
  -- The host's secret, if the host is there and the keyring has one.
  unfoldable pub stored_for : Result {0, 0} StoreError (Option Host) → V → Option Text
  stored_for (err e) v = none
  stored_for (ok none) v = none
  stored_for (ok (some host)) v = stored_secret ring host v

  abbrev pub stored_of : Option ℕ → Db → V → Option Text
  stored_of none db v = none
  stored_of (some id) db v = stored_for (Hosts.get id db) v

  -- The configuration that `test_connection` connects with.
  unfoldable pub test_config : TestConnectionReq → Db → V → SessionConfig
  unfolding auth_from_dto_or_stored stored_for
  test_config req db v =
      let stored : Option Text = stored_of req.host_id db v in
      let cfg : SessionConfig = new req.host req.username agent in
      record cfg {
        port = req.port;
        auth = map (λ dto. auth_from_dto_or_stored dto stored) req.auth;
      }
