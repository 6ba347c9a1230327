-- ===== src/Commands.antt =====
-- What the web view and the desktop shell exchange: the records of crates/proto/src/store.rs and
-- their conversions in apps/desktop/src/store_commands.rs.
use tern.Prelude.{ℕ, Bool, true, false, Option, none, some, List, [], ◌∷◌, Text, codes, map}
use tern.Store.{
  AuthKind, agent_kind, key_file_kind, password_kind, HostOverrides, HostSource, manual, Host,
  NewHost, Folder, Tag, HostFilter,
}
use tern.Store.Hosts.{source_name}
use tern.SshConfig.Parse.{
  Warning, match_unsupported, include_cycle, include_unreadable, unsupported_keyword,
}
use tern.SshConfig.Import.{Candidate, Disposition, new_host, update_host, Scan, ImportOutcome}
pub mod Hosts
pub mod Forms
pub mod Secrets

pub data AuthKindDto : Type 0 where
  agent_dto key_file_dto password_dto : AuthKindDto

pub record HostOverridesDto : Type 0 where
  pub term : Option Text
  pub keepalive_secs : Option ℕ
  pub keepalive_max : Option ℕ
  pub connect_timeout_secs : Option ℕ
  pub window_size : Option ℕ
  pub reconnect_enabled : Option Bool
  pub reconnect_max_attempts : Option ℕ

pub record HostDto : Type 0 where
  pub id : ℕ
  pub folder_id : Option ℕ
  pub name : Text
  pub hostname : Text
  pub port : ℕ
  pub username : Text
  pub auth : AuthKindDto
  pub auth_fallbacks : List AuthKindDto
  pub has_secret : Bool
  pub key_path : Option Text
  pub overrides : HostOverridesDto
  pub proxy_jump : Option Text
  pub source : Text
  pub color : Option Text
  pub notes : Option Text
  pub last_connected_at : Option ℕ
  pub connect_count : ℕ
  pub tags : List ℕ

pub record NewHostDto : Type 0 where
  pub folder_id : Option ℕ
  pub name : Text
  pub hostname : Text
  pub port : ℕ
  pub username : Text
  pub auth : AuthKindDto
  pub auth_fallbacks : List AuthKindDto
  pub key_path : Option Text
  pub overrides : HostOverridesDto
  pub proxy_jump : Option Text
  pub color : Option Text
  pub notes : Option Text
  pub tags : List ℕ

pub data SecretUpdateDto : Type 0 where
  unchanged : SecretUpdateDto
  set_secret_dto : Text → SecretUpdateDto
  clear : SecretUpdateDto

pub record FolderDto : Type 0 where
  pub id : ℕ
  pub parent_id : Option ℕ
  pub name : Text
  pub position : ℕ

pub record TagDto : Type 0 where
  pub id : ℕ
  pub name : Text
  pub color : Option Text

pub record SshConfigCandidateDto : Type 0 where
  pub alias : Text
  pub hostname : Text
  pub port : ℕ
  pub username : Text
  pub auth : AuthKindDto
  pub key_path : Option Text
  pub proxy_jump : Option Text
  pub overrides : HostOverridesDto
  pub disposition : Text

unfoldable pub auth_kind : AuthKindDto → AuthKind
auth_kind agent_dto = agent_kind
auth_kind key_file_dto = key_file_kind
auth_kind password_dto = password_kind

unfoldable pub auth_kind_dto : AuthKind → AuthKindDto
auth_kind_dto agent_kind = agent_dto
auth_kind_dto key_file_kind = key_file_dto
auth_kind_dto password_kind = password_dto

unfoldable pub overrides : HostOverridesDto → HostOverrides
overrides dto = record {
  term = dto.term;
  keepalive_secs = dto.keepalive_secs;
  keepalive_max = dto.keepalive_max;
  connect_timeout_secs = dto.connect_timeout_secs;
  window_size = dto.window_size;
  reconnect_enabled = dto.reconnect_enabled;
  reconnect_max_attempts = dto.reconnect_max_attempts;
}

unfoldable pub overrides_dto : HostOverrides → HostOverridesDto
overrides_dto o = record {
  term = o.term;
  keepalive_secs = o.keepalive_secs;
  keepalive_max = o.keepalive_max;
  connect_timeout_secs = o.connect_timeout_secs;
  window_size = o.window_size;
  reconnect_enabled = o.reconnect_enabled;
  reconnect_max_attempts = o.reconnect_max_attempts;
}

abbrev pub is_some {ℓ} : {A : Type ℓ} → Option A → Bool
is_some none = false
is_some (some a) = true

unfoldable pub host_dto : Host → HostDto
unfolding auth_kind_dto overrides_dto
host_dto host = record {
  id = host.id;
  folder_id = host.folder_id;
  name = host.name;
  hostname = host.hostname;
  port = host.port;
  username = host.username;
  auth = auth_kind_dto host.auth;
  auth_fallbacks = map auth_kind_dto host.auth_fallbacks;
  has_secret = is_some host.secret_ref;
  key_path = host.key_path;
  overrides = overrides_dto host.overrides;
  proxy_jump = host.proxy_jump;
  source = source_name host.source;
  color = host.color;
  notes = host.notes;
  last_connected_at = host.last_connected_at;
  connect_count = host.connect_count;
  tags = host.tags;
}

-- The draft of `create_host`.
unfoldable pub draft_of_dto : NewHostDto → NewHost
unfolding auth_kind overrides
draft_of_dto host = record {
  folder_id = host.folder_id;
  name = host.name;
  hostname = host.hostname;
  port = host.port;
  username = host.username;
  auth = auth_kind host.auth;
  auth_fallbacks = map auth_kind host.auth_fallbacks;
  secret_ref = none;
  key_path = host.key_path;
  overrides = overrides host.overrides;
  proxy_jump = host.proxy_jump;
  source = manual;
  source_alias = none;
  color = host.color;
  notes = host.notes;
}

-- The fields that `update_host` takes from the form.
unfoldable pub edited : HostDto → Host → Host
unfolding auth_kind overrides
edited host existing = record existing {
  folder_id = host.folder_id;
  name = host.name;
  hostname = host.hostname;
  port = host.port;
  username = host.username;
  auth = auth_kind host.auth;
  auth_fallbacks = map auth_kind host.auth_fallbacks;
  key_path = host.key_path;
  overrides = overrides host.overrides;
  proxy_jump = host.proxy_jump;
  color = host.color;
  notes = host.notes;
}

unfoldable pub folder_dto : Folder → FolderDto
folder_dto f = record { id = f.id; parent_id = f.parent_id; name = f.name; position = f.position }

unfoldable pub tag_dto : Tag → TagDto
tag_dto t = record { id = t.id; name = t.name; color = t.color }

unfoldable pub candidate_dto : Candidate → SshConfigCandidateDto
unfolding auth_kind_dto overrides_dto
candidate_dto c = record {
  alias = c.alias;
  hostname = c.hostname;
  port = c.port;
  username = c.username;
  auth = auth_kind_dto c.auth;
  key_path = c.key_path;
  proxy_jump = c.proxy_jump;
  overrides = overrides_dto c.overrides;
  disposition = elim c.disposition [ new_host ↦ codes "new" | update_host ↦ codes "update" ];
}
