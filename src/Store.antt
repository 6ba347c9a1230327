-- ===== src/Store.antt =====
-- The records and the tables of the store: crates/core-store/src/model.rs and error.rs, with the
-- tables of crates/core-store/migrations. Ids and times are not negative; a table is the list of its
-- rows in the order of their ids.
use tern.Prelude.{ℕ, Bool, Option, List, Text}
pub mod Rows
pub mod Hosts
pub mod Folders
pub mod Tags
pub mod Settings
pub mod Migrate
pub mod Search

pub data AuthKind : Type 0 where
  agent_kind key_file_kind password_kind : AuthKind

pub data HostSource : Type 0 where
  manual ssh_config : HostSource

-- Per-host overrides; `none` inherits the global setting.
pub record HostOverrides : Type 0 where
  pub term : Option Text
  pub keepalive_secs : Option ℕ
  pub keepalive_max : Option ℕ
  pub connect_timeout_secs : Option ℕ
  pub window_size : Option ℕ
  pub reconnect_enabled : Option Bool
  pub reconnect_max_attempts : Option ℕ

pub record Host : Type 0 where
  pub id : ℕ
  pub folder_id : Option ℕ
  pub name : Text
  pub hostname : Text
  pub port : ℕ
  pub username : Text
  pub auth : AuthKind
  pub auth_fallbacks : List AuthKind
  pub secret_ref : Option Text
  pub key_path : Option Text
  pub overrides : HostOverrides
  pub proxy_jump : Option Text
  pub source : HostSource
  pub source_alias : Option Text
  pub color : Option Text
  pub notes : Option Text
  pub last_connected_at : Option ℕ
  pub connect_count : ℕ
  pub created_at : ℕ
  pub updated_at : ℕ
  pub tags : List ℕ

pub record NewHost : Type 0 where
  pub folder_id : Option ℕ
  pub name : Text
  pub hostname : Text
  pub port : ℕ
  pub username : Text
  pub auth : AuthKind
  pub auth_fallbacks : List AuthKind
  pub secret_ref : Option Text
  pub key_path : Option Text
  pub overrides : HostOverrides
  pub proxy_jump : Option Text
  pub source : HostSource
  pub source_alias : Option Text
  pub color : Option Text
  pub notes : Option Text

pub record Folder : Type 0 where
  pub id : ℕ
  pub parent_id : Option ℕ
  pub name : Text
  pub position : ℕ
  pub created_at : ℕ
  pub updated_at : ℕ

pub record Tag : Type 0 where
  pub id : ℕ
  pub name : Text
  pub color : Option Text
  pub created_at : ℕ

pub record HostFilter : Type 0 where
  pub query : Option Text
  pub folder_id : Option ℕ
  pub tag_ids : List ℕ
  pub limit : Option ℕ

-- What SQLite refuses: a row against a constraint of the schema, a column against its type.
pub data SqliteError : Type 0 where
  check unique foreign_key : SqliteError
  from_sql_conversion_failure : Text → SqliteError

pub data Entity : Type 0 where
  host_entity folder_entity tag_entity : Entity

pub data StoreError : Type 0 where
  sqlite : SqliteError → StoreError
  json : StoreError
  schema_ahead : (db app : ℕ) → StoreError
  not_found : Entity → (id : ℕ) → StoreError
  invalid : Text → StoreError
  folder_cycle : (id target : ℕ) → StoreError

-- A row of `hosts`: the columns that hold text for an enumeration are text.
pub record Row : Type 0 where
  pub id : ℕ
  pub folder_id : Option ℕ
  pub name : Text
  pub hostname : Text
  pub port : ℕ
  pub username : Text
  pub auth_method : Text
  pub auth_fallbacks : Option Text
  pub secret_ref : Option Text
  pub key_path : Option Text
  pub overrides : HostOverrides
  pub proxy_jump : Option Text
  pub source : Text
  pub source_alias : Option Text
  pub color : Option Text
  pub notes : Option Text
  pub last_connected_at : Option ℕ
  pub connect_count : ℕ
  pub created_at : ℕ
  pub updated_at : ℕ

pub record Setting : Type 0 where
  pub key : Text
  pub value : Text
  pub updated_at : ℕ

-- A row of `host_tags`.
pub record HostTag : Type 0 where
  pub host_id : ℕ
  pub tag_id : ℕ

pub record Db : Type 0 where
  pub folders : List Folder
  pub hosts : List Row
  pub tags : List Tag
  pub host_tags : List HostTag
  pub settings : List Setting
