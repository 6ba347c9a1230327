-- ===== src/Lib.antt =====
-- Tern, an SSH and terminal client: models of its core and what they are proved to do.
--
-- The program is a Tauri desktop application (apps/desktop) over crates that do not know each other:
-- core-ssh opens and authenticates SSH sessions and keeps Tern's own `known_hosts`; core-store keeps
-- the saved hosts and imports `~/.ssh/config`; core-vault asks the keyring of the system;
-- term-stream batches terminal output. The desktop crate builds a session's configuration from the
-- store and the keyring, connects through core-ssh, pumps the output through term-stream, and
-- supervises the session when the transport drops.
--
-- Each module models one part, with the source's names for its types and functions:
--
-- - Glob: `glob_match` of crates/core-store/src/ssh_config/parse.rs, of which
--   crates/core-ssh/src/known_hosts.rs has a copy. A text is a list of code points. `Cursor` is the
--   state of the loop, `round` its body, `scan` the loop on fuel. The fuel is `enough`, the product
--   of the lengths plus one each: a round goes on in the pattern, or starts again one character
--   later in the value, and each happens no more often than that. `pattern_list` is the walk over a
--   list of patterns that `Stanza::matches` and `patterns_match` share.
-- - KnownHosts: crates/core-ssh/src/known_hosts.rs. KnownHosts/File has the file on the disk with
--   the faults an operation may meet, and `verify`; KnownHosts/Learn, Remove and Import the
--   operations that write. `verify_entries` is the loop of `verify`, `judge` its body. Keys, the
--   line parser of `ssh-key`, HMAC and base64 are the parameter `SshKeys`. Concurrent writers are
--   not modelled.
-- - SshConfig: crates/core-store/src/ssh_config. SshConfig/Lex is lex.rs: `field_char` is one round
--   of `split_fields`. SshConfig/Parse is parse.rs: stanzas, `aliases` and `resolve`, and in
--   Parse/Absorb the walk over directives and includes. The file system, the environment and
--   `std::path` are the parameter `Files`, and so is `to_lowercase` of `str`, whose Unicode tables are
--   not spelled out. `parse_into` recurses on `left`, the levels that
--   `MAX_INCLUDE_DEPTH` leaves: at none it warns, as the code does at that depth.
-- - Reconnect: apps/desktop/src/reconnect.rs. A duration is a number of nanoseconds; `u32` and
--   `Duration` saturate as written out; `f64` is the parameter `Floats`.
-- - Supervisor: `supervise` of apps/desktop/src/commands.rs as a step function. A phase is an await
--   point, an input what the awaited operation answers, so a run of steps is any interleaving of the
--   transport, the timer and the user.
-- - Sessions: the rest of apps/desktop/src/commands.rs that supervises or is called for a session.
--   Sessions has `establish_saved_host`, which a reconnect calls, and the credentials of a
--   connection test, on the requests of crates/proto/src/lib.rs; connecting and opening the shell
--   are one parameter. Sessions/Registry has the table of live sessions with the commands on them,
--   each in one step; a transport is the parameter `Transport`, and opening a session is modelled
--   from its connection on.
-- - Login: the errors of crates/core-ssh/src/error.rs, the chain of methods of
--   crates/core-ssh/src/session.rs, in Login/Connect its wait for the transport, in
--   Login/Credentials and Login/Fallbacks what apps/desktop/src/auth.rs puts into it and how
--   crates/core-store/src/model.rs stores that, and in Login/Settings the configuration that
--   apps/desktop/src/session_cfg.rs builds. The russh connection is the parameter `Russh`, a state
--   that each call may change.
-- - Store: crates/core-store, an SQLite database as a record of tables, each the list of its rows; a
--   statement is read as SQL documents it, ids are given as SQLite gives them to a table without
--   AUTOINCREMENT, and a statement that a constraint refuses changes nothing. Store has the records
--   of model.rs and the tables of migrations/0001_init.sql; Store/Hosts is hosts.rs, Store/Folders
--   folders.rs, Store/Tags tags.rs, Store/Settings settings.rs, Store/Migrate migrate.rs;
--   Store/Search is the `list` of hosts.rs, with LIKE and its ESCAPE, the letters of ASCII alike in
--   either case. The clock is an argument. The recursive queries over folders run on fuel, the
--   number of folders: a walk to a root visits none twice. Rows that tie under ORDER BY stay in
--   their order. Faults of the disk and the poisoned lock are not modelled. JSON and what a batch of
--   SQL does to the schema are parameters.
-- - SshConfig/Import: crates/core-store/src/ssh_config/mod.rs, `scan` and `apply` over the store.
-- - Commands: apps/desktop/src/store_commands.rs on the records of crates/proto/src/store.rs, with
--   the store and the keyring as one state that each command changes. A command that fails keeps
--   what it changed before. It answers an error where the code answers the error's text.
-- - Trust: `host_key_prompt` and `approve_host_key` of apps/desktop/src/commands.rs, over the file
--   of KnownHosts. The user's answer is an input, and prompts are numbers in the table of those that
--   wait.
-- - Stream: `coalesce` of crates/term-stream/src/lib.rs as a fold over what happens to the task: a
--   chunk, the tick, the end of the input, each with what the consumer does. A clock reading is part
--   of the happening.
-- - Prelude: lists, texts with the methods of `str` that the code calls, and results. `to_ascii_lowercase`
--   is the lower case that NOCASE of SQLite compares. Examples: tests, and a concrete case of each result.
--
-- Not modelled: the numbering of the placeholders in the query of the host list and the opening of
-- the database in core-store, the keyring adapter of core-vault, the local terminals of core-pty,
-- the setup of the transport and of the shell channel in session.rs, key files in keys.rs, the tasks
-- that `open_session` and `test_connection` start, the benchmark commands, the other wire types of
-- proto/src/lib.rs, and the web user interface.
mod Prelude
pub mod Glob
pub mod KnownHosts
pub mod SshConfig
pub mod Reconnect
pub mod Supervisor
pub mod Login
pub mod Store
pub mod Commands
pub mod Sessions
pub mod Stream
pub mod Trust
mod Examples
