-- ===== src/Examples.antt =====
-- Tests and concrete cases of the theorems.
mod Globs
mod Live
mod Searches
mod KnownHostsFile
mod Sessions
mod Stores
mod Records
mod Forms
mod Configs
mod KnownHostsEdits
