-- ===== src/Store/Migrate.antt =====
-- The migrations of the store: crates/core-store/src/migrate.rs. What a batch of SQL does to the
-- schema is SQLite's.
use tern.Prelude.{
  ℕ, suc, ◌≤◌, ◌<◌, ◌≡◌, refl, sym, ap, ◌∙◌, subst, Bool, true, false, Option, none, some, List, [],
  ◌∷◌, ◌++◌, append_assoc, Text, codes, map, leb, ltb, if◌then◌else◌, Result, ok, err, arith,
  Bool-cases, ◌⊎◌, inl, inr, ok-injective,
}
use tern.Store.{StoreError, SqliteError, sqlite, schema_ahead}
pub mod Committed

pub record Migration : Type 0 where
  pub version : ℕ
  pub name : Text
  pub sql : Text

-- A row of `schema_migrations`.
pub record Applied : Type 0 where
  pub version : ℕ
  pub name : Text
  pub applied_at : ℕ

-- The schema `S`, with the rows of `schema_migrations` if the table is there.
pub record Database (S : Type 0) : Type 0 where
  pub schema : S
  pub schema_migrations : Option (List Applied)

-- The highest version of a list that is ascending.
unfoldable pub target_version : List Migration → ℕ
target_version [] = 0
target_version (m ∷ []) = m.version
target_version (m ∷ n ∷ ms) = target_version (n ∷ ms)

unfoldable pub max_version : List Applied → ℕ
max_version [] = 0
max_version (a ∷ rows) =
    let rest = max_version rows in if leb rest a.version then a.version else rest

abbrev pub rows_of : Option (List Applied) → List Applied
rows_of none = []
rows_of (some rows) = rows

-- A fresh database, without the table, has version 0.
unfoldable pub applied_version : {S : Type 0} → Database S → ℕ
unfolding max_version
applied_version db = max_version (rows_of db.schema_migrations)

-- `execute_batch` answers an error or the schema that it leaves.
module _ {S : Type 0} (execute_batch : Text → S → Result {0, 0} SqliteError S) where
  -- One transaction: the batch and the row that records it.
  unfoldable pub migrate :
      (now : ℕ) → Migration → Database S → Result {0, 0} StoreError (Database S)
  migrate now m db = elim (execute_batch m.sql db.schema) [
    | err e ↦ err (sqlite e)
    | ok schema ↦ ok (record {
      schema = schema;
      schema_migrations = some (
          rows_of db.schema_migrations
          ++ record { version = m.version; name = m.name; applied_at = now } ∷ []);
    })
  ]

  -- What follows a transaction: the next migration, or the error.
  abbrev pub go_on :
      Database S
      → Result {0, 0} StoreError (Database S)
      → (Database S → Result {0, 0} StoreError Unit × Database S)
      → Result {0, 0} StoreError Unit × Database S
  go_on db (ok db') next = next db'
  go_on db (err e) next = (err e, db)

  -- The loop over the migrations, which passes over those that the database has.
  unfoldable pub migrate_all :
      (now current : ℕ) → List Migration → Database S → Result {0, 0} StoreError Unit × Database S
  unfolding migrate
  migrate_all now current [] db = (ok tt, db)
  migrate_all now current (m ∷ ms) db =
      if leb m.version current
      then migrate_all now current ms db
      else go_on db (migrate now m db) (migrate_all now current ms)

  -- The answer, with what the database is then.
  unfoldable pub run :
      (now : ℕ) → List Migration → Database S → Result {0, 0} StoreError Unit × Database S
  unfolding applied_version target_version migrate_all
  run now ms db =
      if ltb (target_version ms) (applied_version db)
      then (err (schema_ahead (applied_version db) (target_version ms)), db)
      else migrate_all now (applied_version db) ms db

-- The migrations of this build, with the contents of their files.
unfoldable pub migrations : (init_sql auth_fallbacks_sql : Text) → List Migration
migrations init_sql auth_fallbacks_sql =
    record { version = 1; name = codes "init"; sql = init_sql }
    ∷ record { version = 2; name = codes "auth_fallbacks"; sql = auth_fallbacks_sql }
    ∷ []
