-- ===== src/Store/Migrate/Committed.antt =====
-- Which migrations a database has: crates/core-store/src/migrate.rs.
use tern.Prelude.{ℕ, ◌<◌, ◌≡◌, none, List, [], ◌∷◌, ◌++◌, Text, map, leb, if◌then◌else◌, Result, ok}
use tern.Store.{StoreError, SqliteError}
use tern.Store.Migrate.{Migration, Applied, Database, migrate}

-- Versions that rise, from above `low`.
unfoldable pub Ascending : ℕ → List Migration → Type 0
Ascending low [] = Unit
Ascending low (m ∷ ms) = (low < m.version) × Ascending m.version ms

-- The highest version of a list.
highest : List ℕ → ℕ
highest [] = 0
highest (v ∷ vs) = let rest = highest vs in if leb rest v then v else rest

abbrev versions : List Migration → List ℕ
versions ms = map (λ m. m.version) ms

abbrev recorded : List Applied → List ℕ
recorded rows = map (λ a. a.version) rows

module _ {S : Type 0} (execute_batch : Text → S → Result {0, 0} SqliteError S) (empty : S) where
  -- A database that these migrations made of an empty one, each in a transaction with its record.
  pub data Committed : List Migration → Database S → Type 0 where
    fresh : Committed [] (record { schema = empty; schema_migrations = none })
    commit :
        {done : List Migration} {db db' : Database S} (now : ℕ) (m : Migration)
        → Committed done db
        → migrate execute_batch now m db ≡ ok db'
        → Committed (done ++ m ∷ []) db'

  -- Some first migrations are committed, and all of them when the answer is no error.
  abbrev pub Outcome : List Migration → Result {0, 0} StoreError Unit × Database S → Type 0
  Outcome ms (r, db) =
      (done todo : List Migration) × (ms ≡ done ++ todo)
      × Committed done db
      × (r ≡ ok tt → todo ≡ [])
