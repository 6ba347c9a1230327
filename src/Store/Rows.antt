-- ===== src/Store/Rows.antt =====
-- Tables as lists: what SQL reads and writes by an id.
use mathlib.Core.Option
use tern.Prelude.{
  length, ◌≢◌, contains, true, ◌<◌, false, ◌≤◌, le_refl, ℕ, suc, ◌≡◌, refl, Option, none, some,
  List, [], ◌∷◌, ◌++◌, leb, map, if◌then◌else◌, ◌==◌, list_eq, nat_eq, arith,
}

-- The rowid that SQLite gives a new row: one more than the largest, and 1 in an empty table.
unfoldable pub next_id : List ℕ → ℕ
next_id [] = 1
next_id (i ∷ ids) = let rest = next_id ids in if leb rest i then suc i else rest

-- Rows of a table that an id names.
pub record Keyed (R : Type 0) : Type 0 where
  pub key_of : R → ℕ

module _ {R : Type 0} ⦃k : Keyed R⦄ where
  abbrev pub ids : List R → List ℕ
  ids rows = map k.key_of rows

  -- `SELECT .. WHERE id = ?1`
  unfoldable pub row_of : List R → ℕ → Option R
  row_of [] id = none
  row_of (r ∷ rows) id = let rest = row_of rows id in if k.key_of r == id then some r else rest

  -- `UPDATE .. WHERE id = ?1`
  unfoldable pub change_row : (R → R) → ℕ → List R → List R
  change_row f id [] = []
  change_row f id (r ∷ rows) =
      let rest = change_row f id rows in if k.key_of r == id then f r ∷ rest else r ∷ rest

  -- `DELETE .. WHERE id = ?1`
  unfoldable pub delete_row : ℕ → List R → List R
  delete_row id [] = []
  delete_row id (r ∷ rows) =
      let rest = delete_row id rows in if k.key_of r == id then rest else r ∷ rest

  -- Reading behind an appended row.
  pub row_of-snoc :
      (rows : List R) (r : R) (id : ℕ)
      → row_of rows (k.key_of r) ≡ none
      → row_of (rows ++ r ∷ []) id ≡ (if k.key_of r == id then some r else row_of rows id)
  unfolding row_of
  row_of-snoc [] r id h = refl
  row_of-snoc (q ∷ rows) r id h =
      let ih : row_of rows (k.key_of r) ≡ none
          → row_of (rows ++ r ∷ []) id ≡ (if k.key_of r == id then some r else row_of rows id) =
        row_of-snoc rows r id in
      ground arith

  pub row_of-change :
      (f : R → R) (id : ℕ) (rows : List R) (i : ℕ)
      → ((r : R) → k.key_of (f r) ≡ k.key_of r)
      → row_of (change_row f id rows) i
        ≡ (if id == i then Option.map f (row_of rows i) else row_of rows i)
  unfolding row_of change_row
  row_of-change f id [] i h = ground arith
  row_of-change f id (r ∷ rows) i h =
      let ih : row_of (change_row f id rows) i
          ≡ (if id == i then Option.map f (row_of rows i) else row_of rows i) =
        row_of-change f id rows i h in
      let same : k.key_of (f r) ≡ k.key_of r = h r in ground arith

  pub row_of-delete :
      (id : ℕ) (rows : List R) (i : ℕ)
      → row_of (delete_row id rows) i ≡ (if id == i then none else row_of rows i)
  unfolding row_of delete_row
  row_of-delete id [] i = ground arith
  row_of-delete id (r ∷ rows) i =
      let ih : row_of (delete_row id rows) i ≡ (if id == i then none else row_of rows i) =
        row_of-delete id rows i in
      ground arith

  above : (rows : List R) (id : ℕ) → next_id (ids rows) ≤ id → row_of rows id ≡ none
  unfolding next_id row_of
  above [] id h = refl
  above (r ∷ rows) id h =
      let ih : next_id (ids rows) ≤ id → row_of rows id ≡ none = above rows id in ground arith

  -- The id of a new row names no row yet.
  pub row_of-next_id : (rows : List R) → row_of rows (next_id (ids rows)) ≡ none
  row_of-next_id rows = above rows (next_id (ids rows)) (le_refl (next_id (ids rows)))

-- The id of a new row is above each id of the table.
pub next_id_above : (is : List ℕ) (j : ℕ) → contains is j ≡ true → j < next_id is
unfolding next_id
next_id_above [] j h = cc
next_id_above (i ∷ is) j h =
    let ih : contains is j ≡ true → j < next_id is = next_id_above is j in ground arith

pub next_id_fresh : (is : List ℕ) (j : ℕ) → contains is j ≡ true → (j == next_id is) ≡ false
next_id_fresh is j h = let ih : j < next_id is = next_id_above is j h in ground arith

module _ {R : Type 0} ⦃k : Keyed R⦄ (rows : List R) (r : R)
    (new : k.key_of r ≡ next_id (ids rows)) where
  -- Reading a table to which a row with the next id was appended.
  pub row_of-appended :
      (i : ℕ) → row_of (rows ++ r ∷ []) i ≡ (if k.key_of r == i then some r else row_of rows i)
  row_of-appended i = row_of-snoc rows r i (rw new (row_of-next_id rows))

  pub row_of-appended_itself : (i : ℕ) → i ≡ k.key_of r → row_of (rows ++ r ∷ []) i ≡ some r
  row_of-appended_itself i e =
      let step : row_of (rows ++ r ∷ []) i ≡ (if k.key_of r == i then some r else row_of rows i) =
        row_of-appended i in
      ground arith

  pub row_of-appended_other : (i : ℕ) → i ≢ k.key_of r → row_of (rows ++ r ∷ []) i ≡ row_of rows i
  row_of-appended_other i n =
      let step : row_of (rows ++ r ∷ []) i ≡ (if k.key_of r == i then some r else row_of rows i) =
        row_of-appended i in
      ground arith

pub length-ids : {R : Type 0} ⦃k : Keyed R⦄ (rows : List R) → length (ids rows) ≡ length rows
length-ids [] = refl
length-ids (r ∷ rows) = omega (arith, length-ids rows)
