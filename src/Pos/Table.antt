-- ===== src/Pos/Table.antt =====
-- A table with a primary key, in the order of its rows, and the statements that the adapters use.
pub mod Order
use tridentpos.Prelude.{
  ℕ, ◌≡◌, refl, Option, none, some, List, [], ◌∷◌, arith, ltb, ◌==◌, if◌then◌else◌,
}

module _ {R : Type 0} (key : R → ℕ) where
  -- SELECT … WHERE id = ?
  unfoldable pub find_row : ℕ → List R → Option R
  find_row k [] = none
  find_row k (r ∷ rows) = if key r == k then some r else find_row k rows

  -- The row takes the place of the one with its key, or the end of the table.
  unfoldable pub put_row : R → List R → List R
  put_row r [] = r ∷ []
  put_row r (q ∷ rows) = if key q == key r then r ∷ rows else q ∷ put_row r rows

  pub find_row-put_row :
      (k : ℕ) (r : R) (rows : List R)
      → find_row k (put_row r rows) ≡ (if key r == k then some r else find_row k rows)
  unfolding find_row put_row
  find_row-put_row k r [] = refl
  find_row-put_row k r (q ∷ rows) = ground (arith, find_row-put_row k r rows)

  pub find_row_key : (k : ℕ) (rows : List R) {r : R} → find_row k rows ≡ some r → key r ≡ k
  unfolding find_row
  find_row_key k [] e = absurd (cc)
  find_row_key k (q ∷ rows) {r} e = ground (arith, find_row_key k rows {r = r})

-- ORDER BY … ASC: rows of equal rank keep their order.
module _ {R : Type 0} (rank : R → ℕ) where
  unfoldable pub insert_ordered : R → List R → List R
  insert_ordered r [] = r ∷ []
  insert_ordered r (q ∷ rows) =
      let rest = insert_ordered r rows in if ltb (rank r) (rank q) then r ∷ q ∷ rows else q ∷ rest

  unfoldable pub order_rows_onto : List R → List R → List R
  unfolding insert_ordered
  order_rows_onto done [] = done
  order_rows_onto done (r ∷ rows) = order_rows_onto (insert_ordered r done) rows

  unfoldable pub order_rows : List R → List R
  unfolding order_rows_onto
  order_rows rows = order_rows_onto [] rows
