-- ===== src/Pos/Table/Order.antt =====
-- Rows of distinct keys that are ordered by their key: the order is strict, and no row is lost.
use tridentpos.Prelude.{
  ℕ, ◌<◌, ◌≡◌, refl, arith, Option, none, some, List, [], ◌∷◌, ltb, ◌==◌, if◌then◌else◌, Bool-cases,
  inl, inr, ◌∙◌,
}
use tridentpos.Pos.Table.{find_row, insert_ordered, order_rows_onto, order_rows}

module _ {R : Type 0} (key : R → ℕ) where
  -- Every key of the rows is above k.
  abbrev pub Over : ℕ → List R → Type 0
  Over k [] = Unit
  Over k (r ∷ rows) = (k < key r) × Over k rows

  abbrev pub IsOrdered : List R → Type 0
  IsOrdered [] = Unit
  IsOrdered (r ∷ rows) = Over (key r) rows × IsOrdered rows

  -- No key of the second list is in the first.
  abbrev pub Apart : List R → List R → Type 0
  Apart done [] = Unit
  Apart done (r ∷ rows) = (find_row key (key r) done ≡ none) × Apart done rows

  abbrev pub IsDistinct : List R → Type 0
  IsDistinct [] = Unit
  IsDistinct (r ∷ rows) = (find_row key (key r) rows ≡ none) × IsDistinct rows

  insert_ordered-Over :
      (k : ℕ) (r : R) (rows : List R) → k < key r → Over k rows → Over k (insert_ordered key r rows)
  unfolding insert_ordered
  insert_ordered-Over k r [] h o = (h, tt)
  insert_ordered-Over k r (q ∷ rows) h o = elim (Bool-cases (ltb (key r) (key q))) [
    | inl first ↦ rw first (h, o)
    | inr later ↦ rw later (o.0, insert_ordered-Over k r rows h o.1)
  ]

  Over-lower : (k j : ℕ) (rows : List R) → j < k → Over k rows → Over j rows
  Over-lower k j [] h o = tt
  Over-lower k j (r ∷ rows) h o = (omega (arith, o.0), Over-lower k j rows h o.1)

  insert_ordered-IsOrdered :
      (r : R) (rows : List R)
      → find_row key (key r) rows ≡ none
      → IsOrdered rows
      → IsOrdered (insert_ordered key r rows)
  unfolding insert_ordered find_row
  insert_ordered-IsOrdered r [] fresh o = (tt, tt)
  insert_ordered-IsOrdered r (q ∷ rows) fresh o = elim (Bool-cases (ltb (key r) (key q))) [
    | inl first ↦
        let less : key r < key q = ground (arith, first) in
        rw first ((less, Over-lower (key q) (key r) rows less o.0), o)
    | inr later ↦
        let more : key q < key r = ground (arith, later) in
        let rest : find_row key (key r) rows ≡ none = ground (arith, more) in
        rw later
          (insert_ordered-Over (key q) r rows more o.0, insert_ordered-IsOrdered r rows rest o.1)
  ]

  find_row-insert_ordered :
      (k : ℕ) (r : R) (rows : List R)
      → find_row key (key r) rows ≡ none
      → find_row key k (insert_ordered key r rows)
        ≡ (if key r == k then some r else find_row key k rows)
  unfolding insert_ordered find_row
  find_row-insert_ordered k r [] fresh = refl
  find_row-insert_ordered k r (q ∷ rows) fresh = ground (arith, find_row-insert_ordered k r rows)

  Apart-insert_ordered :
      (r : R) (done rows : List R)
      → find_row key (key r) done ≡ none
      → find_row key (key r) rows ≡ none
      → Apart done rows
      → Apart (insert_ordered key r done) rows
  unfolding find_row
  Apart-insert_ordered r done [] new fresh apart = tt
  Apart-insert_ordered r done (q ∷ rows) new fresh apart = (
    find_row-insert_ordered (key q) r done new ∙ ground (arith, fresh, apart.0),
    Apart-insert_ordered r done rows new (ground (arith, fresh)) apart.1,
  )

  abbrev pub or_row : Option R → Option R → Option R
  or_row none o = o
  or_row (some r) o = some r

  order_rows_onto_lem :
      (k : ℕ) (done rows : List R)
      → IsOrdered done
      → IsDistinct rows
      → Apart done rows
      → IsOrdered (order_rows_onto key done rows)
        × (find_row key k (order_rows_onto key done rows)
            ≡ or_row (find_row key k rows) (find_row key k done))
  unfolding order_rows_onto find_row
  order_rows_onto_lem k done [] ordered distinct apart = (ordered, refl)
  order_rows_onto_lem k done (r ∷ rows) ordered distinct apart =
      let (sorted, found) =
        order_rows_onto_lem k (insert_ordered key r done) rows
          (insert_ordered-IsOrdered r done apart.0 ordered) distinct.1
          (Apart-insert_ordered r done rows apart.0 distinct.0 apart.1) in
      (sorted, found ∙ ground (arith, find_row-insert_ordered k r done apart.0, distinct.0))

  Apart-nil : (rows : List R) → Apart [] rows
  unfolding find_row
  Apart-nil [] = tt
  Apart-nil (r ∷ rows) = (refl, Apart-nil rows)

  or_row-none : (o : Option R) → or_row o none ≡ o
  or_row-none none = refl
  or_row-none (some r) = refl

  pub order_rows-IsOrdered :
      (k : ℕ) (rows : List R)
      → IsDistinct rows
      → IsOrdered (order_rows key rows)
        × (find_row key k (order_rows key rows) ≡ find_row key k rows)
  unfolding order_rows find_row
  order_rows-IsOrdered k rows distinct =
      let (sorted, found) = order_rows_onto_lem k [] rows tt distinct (Apart-nil rows) in
      (sorted, found ∙ or_row-none (find_row key k rows))
