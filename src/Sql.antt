-- ===== src/Sql.antt =====
-- The SQL statements that the store sends, as functions on tables. A table is the list of its rows.
pub mod Laws
use ovpn.Prelude.{
  ℕ, ◌≡◌, Bool, true, false, ◌&&◌, ◌||◌, Option, none, some, List, [], ◌∷◌, ◌++◌, Text, ltb, ◌==◌,
  if◌then◌else◌,
}

module _ {R : Type 0} where
  -- INSERT … ON CONFLICT(key) DO UPDATE: `same` compares keys, `merge old new` is the row written.
  unfoldable pub upsert : (R → R → Bool) → (R → R → R) → R → List R → List R
  upsert same merge new [] = new ∷ []
  upsert same merge new (old ∷ rows) =
      if same new old then merge old new ∷ rows else old ∷ upsert same merge new rows

  unfoldable pub exists_row : (R → Bool) → List R → Bool
  exists_row test [] = false
  exists_row test (row ∷ rows) = test row || exists_row test rows

  -- INSERT: nothing where the key is taken.
  unfoldable pub insert_row : (R → R → Bool) → R → List R → Option (List R)
  unfolding exists_row
  insert_row same new rows = if exists_row (same new) rows then none else some (rows ++ new ∷ [])

  -- SELECT … WHERE; DELETE keeps the rows that its test does not name.
  unfoldable pub select_rows : (R → Bool) → List R → List R
  select_rows test [] = []
  select_rows test (row ∷ rows) =
      let rest = select_rows test rows in if test row then row ∷ rest else rest

  -- The row of a query at a primary key.
  unfoldable pub first_row : (R → Bool) → List R → Option R
  first_row test [] = none
  first_row test (row ∷ rows) = if test row then some row else first_row test rows

-- SQLite's BINARY order of texts.
unfoldable pub text_leb : Text → Text → Bool
text_leb [] t = true
text_leb (a ∷ s) [] = false
text_leb (a ∷ s) (b ∷ t) = ltb a b || (a == b && text_leb s t)

module _ {R : Type 0} (key : R → Text) where
  unfoldable pub insert_sorted : R → List R → List R
  insert_sorted row [] = row ∷ []
  insert_sorted row (next ∷ rows) =
      if text_leb (key row) (key next) then row ∷ next ∷ rows else next ∷ insert_sorted row rows

  -- ORDER BY; rows with equal keys keep their order.
  unfoldable pub order_by : List R → List R
  unfolding insert_sorted text_leb
  order_by [] = []
  order_by (row ∷ rows) = insert_sorted row (order_by rows)
