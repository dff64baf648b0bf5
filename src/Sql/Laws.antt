-- ===== src/Sql/Laws.antt =====
-- What the statements do to the sum of a column and to the row that a key finds.
use ovpn.Prelude.{
  Text, ℤ, pos, ◌+ℤ◌, int_laws, ◌≡◌, refl, ◌⊎◌, Bool, true, some, List, [], ◌∷◌, arith, Bool-cases,
  inl, inr, false, not, All,
}
use ovpn.Sql.{insert_sorted, order_by, text_leb, upsert, first_row, select_rows}

module _ {R : Type 0} where
  unfoldable pub total_of : (R → ℤ) → List R → ℤ
  total_of column [] = pos 0
  total_of column (row ∷ rows) = column row +ℤ total_of column rows

  -- An upsert that adds the new row to the old one adds the new row's column to the sum.
  pub total_of-upsert :
      (column : R → ℤ) (same : R → R → Bool) (merge : R → R → R) (new : R) (rows : List R)
      → ((old : R) → same new old ≡ true → column (merge old new) ≡ column old +ℤ column new)
      → total_of column (upsert same merge new rows) ≡ total_of column rows +ℤ column new
  unfolding upsert total_of
  total_of-upsert column same merge new [] add = omega int_laws
  total_of-upsert column same merge new (old ∷ rows) add = elim (Bool-cases (same new old)) [
    | inl e ↦ rw e (rw (add old e) (omega int_laws))
    | inr e ↦ rw e (rw (total_of-upsert column same merge new rows add) (omega int_laws))
  ]

  -- The row that a test finds after an upsert.
  pub first_row-upsert_other :
      (test : R → Bool) (same : R → R → Bool) (merge : R → R → R) (new : R) (rows : List R)
      → test new ≡ false
      → ((old : R) → same new old ≡ true → (test old ≡ false) × (test (merge old new) ≡ false))
      → first_row test (upsert same merge new rows) ≡ first_row test rows
  unfolding upsert first_row
  first_row-upsert_other test same merge new [] miss keep = ground arith
  first_row-upsert_other test same merge new (old ∷ rows) miss keep =
      ground (arith, keep old, first_row-upsert_other test same merge new rows miss keep)

  pub first_row-upsert_self :
      (test : R → Bool) (same : R → R → Bool) (merge : R → R → R) (new : R) (rows : List R)
      → test new ≡ true
      → ((old : R) → same new old ≡ test old)
      → ((old : R) → test old ≡ true → test (merge old new) ≡ true)
      → (row : R) × (first_row test (upsert same merge new rows) ≡ some row)
        × ((row ≡ new) ⊎ ((old : R) × (row ≡ merge old new)))
  unfolding upsert first_row
  first_row-upsert_self test same merge new [] hit by keep = (new, rw hit refl, inl refl)
  first_row-upsert_self test same merge new (old ∷ rows) hit by keep =
      elim (Bool-cases (test old)) [
        | inl e ↦ (merge old new, rw (by old, e) (rw (keep old e) refl), inr (old, refl))
        | inr e ↦ rw (by old, e) (rw e (first_row-upsert_self test same merge new rows hit by keep))
      ]

module _ {R : Type 0} where
  pub selected-All :
      (drop : R → Bool) (rows : List R)
      → All (λ row. drop row ≡ false) (select_rows (λ row. not (drop row)) rows)
  unfolding select_rows
  selected-All drop [] = tt
  selected-All drop (row ∷ rows) = elim (Bool-cases (drop row)) [
    | inl e ↦ rw e (selected-All drop rows)
    | inr e ↦ rw e (e, selected-All drop rows)
  ]

  pub selected_keeps-All :
      (P : R → Type 0) (test : R → Bool) (rows : List R)
      → All P rows
      → All P (select_rows test rows)
  unfolding select_rows
  selected_keeps-All P test [] h = tt
  selected_keeps-All P test (row ∷ rows) (p, h) = elim (Bool-cases (test row)) [
    | inl e ↦ rw e (p, selected_keeps-All P test rows h)
    | inr e ↦ rw e (selected_keeps-All P test rows h)
  ]

module _ {R : Type 0} (key : R → Text) (P : R → Type 0) where
  insert_sorted-All :
      (new : R) (rows : List R) → All P (insert_sorted key new rows) → P new × All P rows
  unfolding insert_sorted
  insert_sorted-All new [] = λ h. h
  insert_sorted-All new (row ∷ rows) = elim (Bool-cases (text_leb (key new) (key row))) [
    | inl e ↦ rw e (λ h. h)
    | inr e ↦ rw e (λ (p, ps). let (q, qs) = insert_sorted-All new rows ps in (q, (p, qs)))
  ]

  -- What holds of every row in an order holds of every row.
  pub order_by-All : (rows : List R) → All P (order_by key rows) → All P rows
  unfolding order_by
  order_by-All [] h = tt
  order_by-All (row ∷ rows) h =
      let (p, ps) = insert_sorted-All row (order_by key rows) h in (p, order_by-All rows ps)
