-- ===== src/Settlement/Batcher/Rows.antt =====
-- The rows of the table after an INSERT: which keys they have, and that no two have the same.
use tide_gate.Prelude.{
  ℕ, zero, suc, ◌≡◌, refl, true, false, ◌||◌, List, [], ◌∷◌, ◌++◌, arith, take, drop, Bool-cases,
  inl, inr, Comparable, ◌==◌,
}
use mathlib.Core.Path.{subst}
use tide_gate.Settlement.Batcher.{has_row, insert_row, insert_rows}

module _ {ℓ ℓ'} {A : Type ℓ} {K : Type ℓ'} ⦃e : Comparable K⦄ (row_key : A → K) where
  pub has_row-append :
      (k : K) (xs ys : List A)
      → has_row row_key k (xs ++ ys) ≡ (has_row row_key k xs || has_row row_key k ys)
  has_row-append k [] ys = refl
  has_row-append k (x ∷ xs) ys = ground (arith, has_row-append k xs ys)

  pub has_row-take-drop :
      (k : K) (n : ℕ) (xs : List A)
      → (has_row row_key k (take n xs) || has_row row_key k (drop n xs)) ≡ has_row row_key k xs
  has_row-take-drop k zero xs = refl
  has_row-take-drop k (suc n) [] = refl
  has_row-take-drop k (suc n) (x ∷ xs) = ground (arith, has_row-take-drop k n xs)

  has_row-insert_row :
      (k : K) (r : A) (rows : List A)
      → has_row row_key k (insert_row row_key r rows) ≡ (has_row row_key k rows || (row_key r == k))
  unfolding insert_row
  has_row-insert_row k r rows = elim (Bool-cases (has_row row_key (row_key r) rows)) [
    | inr new ↦ rw (insert_row, new) (ground (arith, has_row-append k rows (r ∷ [])))
    | inl there ↦ elim (Bool-cases (row_key r == k)) [
      | inr other ↦ rw (insert_row, there, other) (ground arith)
      | inl same ↦
          let found =
            subst (λ (x : K). has_row row_key x rows ≡ true) ((e.same_iff (row_key r) k).0 same)
              there in
          rw (insert_row, there, same, found) refl
    ]
  ]

  pub has_row-insert_rows :
      (k : K) (batch rows : List A)
      → has_row row_key k (insert_rows row_key batch rows)
        ≡ (has_row row_key k rows || has_row row_key k batch)
  unfolding insert_rows
  has_row-insert_rows k [] rows = ground arith
  has_row-insert_rows k (r ∷ batch) rows =
      ground (
        arith,
        has_row-insert_rows k batch (insert_row row_key r rows),
        has_row-insert_row k r rows,
      )

  -- no two rows have the same key
  abbrev pub Distinct : List A → Type 0
  Distinct [] = Unit
  Distinct (r ∷ rows) = (has_row row_key (row_key r) rows ≡ false) × Distinct rows

  append-Distinct :
      (r : A) (rows : List A)
      → has_row row_key (row_key r) rows ≡ false
      → Distinct rows
      → Distinct (rows ++ r ∷ [])
  append-Distinct r [] new d = (refl, tt)
  append-Distinct r (x ∷ rows) new (free, d) = (
    rw (has_row-append (row_key x) rows (r ∷ []), free)
        (ground (arith, e.same_iff (row_key x) (row_key r), e.same_iff (row_key r) (row_key x))),
    append-Distinct r rows (ground arith) d,
  )

  insert_row-Distinct :
      (r : A) (rows : List A) → Distinct rows → Distinct (insert_row row_key r rows)
  unfolding insert_row
  insert_row-Distinct r rows d = elim (Bool-cases (has_row row_key (row_key r) rows)) [
    | inl there ↦ rw (insert_row, there) d
    | inr new ↦ rw (insert_row, new) (append-Distinct r rows new d)
  ]

  pub insert_rows-Distinct :
      (batch rows : List A) → Distinct rows → Distinct (insert_rows row_key batch rows)
  unfolding insert_rows
  insert_rows-Distinct [] rows d = d
  insert_rows-Distinct (r ∷ batch) rows d =
      insert_rows-Distinct batch (insert_row row_key r rows) (insert_row-Distinct r rows d)
