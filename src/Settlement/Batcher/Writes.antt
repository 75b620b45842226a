-- ===== src/Settlement/Batcher/Writes.antt =====
-- What a write of a batch, and the writes of a drain, do to the batcher.
use tide_gate.Prelude.{
  ◌≡◌, ◌∙◌, refl, Bool, true, false, ◌||◌, List, [], ◌∷◌, ◌++◌, arith, leb, length, Bool-cases, inl,
  inr, Comparable,
}
use tide_gate.Settlement.Batcher.{
  LedgerBatcher, write_with_retry, next, later, drain_queue, has_row,
}
use tide_gate.Settlement.Batcher.Rows.{
  Distinct, has_row-append, has_row-insert_rows, insert_rows-Distinct,
}

module _ {ℓ ℓ'} {A : Type ℓ} {K : Type ℓ'} ⦃e : Comparable K⦄ (row_key : A → K) where
  -- what a write does
  abbrev pub Writes : List A → LedgerBatcher A → LedgerBatcher A → Type (ℓ ⊔ ℓ')
  Writes batch s s' =
      (s'.queue ≡ s.queue)
      × (s'.config ≡ s.config)
      × (Distinct row_key s.table → Distinct row_key s'.table)
      × (s'.ledger_dropped ≡ 0
          → (s.ledger_dropped ≡ 0)
            × ((k : K)
                → has_row row_key k s'.table
                  ≡ (has_row row_key k s.table || has_row row_key k batch)))

  pub write_with_retry-Writes :
      (lands : Bool) (batch : List A) (s : LedgerBatcher A)
      → Writes batch s (write_with_retry row_key lands batch s)
  unfolding write_with_retry
  write_with_retry-Writes true batch s = (
    refl,
    refl,
    insert_rows-Distinct row_key batch s.table,
    λ none_. (none_, λ k. has_row-insert_rows row_key k batch s.table),
  )
  write_with_retry-Writes false [] s =
      (refl, refl, λ d. d, λ none_. (omega arith, λ k. ground arith))
  write_with_retry-Writes false (r ∷ batch) s = (refl, refl, λ d. d, λ none_. absurd (omega arith))

  pub drain_queue-Writes :
      (lands : List Bool) (batch queue : List A) (s : LedgerBatcher A)
      → Writes (batch ++ queue) s (drain_queue row_key lands batch queue s)
  unfolding drain_queue
  drain_queue-Writes lands batch [] s =
      let (q, c, d, kept) = write_with_retry-Writes (next lands) batch s in
      (
        q,
        c,
        d,
        λ none_.
            let (before, rows) = kept none_ in
            (before, λ k. ground (arith, rows k, has_row-append row_key k batch [])),
      )
  drain_queue-Writes lands batch (r ∷ queue) s =
      let filled : List A = batch ++ r ∷ [] in
      elim (Bool-cases (leb s.config.batch_size (length filled))) [
        | inl full ↦
            let s1 = write_with_retry row_key (next lands) filled s in
            let (q, c, d, kept) = write_with_retry-Writes (next lands) filled s in
            let (q', c', d', kept') = drain_queue-Writes (later lands) [] queue s1 in
            rw full (
              q' ∙ q,
              c' ∙ c,
              λ h. d' (d h),
              λ none_.
                  let (before', rows') = kept' none_ in
                  let (before, rows) = kept before' in
                  (
                    before,
                    λ k. ground (
                      arith,
                      rows k,
                      rows' k,
                      has_row-append row_key k batch (r ∷ []),
                      has_row-append row_key k batch (r ∷ queue),
                    ),
                  ),
            )
        | inr room ↦
            let (q, c, d, kept) = drain_queue-Writes lands filled queue s in
            rw room (
              q,
              c,
              d,
              λ none_.
                  let (before, rows) = kept none_ in
                  (
                    before,
                    λ k. ground (
                      arith,
                      rows k,
                      has_row-append row_key k filled queue,
                      has_row-append row_key k batch (r ∷ []),
                      has_row-append row_key k batch (r ∷ queue),
                    ),
                  ),
            )
      ]
