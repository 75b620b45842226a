-- ===== src/Settlement/Batcher/Recorded.antt =====
-- No record is lost without being counted, whatever is called in whatever order.
use tide_gate.Prelude.{
  ℕ, ◌≤◌, ◌≡◌, Bool, true, ◌||◌, List, [], ◌∷◌, ◌++◌, if◌then◌else◌, length, Comparable,
}
use tide_gate.Settlement.Batcher.{
  LedgerBatcher, refuses, enqueue, enqueue_and_flush, run_round, drain, close, has_row,
}
use tide_gate.Settlement.Batcher.Rows.{Distinct}

-- a call of the batcher
pub data Step {ℓ} (A : Type ℓ) : Type ℓ where
  enqueues : A → Step A
  flushes : A → Step A
  rounds : ℕ → Step A
  drains : List Bool → Step A
  closes : Step A

module _ {ℓ ℓ'} {A : Type ℓ} {K : Type ℓ'} ⦃e : Comparable K⦄ (row_key : A → K) where
  -- a record with this key is in the queue or in the table
  abbrev pub known : K → LedgerBatcher A → Bool
  known k s = has_row row_key k s.queue || has_row row_key k s.table

  abbrev pub AllKnown : List A → LedgerBatcher A → Type 0
  AllKnown [] s = Unit
  AllKnown (r ∷ rs) s = (known (row_key r) s ≡ true) × AllKnown rs s

  -- what a call does: the rows stay distinct and the queue within its bound; and if it leaves nothing
  -- counted as dropped, nothing was before, and no key is lost, nor one of the records `rs`
  abbrev Records : List A → LedgerBatcher A → LedgerBatcher A → Type ℓ'
  Records rs s s' =
      (Distinct row_key s.table → Distinct row_key s'.table)
      × (length s.queue ≤ s.config.queue_max → length s'.queue ≤ s'.config.queue_max)
      × (s'.ledger_dropped ≡ 0
          → (s.ledger_dropped ≡ 0)
            × ((k : K) → known k s ≡ true → known k s' ≡ true)
            × AllKnown rs s')

  unfoldable pub step : Step A → LedgerBatcher A → LedgerBatcher A
  step (enqueues r) s = enqueue r s
  step (flushes r) s = enqueue_and_flush row_key r s
  step (rounds more) s = run_round row_key more s
  step (drains lands) s = drain row_key lands s
  step closes s = close s

  abbrev pub taken_by : LedgerBatcher A → A → List A
  taken_by s r = if refuses s then [] else r ∷ []

  -- the record that is offered while the batcher takes them
  abbrev pub offered : Step A → LedgerBatcher A → List A
  offered (enqueues r) s = taken_by s r
  offered (flushes r) s = taken_by s r
  offered (rounds more) s = []
  offered (drains lands) s = []
  offered closes s = []

  unfoldable pub steps : List (Step A) → LedgerBatcher A → List A × LedgerBatcher A
  unfolding step
  steps [] s = ([], s)
  steps (c ∷ cs) s = let (rs, s') = steps cs (step c s) in (offered c s ++ rs, s')
