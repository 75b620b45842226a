-- ===== src/Settlement/Batcher.antt =====
-- settlement/batcher.py and settlement/attempt_batcher.py, which differ in their records only: a bounded
-- queue of records that are table in batches. `row_key` is what ON CONFLICT names: the request_id, for
-- attempts with the attempt_seq. Between two tries of a write the source sleeps; here a write is carried
-- out in the end, or is given up at the deadline of a drain. Errors that are not caught there and a
-- cancellation in a write are left out.
pub mod Recorded
pub mod Rows
pub mod Writes
mod Tests
use tide_gate.Prelude.{
  Comparable, ℕ, ◌+◌, min, max, Bool, true, false, not, ◌||◌, List, [], ◌∷◌, ◌++◌, ltb, leb,
  if◌then◌else◌, length, take, drop, Comparable, any, ◌==◌,
}
use tide_gate.Config.{SettlementConfig}

-- `ledger_dropped` is the metric.
pub record LedgerBatcher {ℓ} (A : Type ℓ) : Type ℓ where
  pub has_pool : Bool
  pub config : SettlementConfig
  pub queue : List A
  pub closed : Bool
  pub ledger_dropped : ℕ
  pub table : List A

abbrev pub new_batcher {ℓ} : {A : Type ℓ} → Bool → SettlementConfig → LedgerBatcher A
new_batcher has_pool config = record {
  has_pool = has_pool;
  config = config;
  queue = [];
  closed = false;
  ledger_dropped = 0;
  table = [];
}

-- whether the next write lands, and whether the later ones do
abbrev pub next : List Bool → Bool
next [] = true
next (b ∷ bs) = b

abbrev pub later : List Bool → List Bool
later [] = []
later (b ∷ bs) = bs

module _ {ℓ} {A : Type ℓ} where
  -- `self._pool is None or self._closed`
  abbrev pub refuses : LedgerBatcher A → Bool
  refuses s = not s.has_pool || s.closed

  unfoldable pub enqueue : A → LedgerBatcher A → LedgerBatcher A
  enqueue r s =
      if refuses s
      then s
      else if ltb (length s.queue) s.config.queue_max
      then record s { queue = s.queue ++ r ∷ [] }
      else record s { ledger_dropped = s.ledger_dropped + 1 }

  unfoldable pub close : LedgerBatcher A → LedgerBatcher A
  close s = record s { closed = true }

module _ {ℓ ℓ'} {A : Type ℓ} {K : Type ℓ'} ⦃e : Comparable K⦄ (row_key : A → K) where
  -- a row of the table has this key
  abbrev pub has_row : K → List A → Bool
  has_row k rows = any (λ (x : A). row_key x == k) rows

  -- `INSERT … ON CONFLICT DO NOTHING`
  unfoldable pub insert_row : A → List A → List A
  insert_row r rows = if has_row (row_key r) rows then rows else rows ++ r ∷ []

  -- `executemany`
  unfoldable pub insert_rows : List A → List A → List A
  unfolding insert_row
  insert_rows [] rows = rows
  insert_rows (r ∷ batch) rows = insert_rows batch (insert_row r rows)

  -- `_write_with_retry` of a batch: it lands, or is given up
  unfoldable pub write_with_retry : Bool → List A → LedgerBatcher A → LedgerBatcher A
  unfolding insert_rows
  write_with_retry lands batch s =
      if lands
      then record s { table = insert_rows batch s.table }
      else record s { ledger_dropped = s.ledger_dropped + length batch }

  unfoldable pub enqueue_and_flush : A → LedgerBatcher A → LedgerBatcher A
  unfolding write_with_retry
  enqueue_and_flush r s = if refuses s then s else write_with_retry true (r ∷ []) s

  -- one round of `run`: the first record, and those of the next `more` that fit before the interval
  -- ends, are table without a deadline
  unfoldable pub run_round : ℕ → LedgerBatcher A → LedgerBatcher A
  unfolding write_with_retry
  run_round more s =
      if not s.has_pool
      then s
      else (let n : ℕ = min (1 + more) (max 1 s.config.batch_size) in
          write_with_retry true (take n s.queue) (record s { queue = drop n s.queue }))

  -- the loop of `drain` over the queue, with the batch that it is filling
  unfoldable pub drain_queue : List Bool → List A → List A → LedgerBatcher A → LedgerBatcher A
  unfolding write_with_retry
  drain_queue lands batch [] s = write_with_retry (next lands) batch s
  drain_queue lands batch (r ∷ queue) s =
      let filled : List A = batch ++ r ∷ [] in
      if leb s.config.batch_size (length filled)
      then drain_queue (later lands) [] queue (write_with_retry (next lands) filled s)
      else drain_queue lands filled queue s

  unfoldable pub drain : List Bool → LedgerBatcher A → LedgerBatcher A
  unfolding drain_queue
  drain lands s =
      if not s.has_pool then s else drain_queue lands [] s.queue (record s { queue = [] })
