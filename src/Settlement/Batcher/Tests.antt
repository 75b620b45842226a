-- ===== src/Settlement/Batcher/Tests.antt =====
-- A queue of three that is written in batches of two.
use tide_gate.Prelude.{ℕ, ◌≡◌, refl, true, false, List, [], ◌∷◌, count_eq, ◌/◌}
use tide_gate.Config.Samples.{sample_settings}
use tide_gate.Settlement.Batcher.{
  LedgerBatcher, new_batcher, close, drain, enqueue, enqueue_and_flush, run_round, insert_rows,
}
use tide_gate.Settlement.Batcher.Recorded.{Step, enqueues, flushes, rounds, closes, steps}

-- a record is a number, of which the tens are its key
abbrev tens : ℕ → ℕ
tens r = r / 10

-- the second record of a key is not written, and the fourth finds room again after a round
abbrev calls : List (Step ℕ)
calls =
    enqueues 11
    ∷ enqueues 12
    ∷ enqueues 21
    ∷ rounds 1
    ∷ enqueues 31
    ∷ flushes 41
    ∷ closes
    ∷ enqueues 51
    ∷ []

abbrev batcher : LedgerBatcher ℕ
batcher = new_batcher true sample_settings.settlement

calls_run :
    ((steps tens calls batcher).0 ≡ 11 ∷ 12 ∷ 21 ∷ 31 ∷ 41 ∷ [])
    × ((steps tens calls batcher).1.table ≡ 11 ∷ 41 ∷ [])
    × ((drain tens (true ∷ false ∷ []) (steps tens calls batcher).1).table ≡ 11 ∷ 41 ∷ 21 ∷ 31 ∷ [])
    × ((drain tens (false ∷ []) (steps tens calls batcher).1).ledger_dropped ≡ 2)
unfolding steps enqueue enqueue_and_flush run_round drain close insert_rows
calls_run = (refl, refl, refl, refl)
