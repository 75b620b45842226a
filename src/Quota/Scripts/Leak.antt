-- ===== src/Quota/Scripts/Leak.antt =====
-- A second reservation under one request id: the hash keeps one entry and the stream counter two.
use tide_gate.Prelude.{
  ℕ, ◌+◌, ◌≤◌, ◌≡◌, String, string_eq, some, List, [], ◌∷◌, arith, length, Option-cases, inl, inr,
}
use tide_gate.Prelude.Int.{ℤ}
use tide_gate.Prelude.Dict.{
  Distinct, lookup, insert-Distinct, erase-Distinct, length-insert-le, length-insert_present,
  length-erase, erase_absent,
}
use tide_gate.Quota.Scripts.{
  TenantQuota, ReservationData, ReserveArgs, SettleArgs, admitted, refilled, reserved,
  check_and_reserve, forget, refund, settle, sweep_one, sweep,
}
use tide_gate.Quota.Scripts.Outcome.{check_and_reserve_cases, rpm_now, tpm_now, budget_now}

-- `k` streams are counted that no reservation accounts for
pub record Leaks (k : ℕ) (q : TenantQuota) : Type 0 where
  pub distinct : Distinct q.resv_data
  pub lost : k + length q.resv_data ≤ q.conc

reserved-Leaks :
    (k : ℕ) (a : ReserveArgs) (r t b : ℤ) (q : TenantQuota)
    → Leaks k q
    → Leaks k (reserved a r t b q)
unfolding reserved
reserved-Leaks k a r t b q h = record {
  distinct = insert-Distinct a.request_id _ q.resv_data h.distinct;
  lost = omega (arith, h.lost, length-insert-le a.request_id _ q.resv_data);
}

check_and_reserve-Leaks :
    (k : ℕ) (a : ReserveArgs) (q : TenantQuota) → Leaks k q → Leaks k (check_and_reserve a q).1
unfolding refilled
check_and_reserve-Leaks k a q h = elim (check_and_reserve_cases a q) [
  | inl (p, e) ↦ rw e (
      reserved-Leaks k a (rpm_now a q) (tpm_now a q) (budget_now a q) (refilled a q)
        (record { distinct = h.distinct; lost = h.lost }))
  | inr (ne, e) ↦ rw e (record { distinct = h.distinct; lost = h.lost })
]

refund-Leaks :
    (k : ℕ) (key current id : String) (tpm budget : ℕ) (d : ReservationData) (q : TenantQuota)
    → lookup id q.resv_data ≡ some d
    → Leaks k q
    → Leaks k (forget id (refund key current tpm budget d q))
unfolding forget refund
refund-Leaks k key current id tpm budget d q found h = record {
  distinct = erase-Distinct id q.resv_data h.distinct;
  lost = omega (arith, h.lost, length-erase id q.resv_data h.distinct found);
}

settle-Leaks : (k : ℕ) (a : SettleArgs) (q : TenantQuota) → Leaks k q → Leaks k (settle a q).1
unfolding settle
settle-Leaks k a q h = elim (Option-cases (lookup a.request_id q.resv_data)) [
  | inl absent ↦ rw (settle, absent) h
  | inr (d, found) ↦
      rw (settle, found)
        (refund-Leaks k a.key_month a.current_month a.request_id a.actual_tpm a.actual_budget_micro
          d q found h)
]

sweep_one-Leaks :
    (k : ℕ) (key current id : String) (q : TenantQuota)
    → Leaks k q
    → Leaks k (sweep_one key current id q).1
unfolding sweep_one
sweep_one-Leaks k key current id q h = elim (Option-cases (lookup id q.resv_data)) [
  | inl absent ↦
      rw (sweep_one, absent)
        (unfold forget in
          record {
            distinct = erase-Distinct id q.resv_data h.distinct;
            lost = rw (erase_absent id q.resv_data absent) h.lost;
          })
  | inr (d, found) ↦ rw (sweep_one, found) (refund-Leaks k key current id 0 0 d q found h)
]

sweep-Leaks :
    (k : ℕ) (key current : String) (due : List String) (q : TenantQuota)
    → Leaks k q
    → Leaks k (sweep key current due q).1
unfolding sweep
sweep-Leaks k key current [] q h = h
sweep-Leaks k key current (id ∷ rest) q h =
    sweep-Leaks k key current rest (sweep_one key current id q).1
      (sweep_one-Leaks k key current id q h)

-- The calls that the gateway makes of the scripts.
pub data Script : Type 0 where
  reserve_call : ReserveArgs → Script
  settle_call : SettleArgs → Script
  sweep_call : String → List String → Script

unfoldable pub run : Script → TenantQuota → TenantQuota
run (reserve_call a) q = (check_and_reserve a q).1
run (settle_call a) q = (settle a q).1
run (sweep_call month due) q = (sweep month month due q).1

unfoldable pub run_all : List Script → TenantQuota → TenantQuota
unfolding run
run_all [] q = q
run_all (s ∷ rest) q = run_all rest (run s q)

run_all-Leaks :
    (k : ℕ) (scripts : List Script) (q : TenantQuota) → Leaks k q → Leaks k (run_all scripts q)
unfolding run_all
run_all-Leaks k [] q h = h
run_all-Leaks k (reserve_call a ∷ rest) q h =
    run_all-Leaks k rest (check_and_reserve a q).1 (check_and_reserve-Leaks k a q h)
run_all-Leaks k (settle_call a ∷ rest) q h =
    run_all-Leaks k rest (settle a q).1 (settle-Leaks k a q h)
run_all-Leaks k (sweep_call m due ∷ rest) q h =
    run_all-Leaks k rest (sweep m m due q).1 (sweep-Leaks k m m due q h)

twice-Leaks :
    (a : ReserveArgs) (r t b : ℤ) (q : TenantQuota) {d : ReservationData}
    → Distinct q.resv_data
    → q.conc ≡ length q.resv_data
    → lookup a.request_id q.resv_data ≡ some d
    → Leaks 1 (reserved a r t b q)
unfolding reserved
twice-Leaks a r t b q {d} u c found = record {
  distinct = insert-Distinct a.request_id _ q.resv_data u;
  lost = omega (arith, c, length-insert_present a.request_id {w = d} _ q.resv_data found);
}

-- When a request that still has a reservation is admitted again under the same id, a stream stays
-- counted for ever: after any later scripts the counter is above the number of reservations.
pub reserve_twice_leaks :
    (a : ReserveArgs) (q : TenantQuota) {d : ReservationData} (scripts : List Script)
    → Distinct q.resv_data
    → q.conc ≡ length q.resv_data
    → lookup a.request_id q.resv_data ≡ some d
    → (check_and_reserve a q).0 ≡ admitted
    → let q' = run_all scripts (check_and_reserve a q).1 in length q'.resv_data + 1 ≤ q'.conc
unfolding refilled
reserve_twice_leaks a q {d} scripts u c found h = elim (check_and_reserve_cases a q) [
  | inl (p, e) ↦ rw e (
      omega (
        arith,
        (run_all-Leaks 1 scripts _ (
            twice-Leaks a (rpm_now a q) (tpm_now a q) (budget_now a q) (refilled a q) {d = d} u c
              found)).lost,
      ))
  | inr (ne, e) ↦ absurd (ne h)
]
