-- ===== src/Quota/Scripts/Release.antt =====
-- A refund after an admission puts back what the admission took, and only once.
use tide_gate.Prelude.{
  ltb, ℕ, ◌*◌, ◌≡◌, refl, ap, String, string_eq, some, none, arith, get_or, inl, inr, ◌==◌,
  if◌then◌else◌, Bool-cases, Option-cases,
}
use tide_gate.Prelude.Int.{ℤ, pos, ◌+ℤ◌, ◌-ℤ◌, ◌≤ℤ◌, int_laws, min_ℤ}
use tide_gate.Prelude.Dict.{lookup, insert, lookup-insert_self, lookup-erase_self}
use tide_gate.Quota.Scripts.Outcome.{check_and_reserve_cases, rpm_now, tpm_now, budget_now}
use tide_gate.Quota.Scripts.{
  refill_bucket, TenantQuota, ReservationData, ReserveArgs, SettleArgs, unit, admitted, refilled,
  reserved, check_and_reserve, forget, refund, refund_month, give_back, settle,
}

settle_absent :
    (a : SettleArgs) (q : TenantQuota)
    → lookup a.request_id q.resv_data ≡ none
    → settle a q ≡ (0, q)
unfolding settle
settle_absent a q h = rw (settle, h) refl

settle_found :
    (a : SettleArgs) (q : TenantQuota) {d : ReservationData}
    → lookup a.request_id q.resv_data ≡ some d
    → settle a q ≡ (
      1,
      forget a.request_id
          (refund a.key_month a.current_month a.actual_tpm a.actual_budget_micro d q),
    )
unfolding settle
settle_found a q h = rw (settle, h) refl

pub lookup-settle :
    (a : SettleArgs) (q : TenantQuota) → lookup a.request_id (settle a q).1.resv_data ≡ none
unfolding forget
lookup-settle a q = elim (Option-cases (lookup a.request_id q.resv_data)) [
  | inl absent ↦ rw (settle_absent a q absent) absent
  | inr (d, found) ↦ rw (settle_found a q found) (lookup-erase_self a.request_id _)
]

-- A second settlement of a request, whatever usage it reports, does nothing and says so: a reservation
-- is given back once.
pub settle_once :
    (a b : SettleArgs) (q : TenantQuota)
    → a.request_id ≡ b.request_id
    → settle b (settle a q).1 ≡ (0, (settle a q).1)
settle_once a b q same = settle_absent b (settle a q).1 (rw (← same) (lookup-settle a q))

-- the arguments of `refund_full` for a request
abbrev pub refund_args : ReserveArgs → SettleArgs
refund_args a = record {
  key_month = a.month;
  request_id = a.request_id;
  actual_tpm = 0;
  actual_budget_micro = 0;
  current_month = a.month;
}

refill-le-cap : (a : ReserveArgs) (q : TenantQuota) → tpm_now a q ≤ℤ pos (a.tpm_cap * unit)
unfolding refill_bucket
refill-le-cap a q = ground arith

back : (t : ℤ) (c cap : ℕ) → t ≤ℤ pos cap → (t -ℤ pos c) +ℤ (pos c -ℤ pos 0) ≡ t
back t c cap h = omega int_laws

capped : (t : ℤ) (cap : ℕ) → t ≤ℤ pos cap → (if ltb 0 cap then min_ℤ (pos cap) t else t) ≡ t
capped t cap h = grind int_laws

-- the reservation that an admission writes
abbrev written : ReserveArgs → ReservationData
written a = record {
  tpm_est = a.tpm_cost;
  budget_est_micro = a.budget_cost_micro;
  month = some a.month;
}

give_back-reserved :
    (a : ReserveArgs) (q : TenantQuota) (r b : ℤ)
    → let q' = reserved a r (tpm_now a q) b (refilled a q) in
      (give_back (pos (a.tpm_cost * unit) -ℤ pos (0 * unit)) q'.tpm).tokens ≡ some (tpm_now a q)
unfolding give_back reserved refilled
give_back-reserved a q r b =
    let t : ℤ = tpm_now a q in
    let cap : ℕ = a.tpm_cap * unit in
    ap some
      (rw (back t (a.tpm_cost * unit) cap (refill-le-cap a q)) (capped t cap (refill-le-cap a q)))

budget_back :
    (a : ReserveArgs) (b : ℤ) (q : TenantQuota)
    → let budgets = insert a.month (b -ℤ pos a.budget_cost_micro) q.budgets in
      get_or
        (lookup a.month (
          insert a.month
            (get_or (lookup a.month budgets) (pos 0) +ℤ (pos a.budget_cost_micro -ℤ pos 0))
            budgets))
        (pos 0)
      ≡ b
budget_back a b q = rw (lookup-insert_self, lookup-insert_self) (omega int_laws)

found_written :
    (a : ReserveArgs) (r t b : ℤ) (q : TenantQuota)
    → lookup a.request_id (reserved a r t b q).resv_data ≡ some (written a)
unfolding reserved
found_written a r t b q = lookup-insert_self a.request_id (written a) q.resv_data

refund_month_self : (m : String) → refund_month m m (some m) ≡ m
unfolding refund_month
refund_month_self m = elim (Bool-cases (m == m)) [
  | inl same ↦ rw (refund_month, same) refl
  | inr other ↦ rw (refund_month, other) refl
]

-- An admitted request that is refunded in full leaves the
-- streams, the month's budget and the token bucket as they were before it was admitted, and no
-- reservation. The token of the request bucket is not given back.
pub refund-reserve :
    (a : ReserveArgs) (q : TenantQuota)
    → (check_and_reserve a q).0 ≡ admitted
    → let q' = (check_and_reserve a q).1 in
      let (n, q'') = settle (refund_args a) q' in
      (n ≡ 1)
      × (q''.conc ≡ q.conc)
      × (q''.tpm.tokens ≡ some (tpm_now a q))
      × (get_or (lookup a.month q''.budgets) (pos 0) ≡ budget_now a q)
      × (lookup a.request_id q''.resv_data ≡ none)
      × (q''.rpm.tokens ≡ some (rpm_now a q -ℤ pos unit))
refund-reserve a q h = elim (check_and_reserve_cases a q) [
  | inl (p, e) ↦
      let q' : TenantQuota =
        reserved a (rpm_now a q) (tpm_now a q) (budget_now a q) (refilled a q) in
      rw
        (
          e,
          settle_found (refund_args a) q'
              (found_written a (rpm_now a q) (tpm_now a q) (budget_now a q) (refilled a q)),
        )
        (
          refl,
          unfold forget refund reserved refilled in omega arith,
          unfold forget refund in give_back-reserved a q (rpm_now a q) (budget_now a q),
          unfold forget refund reserved in
              rw (refund_month_self a.month) (budget_back a (budget_now a q) (refilled a q)),
          unfold forget in lookup-erase_self a.request_id _,
          unfold forget refund reserved refilled in refl,
        )
  | inr (ne, e) ↦ absurd (ne h)
]
