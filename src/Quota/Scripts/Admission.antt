-- ===== src/Quota/Scripts/Admission.antt =====
-- When check_and_reserve.lua admits, and what each of its replies leaves behind.
use tide_gate.Prelude.{
  ℕ, ◌*◌, ◌≡◌, ◌≢◌, ◌≤◌, ◌<◌, ◌↔◌, refl, ap, some, arith, inl, inr, string_eq, leb, false,
}
use tide_gate.Prelude.Int.{ℤ, pos, ◌≤ℤ◌, ◌-ℤ◌, int_laws, ltb_ℤ}
use tide_gate.Prelude.Dict.{lookup, lookup-insert_self}
use tide_gate.Quota.Scripts.{
  unit, TenantQuota, ReserveArgs, admitted, refilled, reserved, check_and_reserve,
}
use tide_gate.Quota.Scripts.Outcome.{Passes, check_and_reserve_cases, rpm_now, tpm_now, budget_now}

-- no bucket, counter or budget is overdrawn
pub record Within (a : ReserveArgs) (q : TenantQuota) : Type 0 where
  pub rpm : (t : ℤ) × (q.rpm.tokens ≡ some t) × (pos 0 ≤ℤ t)
  pub tpm : (t : ℤ) × (q.tpm.tokens ≡ some t) × (pos 0 ≤ℤ t)
  pub streams : q.conc ≤ a.conc_cap
  pub budget : (b : ℤ) × (lookup a.month q.budgets ≡ some b) × (pos 0 ≤ℤ b)

minus_nonneg : (x y : ℤ) → y ≤ℤ x → pos 0 ≤ℤ x -ℤ y
minus_nonneg x y h = omega int_laws

reserved-Within :
    (a : ReserveArgs) (q : TenantQuota)
    → Passes a q
    → Within a (reserved a (rpm_now a q) (tpm_now a q) (budget_now a q) (refilled a q))
unfolding reserved refilled
reserved-Within a q p = record {
  rpm = (_, refl, minus_nonneg _ _ p.rpm);
  tpm = (_, refl, minus_nonneg _ _ p.tpm);
  streams = omega (arith, p.concurrency);
  budget = (_, lookup-insert_self a.month _ (refilled a q).budgets, minus_nonneg _ _ p.budget);
}

test_ℤ : (x y : ℤ) → y ≤ℤ x → ltb_ℤ x y ≡ false
test_ℤ x y h = ground arith

test_ℕ : (x y : ℕ) → y < x → leb x y ≡ false
test_ℕ x y h = ground arith

Passes-admitted :
    (a : ReserveArgs) (q : TenantQuota) → Passes a q → (check_and_reserve a q).0 ≡ admitted
unfolding check_and_reserve
Passes-admitted a q p =
    rw
      (
        check_and_reserve,
        test_ℤ (rpm_now a q) (pos unit) p.rpm,
        test_ℤ (tpm_now a q) (pos (a.tpm_cost * unit)) p.tpm,
        test_ℕ a.conc_cap q.conc p.concurrency,
        test_ℤ (budget_now a q) (pos a.budget_cost_micro) p.budget,
      )
      refl

-- A request is admitted exactly if both buckets, refilled to now, hold its cost, a stream is free and
-- the month's budget covers it. Then no bucket, counter or budget is overdrawn afterwards; otherwise
-- the streams and the reservations stay as they were.
pub admission :
    (a : ReserveArgs) (q : TenantQuota)
    → (((check_and_reserve a q).0 ≡ admitted) ↔ Passes a q)
      × ((check_and_reserve a q).0 ≡ admitted → Within a (check_and_reserve a q).1)
      × ((check_and_reserve a q).0 ≢ admitted
          → ((check_and_reserve a q).1.conc ≡ q.conc)
            × ((check_and_reserve a q).1.resv_zset ≡ q.resv_zset)
            × ((check_and_reserve a q).1.resv_data ≡ q.resv_data))
unfolding refilled
admission a q = elim (check_and_reserve_cases a q) [
  | inl (p, e) ↦ (
    (λ h. p, λ h. ap (λ r. r.0) e),
    λ h. rw e (reserved-Within a q p),
    λ ne. absurd (ne (ap (λ r. r.0) e)),
  )
  | inr (ne, e) ↦ (
    (λ h. absurd (ne h), λ p. Passes-admitted a q p),
    λ h. absurd (ne h),
    λ h. rw e (refl, refl, refl),
  )
]
