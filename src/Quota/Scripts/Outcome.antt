-- ===== src/Quota/Scripts/Outcome.antt =====
-- The two ends of check_and_reserve.lua: an admitted request has passed the four tests, and any other
-- leaves the refilled state.
use tide_gate.Prelude.{
  ℕ, ◌*◌, ◌≡◌, ◌≢◌, ◌<◌, refl, ◌⊎◌, false, arith, get_or, Bool-cases, inl, inr, leb, string_eq,
}
use tide_gate.Prelude.Int.{ℤ, pos, ◌≤ℤ◌, ltb_ℤ}
use tide_gate.Prelude.Dict.{lookup}
use tide_gate.Quota.Scripts.{
  TenantQuota, ReserveArgs, admitted, unit, refill_bucket, refilled, reserved, check_and_reserve,
}

abbrev pub rpm_now : ReserveArgs → TenantQuota → ℤ
rpm_now a q = refill_bucket a.now_ms a.rpm_rate a.rpm_cap q.rpm

abbrev pub tpm_now : ReserveArgs → TenantQuota → ℤ
tpm_now a q = refill_bucket a.now_ms a.tpm_rate a.tpm_cap q.tpm

abbrev pub budget_now : ReserveArgs → TenantQuota → ℤ
budget_now a q = get_or (lookup a.month (refilled a q).budgets) (pos 0)

-- The tests that an admitted request has passed.
pub record Passes (a : ReserveArgs) (q : TenantQuota) : Type 0 where
  pub rpm : pos unit ≤ℤ rpm_now a q
  pub tpm : pos (a.tpm_cost * unit) ≤ℤ tpm_now a q
  pub concurrency : q.conc < a.conc_cap
  pub budget : pos a.budget_cost_micro ≤ℤ budget_now a q

abbrev pub Admits : ReserveArgs → TenantQuota → Type 0
Admits a q =
    Passes a q
    × (check_and_reserve a q
        ≡ (admitted, reserved a (rpm_now a q) (tpm_now a q) (budget_now a q) (refilled a q)))

abbrev pub Refuses : ReserveArgs → TenantQuota → Type 0
Refuses a q = ((check_and_reserve a q).0 ≢ admitted) × ((check_and_reserve a q).1 ≡ refilled a q)

not_ltb_ℤ : (x y : ℤ) → ltb_ℤ x y ≡ false → y ≤ℤ x
not_ltb_ℤ x y h = ground arith

not_leb : (x y : ℕ) → leb x y ≡ false → y < x
not_leb x y h = ground arith

pub check_and_reserve_cases : (a : ReserveArgs) (q : TenantQuota) → Admits a q ⊎ Refuses a q
unfolding check_and_reserve
check_and_reserve_cases a q = elim (Bool-cases (ltb_ℤ (rpm_now a q) (pos unit))) [
  | inl t ↦ inr (rw (check_and_reserve, t) ((λ h. cc), refl))
  | inr r ↦ elim (Bool-cases (ltb_ℤ (tpm_now a q) (pos (a.tpm_cost * unit)))) [
    | inl t ↦ inr (rw (check_and_reserve, r, t) ((λ h. cc), refl))
    | inr t ↦ elim (Bool-cases (leb a.conc_cap q.conc)) [
      | inl c ↦ inr (rw (check_and_reserve, r, t, c) ((λ h. cc), refl))
      | inr c ↦ elim (Bool-cases (ltb_ℤ (budget_now a q) (pos a.budget_cost_micro))) [
        | inl b ↦ inr (rw (check_and_reserve, r, t, c, b) ((λ h. cc), refl))
        | inr b ↦ inl (
          record {
            rpm = not_ltb_ℤ (rpm_now a q) (pos unit) r;
            tpm = not_ltb_ℤ (tpm_now a q) (pos (a.tpm_cost * unit)) t;
            concurrency = not_leb a.conc_cap q.conc c;
            budget = not_ltb_ℤ (budget_now a q) (pos a.budget_cost_micro) b;
          },
          rw (check_and_reserve, r, t, c, b) refl,
        )
      ]
    ]
  ]
]
