-- ===== src/Quota/Scripts/Tests.antt =====
-- Runs of the quota scripts, and each theorem at an input.
use tide_gate.Prelude.{
  ◌+◌, ◌-◌, ◌*◌, ◌≤◌, ◌≡◌, ◌≢◌, ◌↔◌, refl, [], ◌∷◌, some, none, arith, length, get_or, string_eq,
}
use tide_gate.Prelude.Int.{pos, ◌+ℤ◌, ◌-ℤ◌}
use tide_gate.Prelude.Dict.{lookup, insert}
use tide_gate.Quota.Scripts.{
  TenantQuota, ReserveArgs, SettleArgs, admitted, rejected, rpm_dim, empty_quota, unit,
  check_and_reserve, refilled, reserved, set_if_absent, refill_bucket, settle, retry_after_ms,
}
use tide_gate.Quota.Scripts.Outcome.{Passes, rpm_now, tpm_now, budget_now}
use tide_gate.Quota.Scripts.Admission.{Within, admission}
use tide_gate.Quota.Scripts.Conservation.{
  Reach, start, reserves, settles, balance, outstanding, settled, conservation,
}
use tide_gate.Quota.Scripts.Release.{refund_args, refund-reserve}
use tide_gate.Quota.Scripts.Leak.{settle_call, sweep_call, run_all, reserve_twice_leaks}
use tide_gate.Quota.Scripts.Rate.{admit_all, admit_all_rate}

-- sixty requests and six thousand tokens a minute, one stream, a budget of 1000
abbrev first : ReserveArgs
first = record {
  now_ms = 5000;
  request_id = "r1";
  resv_deadline_ms = 605_000;
  rpm_rate = 60;
  rpm_cap = 2;
  tpm_rate = 6000;
  tpm_cap = 6000;
  tpm_cost = 100;
  conc_cap = 2;
  budget_cost_micro = 300;
  budget_init_micro = 1000;
  month = "2026-05";
}

abbrev second : ReserveArgs
second = record first { now_ms = 5100; request_id = "r2" }

abbrev third : ReserveArgs
third = record first { now_ms = 5200; request_id = "r3" }

abbrev done : SettleArgs
done = record {
  key_month = "2026-05";
  request_id = "r1";
  actual_tpm = 80;
  actual_budget_micro = 250;
  current_month = "2026-05";
}

abbrev after_first : TenantQuota
after_first = (check_and_reserve first empty_quota).1

first-admitted : (check_and_reserve first empty_quota).0 ≡ admitted
unfolding check_and_reserve refilled refill_bucket set_if_absent lookup insert
first-admitted = refl

-- the third request in a row finds less than one token: 60 units a millisecond short by 48000
third-rejected :
    (check_and_reserve third (check_and_reserve second after_first).1).0 ≡ rejected rpm_dim 800
unfolding check_and_reserve refilled reserved refill_bucket set_if_absent lookup insert
    retry_after_ms ◌+ℤ◌ ◌-ℤ◌
third-rejected = refl

settle-counts : (settle done after_first).0 ≡ 1
unfolding settle check_and_reserve refilled reserved refill_bucket set_if_absent lookup insert
settle-counts = refl

admission_example :
    (((check_and_reserve first empty_quota).0 ≡ admitted) ↔ Passes first empty_quota)
    × ((check_and_reserve first empty_quota).0 ≡ admitted
        → Within first (check_and_reserve first empty_quota).1)
    × ((check_and_reserve first empty_quota).0 ≢ admitted
        → ((check_and_reserve first empty_quota).1.conc ≡ empty_quota.conc)
          × ((check_and_reserve first empty_quota).1.resv_zset ≡ empty_quota.resv_zset)
          × ((check_and_reserve first empty_quota).1.resv_data ≡ empty_quota.resv_data))
admission_example = admission first empty_quota

after_first-Reach : Reach "2026-05" 1000 after_first 0
unfolding lookup
after_first-Reach = reserves start first refl (λ e. refl)

conservation_example :
    balance "2026-05" 1000 (settle done after_first).1
      +ℤ pos (outstanding "2026-05" (settle done after_first).1.resv_data)
      +ℤ pos (0 + settled "2026-05" 1000 done after_first)
    ≡ pos 1000
conservation_example = conservation "2026-05" 1000 (settles after_first-Reach done refl)

refund-reserve_example :
    let q' = (check_and_reserve first empty_quota).1 in
    let (n, q'') = settle (refund_args first) q' in
    (n ≡ 1)
    × (q''.conc ≡ empty_quota.conc)
    × (q''.tpm.tokens ≡ some (tpm_now first empty_quota))
    × (get_or (lookup "2026-05" q''.budgets) (pos 0) ≡ budget_now first empty_quota)
    × (lookup "r1" q''.resv_data ≡ none)
    × (q''.rpm.tokens ≡ some (rpm_now first empty_quota -ℤ pos unit))
refund-reserve_example = refund-reserve first empty_quota first-admitted

admit_all_rate_example :
    (admit_all (first ∷ second ∷ third ∷ []) empty_quota).0 * unit ≤ 2 * unit + 60 * (5200 - 5000)
admit_all_rate_example =
    admit_all_rate 60 2 5000 (first ∷ second ∷ third ∷ []) empty_quota refl
      (refl, refl, omega arith, (refl, refl, omega arith, (refl, refl, omega arith, tt)))

-- the settlement of the first attempt was lost, and the retry reserves under the same id
reserve_twice_leaks_example :
    let q' =
      run_all
        (settle_call done ∷ sweep_call "2026-05" ("r1" ∷ []) ∷ [])
        (check_and_reserve first after_first).1 in
    length q'.resv_data + 1 ≤ q'.conc
unfolding check_and_reserve refilled reserved refill_bucket set_if_absent lookup insert ◌+ℤ◌ ◌-ℤ◌
reserve_twice_leaks_example =
    reserve_twice_leaks first after_first (settle_call done ∷ sweep_call "2026-05" ("r1" ∷ []) ∷ [])
      (refl, tt) refl refl refl
