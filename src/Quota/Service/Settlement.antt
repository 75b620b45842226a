-- ===== src/Quota/Service/Settlement.antt =====
-- quota/service.py: the settlement of a reservation.
use tide_gate.Prelude.{
  ℕ, ◌+◌, ◌-◌, string_eq, Bool, true, false, Option, none, some, if◌then◌else◌, get_or,
}
use tide_gate.Prelude.Dict.{lookup, insert}
use tide_gate.Core.{Usage}
use tide_gate.Quota.Estimator.{Estimate, budget_micro, update_correction}
use tide_gate.Quota.Scripts.{TenantQuota, SettleArgs, settle}
use tide_gate.Quota.Service.{
  QuotaReservation, QuotaService, Link, delivered, redis_error, timed_out, effect,
}

-- `_fallback_usage`
unfoldable pub fallback_usage : Estimate → ℕ → Usage
fallback_usage estimated forwarded_tokens =
    let prompt : ℕ = estimated.tpm_cost - estimated.output_tokens in
    record {
      prompt_tokens = prompt;
      completion_tokens = forwarded_tokens;
      total_tokens = prompt + forwarded_tokens;
    }

abbrev pub settle_args : QuotaReservation → Usage → SettleArgs
settle_args r actual = record {
  key_month = r.month;
  request_id = r.request_id;
  actual_tpm = actual.total_tokens;
  actual_budget_micro = budget_micro actual.prompt_tokens actual.completion_tokens r.deployment;
  current_month = r.month;
}

-- one call of the settle script: whether it returned, whether it may be retried, and its effect
unfoldable pub call_settle : Link → SettleArgs → TenantQuota → Bool × Bool × TenantQuota
call_settle delivered args q = (true, false, (settle args q).1)
call_settle (redis_error ran) args q = (false, true, effect ran q (settle args q).1)
call_settle (timed_out ran) args q = (false, false, effect ran q (settle args q).1)

-- `_settle_with_retry`: whether it returned, and the effect
unfoldable pub settle_with_retry : Link → Link → SettleArgs → TenantQuota → Bool × TenantQuota
unfolding call_settle
settle_with_retry first second args q =
    let (returned, retried, q') = call_settle first args q in
    let (again, no_more, q'') = call_settle second args q' in
    if returned then (true, q') else if retried then (again, q'') else (false, q')

-- What settle does once the script is called: a failure is counted, and a success is learned from.
-- `learn` is `none` if the reads or the write of that fail, which is only logged, and else says whether
-- the read of the ratio reached Redis.
unfoldable pub finish_settle :
    Bool → Option Bool → QuotaReservation → Usage → QuotaService → QuotaService
finish_settle returned learn r actual s =
    if returned
    then record s {
      corrections = elim learn [
        | none ↦ s.corrections
        | some ratio_up ↦
            update_correction ratio_up r.tenant_id r.model r.estimated actual r.snapshot
              s.corrections
      ];
    }
    else record s {
      quota_settle_failed =
          insert r.tenant_id (get_or (lookup r.tenant_id s.quota_settle_failed) 0 + 1)
            s.quota_settle_failed;
    }

-- `QuotaService.settle`
unfoldable pub settle_reservation :
    Link
    → Link
    → Option Bool
    → QuotaReservation
    → Option Usage
    → ℕ
    → QuotaService
    → TenantQuota
    → QuotaService × TenantQuota
unfolding settle_with_retry finish_settle fallback_usage
settle_reservation first second learn r actual forwarded s q =
    let usage = get_or actual (fallback_usage r.estimated forwarded) in
    let (returned, q') = settle_with_retry first second (settle_args r usage) q in
    if r.redis_reserved then (finish_settle returned learn r usage s, q') else (s, q)

abbrev pub zero_usage : Usage
zero_usage = record { prompt_tokens = 0; completion_tokens = 0; total_tokens = 0 }

-- `refund_full`
unfoldable pub refund_full :
    Link
    → Link
    → Option Bool
    → QuotaReservation
    → QuotaService
    → TenantQuota
    → QuotaService × TenantQuota
unfolding settle_reservation
refund_full first second learn r s q =
    settle_reservation first second learn r (some zero_usage) 0 s q
