-- ===== src/Quota/Service/Tests.antt =====
-- The quota service at an input.
use tide_gate.Prelude.{◌≡◌, refl, string_eq, true, false, none, []}
use tide_gate.Prelude.Dict.{lookup, insert}
use tide_gate.Config.Samples.{sample_request, large_a, sample_plan, sample_settings, sample_tenant}
use tide_gate.Quota.Estimator.{Estimate}
use tide_gate.Quota.Local.{allow_local, bucket_for, spend, refill_bucket as refill_local}
use tide_gate.Quota.Scripts.{
  ReserveArgs, refill_bucket, refilled, set_if_absent, admitted, empty_quota, check_and_reserve,
}
use tide_gate.Quota.Service.{
  Moment, QuotaReservation, QuotaService, delivered, timed_out, holds, reserve,
}
use tide_gate.Quota.Service.Settlement.{settle_reservation}
use tide_gate.Quota.Service.Reserve.{asked, wanted, lost_answer_leaks}

abbrev cost : Estimate
cost = record { prompt_tokens = 5; output_tokens = 20; tpm_cost = 25; budget_cost_micro = 125 }

abbrev service : QuotaService
service = record {
  fallback = record { rpm = []; tpm = [] };
  fallback_active = false;
  quota_settle_failed = [];
  corrections = [];
}

abbrev moment : Moment
moment = record { instances = 1; monotonic = 10; now_ms = 1000; month = "2026-05" }

abbrev request_args : ReserveArgs
request_args = asked moment sample_tenant sample_request large_a cost sample_settings sample_plan

abbrev held : QuotaReservation
held = wanted moment sample_tenant sample_request large_a cost sample_settings sample_plan true

abbrev unheld : QuotaReservation
unheld = wanted moment sample_tenant sample_request large_a cost sample_settings sample_plan false

admits : (check_and_reserve request_args empty_quota).0 ≡ admitted
unfolding check_and_reserve refilled refill_bucket set_if_absent lookup insert
admits = refl

allows : (allow_local 1 10 "tenant-a" sample_plan 25 service.fallback).0 ≡ true
unfolding allow_local bucket_for refill_local spend lookup insert
allows = refl

lost_answer_leaks_example :
    let (outcome, s', q') =
      reserve moment
        (timed_out true)
        sample_tenant
        sample_request
        large_a
        cost
        sample_settings
        service
        empty_quota in
    let q'' = (settle_reservation delivered delivered none unheld none 7 s' q').1 in
    (outcome ≡ holds unheld)
    × (q' ≡ (check_and_reserve request_args empty_quota).1)
    × (q'' ≡ q')
    × (q''.conc ≡ 1)
unfolding lookup
lost_answer_leaks_example =
    lost_answer_leaks moment sample_tenant sample_request large_a cost sample_settings sample_plan
      (timed_out true) delivered delivered none none 7 service empty_quota refl refl refl allows
      admits
