-- ===== src/Quota/Service.antt =====
-- quota/service.py: reservations and settlements over the scripts, whose calls may fail. The quota is
-- that of the tenant concerned; the clock and the month are arguments.
pub mod Settlement
pub mod Settle
pub mod Reserve
mod Tests
use tide_gate.Prelude.{
  ℕ, ◌+◌, ◌-◌, ◌*◌, ◌/◌, max, String, string_eq, Bool, true, false, Option, none, some,
  if◌then◌else◌, get_or, ceil_div,
}
use tide_gate.Prelude.Dict.{Dict, lookup, insert}
use tide_gate.Core.{GatewayError, gateway_error, UnifiedRequest, Usage, internal, quota_exceeded}
use tide_gate.Config.{
  DeploymentConfig, FailMode, GatewayConfig, QuotaPlanConfig, TenantConfig, fail_open, fail_closed,
}
use tide_gate.Quota.Estimator.{Correction, Estimate, budget_micro, update_correction}
use tide_gate.Quota.Local.{LocalFallbackLimiter, allow_local}
use tide_gate.Quota.Scripts.{
  TenantQuota, ReserveArgs, SettleArgs, Reply, Dim, admitted, rejected, rpm_dim, tpm_dim,
  concurrency_dim, budget_dim, check_and_reserve, settle,
}

pub record QuotaReservation : Type 0 where
  pub tenant_id : String
  pub request_id : String
  pub model : String
  pub deployment : DeploymentConfig
  pub estimated : Estimate
  pub snapshot : GatewayConfig
  pub month : String
  pub redis_reserved : Bool

-- `with_deployment`
abbrev pub with_deployment : QuotaReservation → DeploymentConfig → QuotaReservation
with_deployment r d = record r { deployment = d }

-- A failed call may have run its script. A `redis.RedisError` is retried by `_settle_with_retry`, a
-- timeout or a `ConnectionError` is not.
pub data Link : Type 0 where
  delivered : Link
  redis_error : Bool → Link
  timed_out : Bool → Link

-- `quota_settle_failed` is the metric, by tenant; the logs are left out.
pub record QuotaService : Type 0 where
  pub fallback : LocalFallbackLimiter
  pub fallback_active : Bool
  pub quota_settle_failed : Dict String ℕ
  pub corrections : Dict String Correction

-- What `reserve` does: a `KeyError` is raised for a plan that is not configured.
pub data ReserveOutcome : Type 0 where
  holds : QuotaReservation → ReserveOutcome
  raises : GatewayError → ReserveOutcome
  plan_missing : ReserveOutcome

-- the arguments of the script
abbrev pub reserve_args :
    QuotaPlanConfig → GatewayConfig → UnifiedRequest → Estimate → ℕ → String → ReserveArgs
reserve_args plan snapshot req estimated now_ms month = record {
  now_ms = now_ms;
  request_id = req.request_id;
  resv_deadline_ms = now_ms + snapshot.sweeper.reservation_ttl_s / 1000;
  rpm_rate = plan.rpm;
  rpm_cap = plan.rpm;
  tpm_rate = plan.tpm;
  tpm_cap = plan.tpm;
  tpm_cost = estimated.tpm_cost;
  conc_cap = plan.concurrent_streams;
  budget_cost_micro = estimated.budget_cost_micro;
  budget_init_micro = plan.monthly_budget_usd;
  month = month;
}

abbrev pub exceeded : Dim → String
exceeded rpm_dim = "rpm_exceeded"
exceeded tpm_dim = "tpm_exceeded"
exceeded concurrency_dim = "concurrency_exceeded"
exceeded budget_dim = "budget_exceeded"

abbrev pub over_quota : String → ℕ → String → GatewayError
over_quota message retry_after_s code = record (gateway_error message quota_exceeded) {
  retry_after_s = some retry_after_s;
  code = some code;
}

abbrev pub backend_unavailable : GatewayError
backend_unavailable = record (gateway_error "quota backend unavailable" internal) {
  http_status = some 503;
}

abbrev pub reservation :
    TenantConfig
    → UnifiedRequest
    → DeploymentConfig
    → Estimate
    → GatewayConfig
    → String
    → Bool
    → QuotaReservation
reservation tenant req deployment estimated snapshot month in_redis = record {
  tenant_id = tenant.id;
  request_id = req.request_id;
  model = req.model;
  deployment = deployment;
  estimated = estimated;
  snapshot = snapshot;
  month = month;
  redis_reserved = in_redis;
}

abbrev pub is_open : FailMode → Bool
is_open fail_open = true
is_open fail_closed = false

-- What the caller and the instance see of the outside: the number of instances and the monotonic clock
-- of the local limiter, the clock and the month.
pub record Moment : Type 0 where
  pub instances : ℕ
  pub monotonic : ℕ
  pub now_ms : ℕ
  pub month : String

-- `_reserve_fallback`, for a plan that is known
unfoldable pub reserve_fallback :
    Moment
    → QuotaPlanConfig
    → TenantConfig
    → QuotaReservation
    → QuotaService
    → ReserveOutcome × QuotaService
reserve_fallback at plan tenant local s =
    if is_open plan.fail_mode
    then (let (allowed, fallback) =
          allow_local at.instances at.monotonic tenant.id plan local.estimated.tpm_cost
            s.fallback in
        let s' = record s { fallback = fallback; fallback_active = true } in
        (
          if allowed
              then holds local
              else raises (over_quota "local quota exceeded" 1_000_000 "tpm_exceeded"),
          s',
        ))
    else (raises backend_unavailable, s)

-- what `reserve` makes of the script's reply
unfoldable pub read_reply : QuotaReservation → Reply → ReserveOutcome
read_reply r admitted = holds r
read_reply r (rejected dim ms) =
    raises (over_quota "quota exceeded" (max 1 (ceil_div ms 1000) * 1_000_000) (exceeded dim))

-- what a call that may fail leaves of the script's effect
abbrev pub effect : Bool → TenantQuota → TenantQuota → TenantQuota
effect ran before after = if ran then after else before

unfoldable pub reserve_with :
    Moment
    → Link
    → QuotaPlanConfig
    → TenantConfig
    → QuotaReservation
    → ReserveArgs
    → QuotaService
    → TenantQuota
    → ReserveOutcome × QuotaService × TenantQuota
unfolding reserve_fallback read_reply
reserve_with at link plan tenant r args s q =
    let (reply, q') = check_and_reserve args q in
    let (fell, s') = reserve_fallback at plan tenant (record r { redis_reserved = false }) s in
    elim link [
      | delivered ↦ (read_reply r reply, record s { fallback_active = false }, q')
      | redis_error ran ↦ (fell, s', effect ran q q')
      | timed_out ran ↦ (fell, s', effect ran q q')
    ]

-- `QuotaService.reserve`, with the estimate that the estimator made
unfoldable pub reserve :
    Moment
    → Link
    → TenantConfig
    → UnifiedRequest
    → DeploymentConfig
    → Estimate
    → GatewayConfig
    → QuotaService
    → TenantQuota
    → ReserveOutcome × QuotaService × TenantQuota
unfolding reserve_with
reserve at link tenant req deployment estimated snapshot s q =
    elim (lookup tenant.plan snapshot.quota_plans) [
      | none ↦ (plan_missing, s, q)
      | some plan ↦
          reserve_with at link plan tenant
            (reservation tenant req deployment estimated snapshot at.month true)
            (reserve_args plan snapshot req estimated at.now_ms at.month) s q
    ]
