-- ===== src/Api/Ledger.antt =====
-- api/routes.py: what a request and its attempts cost, the records of the ledgers, and the settlement
-- of a request's quota, which happens once. Costs are in millionths of a dollar.
pub mod Cost
pub mod Once
pub mod Record
mod Tests
use tide_gate.Prelude.{
  ℕ, suc, ◌+◌, ◌*◌, ◌/◌, ◌%◌, String, string_eq, Bool, true, false, ◌&&◌, Option, none, some, List,
  [], ◌∷◌, ltb, if◌then◌else◌, ◌==◌, count_eq, get_or,
}
use tide_gate.Prelude.Dict.{Dict}
use tide_gate.Core.{
  ErrorCategory, GatewayError, UnifiedRequest, Usage, retryable_upstream, rate_limited_upstream,
  content_blocked, timeout_ttft, timeout_stall, timeout_total, quota_exceeded, client_error,
  internal,
}
use tide_gate.Config.{DeploymentConfig, GatewayConfig, ModelGroupConfig}
use tide_gate.Quota.Scripts.{TenantQuota}
use tide_gate.Quota.Service.{Link, QuotaReservation, QuotaService, with_deployment}
use tide_gate.Quota.Service.Settlement.{refund_full, settle_reservation}

-- `round(n / 1000)`: to the nearest, and in the middle to the even
unfoldable pub round_thousandth : ℕ → ℕ
round_thousandth n =
    let q : ℕ = n / 1000 in
    let r : ℕ = n % 1000 in
    if ltb r 500 then q else if ltb 500 r then q + 1 else if q % 2 == 0 then q else q + 1

-- `_usage_cost_microusd`
unfoldable pub usage_cost_microusd : Usage → DeploymentConfig → ℕ
unfolding round_thousandth
usage_cost_microusd usage d = round_thousandth (
    usage.prompt_tokens * d.price_per_1k_input_usd
    + usage.completion_tokens * d.price_per_1k_output_usd)

-- `_prompt_cost_microusd`
unfoldable pub prompt_cost_microusd : ℕ → DeploymentConfig → ℕ
unfolding round_thousandth
prompt_cost_microusd prompt_tokens d = round_thousandth (prompt_tokens * d.price_per_1k_input_usd)

-- `ErrorCategory.value`
unfoldable pub category_value : ErrorCategory → String
category_value retryable_upstream = "retryable_upstream"
category_value rate_limited_upstream = "rate_limited"
category_value content_blocked = "content_blocked"
category_value timeout_ttft = "timeout_ttft"
category_value timeout_stall = "timeout_stall"
category_value timeout_total = "timeout_total"
category_value quota_exceeded = "quota_exceeded"
category_value client_error = "client_error"
category_value internal = "internal"

unfoldable pub is_timeout_ttft : ErrorCategory → Bool
is_timeout_ttft timeout_ttft = true
is_timeout_ttft _ = false

pub record AttemptLedgerRecord : Type 0 where
  pub request_id : String
  pub attempt_seq : ℕ
  pub tenant_id : String
  pub kind : String
  pub outcome : String
  pub provider : Option String
  pub upstream_model : Option String
  pub prompt_tokens : Option ℕ
  pub completion_tokens : Option ℕ
  pub usage_source : String
  pub cost_tenant_microusd : ℕ
  pub cost_platform_microusd : ℕ
  pub bearer_reason : Option String
  pub error_category : Option String

-- `_delivered_attempt_record`
unfoldable pub delivered_attempt_record :
    UnifiedRequest → Usage → ℕ → String → DeploymentConfig → AttemptLedgerRecord
unfolding usage_cost_microusd
delivered_attempt_record unified usage attempt_seq kind d = record {
  request_id = unified.request_id;
  attempt_seq = attempt_seq;
  tenant_id = unified.tenant_id;
  kind = kind;
  outcome = "delivered";
  provider = some d.provider;
  upstream_model = some d.upstream_model;
  prompt_tokens = some usage.prompt_tokens;
  completion_tokens = some usage.completion_tokens;
  usage_source = "actual";
  cost_tenant_microusd = usage_cost_microusd usage d;
  cost_platform_microusd = 0;
  bearer_reason = none;
  error_category = none;
}

-- `_estimated_platform_attempt_record`; `prompt_tokens` is the settlement's estimate
unfoldable pub estimated_platform_attempt_record :
    UnifiedRequest
    → ℕ
    → ℕ
    → String
    → String
    → DeploymentConfig
    → String
    → String
    → Option String
    → AttemptLedgerRecord
unfolding prompt_cost_microusd
estimated_platform_attempt_record unified prompt_tokens attempt_seq kind outcome d usage_source
      bearer_reason error_category =
    record {
      request_id = unified.request_id;
      attempt_seq = attempt_seq;
      tenant_id = unified.tenant_id;
      kind = kind;
      outcome = outcome;
      provider = some d.provider;
      upstream_model = some d.upstream_model;
      prompt_tokens = some prompt_tokens;
      completion_tokens = some 0;
      usage_source = usage_source;
      cost_tenant_microusd = 0;
      cost_platform_microusd = prompt_cost_microusd prompt_tokens d;
      bearer_reason = some bearer_reason;
      error_category = error_category;
    }

-- `_failed_attempt_record`
unfoldable pub failed_attempt_record :
    UnifiedRequest → ℕ → ℕ → String → DeploymentConfig → GatewayError → AttemptLedgerRecord
unfolding estimated_platform_attempt_record category_value is_timeout_ttft
failed_attempt_record unified prompt_tokens attempt_seq kind d exc =
    if is_timeout_ttft exc.category
    then estimated_platform_attempt_record unified prompt_tokens attempt_seq kind "failed" d
        "estimated" "retry_failed" (some (category_value exc.category))
    else record {
      request_id = unified.request_id;
      attempt_seq = attempt_seq;
      tenant_id = unified.tenant_id;
      kind = kind;
      outcome = "failed";
      provider = some d.provider;
      upstream_model = some d.upstream_model;
      prompt_tokens = some 0;
      completion_tokens = some 0;
      usage_source = "actual";
      cost_tenant_microusd = 0;
      cost_platform_microusd = 0;
      bearer_reason = none;
      error_category = some (category_value exc.category);
    }

-- `_QuotaSettlement`
pub record QuotaSettlement : Type 0 where
  pub reservation : QuotaReservation
  pub settled : Bool
  pub captured : Option Usage

unfoldable pub capture_usage : Option Usage → QuotaSettlement → QuotaSettlement
capture_usage usage s = record s { captured = usage }

unfoldable pub use_deployment : DeploymentConfig → QuotaSettlement → QuotaSettlement
use_deployment d s = record s { reservation = with_deployment s.reservation d }

-- `usage or self._usage`
abbrev pub final_usage : Option Usage → Option Usage → Option Usage
final_usage (some usage) captured = some usage
final_usage none captured = captured

-- What a settlement reaches: the settlement itself, the quota service and the tenant's keys.
abbrev pub World : Type 0
World = QuotaSettlement × QuotaService × TenantQuota

-- `settle_once`; the links are those of the script's calls
unfoldable pub settle_once_with : Link → Link → Option Bool → Option Usage → ℕ → World → World
settle_once_with first second learn usage forwarded (p, s, q) =
    if p.settled
    then (p, s, q)
    else (let (s', q') =
          settle_reservation first second learn p.reservation (final_usage usage p.captured)
            forwarded s q in
        (record p { settled = true }, s', q'))

-- `_QuotaSettlement.refund_full`
unfoldable pub refund_once_with : Link → Link → Option Bool → World → World
refund_once_with first second learn (p, s, q) =
    if p.settled
    then (p, s, q)
    else (let (s', q') = refund_full first second learn p.reservation s q in
        (record p { settled = true }, s', q'))
