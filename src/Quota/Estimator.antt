-- ===== src/Quota/Estimator.antt =====
-- quota/estimator.py: what a request will cost, learned from what earlier ones cost. The ratio and the
-- learned output are in millionths; a product rounds up where the source calls `math.ceil`, and a
-- quotient of floats rounds down. The tokenizer is the argument `count_tokens`.
pub mod Bounds
mod Tests
use tide_gate.Prelude.{
  ℕ, ◌+◌, ◌-◌, ◌*◌, ◌/◌, min, max, String, string_eq, Bool, true, false, Option, none, some, List,
  [], ◌∷◌, if◌then◌else◌, get_or, ceil_div,
}
use Prim.Native.String.{◌++◌}
use tide_gate.Prelude.Dict.{Dict, lookup, insert}
use tide_gate.Core.{ChatMessage, UnifiedRequest, Usage}
use tide_gate.Config.{DeploymentConfig, GatewayConfig, Ratio}

pub record Estimate : Type 0 where
  pub prompt_tokens : ℕ
  pub output_tokens : ℕ
  pub tpm_cost : ℕ
  pub budget_cost_micro : ℕ

-- A hash of Redis; a field that is not there is `none`.
pub record Correction : Type 0 where
  pub ewma_ratio : Option ℕ
  pub output_ewma : Option ℕ

abbrev pub no_correction : Correction
no_correction = record { ewma_ratio = none; output_ewma = none }

-- `correction_key`: an f-string of the tenant and the model
unfoldable pub correction_key : String → String → String
correction_key tenant model = "corr:" ++ tenant ++ ":" ++ model

unfoldable pub correction_for : Dict String Correction → String → Correction
correction_for store key = get_or (lookup key store) no_correction

-- `_safe_hget`: a read that fails returns None
unfoldable pub safe_hget : Bool → Option ℕ → Option ℕ
safe_hget up field = if up then field else none

-- `"\n".join(message.content or "" for message in messages)`
unfoldable pub prompt_text : List ChatMessage → String
prompt_text [] = ""
prompt_text (m ∷ []) = get_or m.content ""
prompt_text (m ∷ n ∷ ms) = get_or m.content "" ++ "\n" ++ prompt_text (n ∷ ms)

-- `_output_estimate`, from what was read
unfoldable pub output_estimate : UnifiedRequest → GatewayConfig → Option ℕ → ℕ
output_estimate req snapshot learned =
    let bounded : ℕ =
      ceil_div (get_or learned (snapshot.quota_estimator.output_p95_fallback * 1_000_000))
        1_000_000 in
    max 1 (elim req.max_tokens [ none ↦ bounded | some m ↦ min m bounded ])

-- `_budget_micro`, and `_actual_budget_micro` of quota/service.py
unfoldable pub budget_micro : ℕ → ℕ → DeploymentConfig → ℕ
budget_micro prompt_tokens output_tokens d =
    ceil_div (prompt_tokens * d.price_per_1k_input_usd + output_tokens * d.price_per_1k_output_usd)
      1000

-- `QuotaEstimator.estimate`; the two Booleans say which of its reads reach Redis.
unfoldable pub estimate :
    (String → ℕ)
    → Bool
    → Bool
    → Dict String Correction
    → UnifiedRequest
    → DeploymentConfig
    → GatewayConfig
    → Estimate
unfolding output_estimate budget_micro safe_hget correction_for prompt_text correction_key
estimate count_tokens output_up ratio_up store req deployment snapshot =
    let learned = correction_for store (correction_key req.tenant_id req.model) in
    let prompt_tokens : ℕ = max 1 (count_tokens (prompt_text req.messages)) in
    let output_est : ℕ = output_estimate req snapshot (safe_hget output_up learned.output_ewma) in
    let ratio : ℕ = get_or (safe_hget ratio_up learned.ewma_ratio) 1_000_000 in
    record {
      prompt_tokens = prompt_tokens;
      output_tokens = output_est;
      tpm_cost = max 1 (ceil_div ((prompt_tokens + output_est) * ratio) 1_000_000);
      budget_cost_micro = budget_micro prompt_tokens output_est deployment;
    }

-- `alpha * sample + (1 - alpha) * current`, over the denominator of `alpha`
unfoldable pub blend : Ratio → ℕ → ℕ → ℕ
blend alpha sample current = (alpha.num * sample + (alpha.den - alpha.num) * current) / alpha.den

-- `QuotaEstimator.update_correction` when its second read and its write reach Redis; `ratio_up` says
-- whether its first read does.
unfoldable pub update_correction :
    Bool
    → String
    → String
    → Estimate
    → Usage
    → GatewayConfig
    → Dict String Correction
    → Dict String Correction
unfolding safe_hget correction_for blend correction_key
update_correction ratio_up tenant_id model estimated actual snapshot store =
    let key = correction_key tenant_id model in
    let held = correction_for store key in
    let alpha = snapshot.quota_estimator.correction_ewma_alpha in
    let current_ratio : ℕ = get_or (safe_hget ratio_up held.ewma_ratio) 1_000_000 in
    let sample_ratio : ℕ = max 1 actual.total_tokens * 1_000_000 / max 1 estimated.tpm_cost in
    insert key
      (record {
        ewma_ratio = some (blend alpha sample_ratio current_ratio);
        output_ewma =
            some (blend alpha (actual.completion_tokens * 1_000_000) (get_or held.output_ewma 0));
      })
      store
