-- ===== src/Api/Ledger/Cost.antt =====
-- The cost in the ledger and the cost that the quota is charged.
use tide_gate.Prelude.{ℕ, ◌+◌, ◌≤◌, arith, count_eq, ceil_div}
use tide_gate.Core.{Usage}
use tide_gate.Config.{DeploymentConfig}
use tide_gate.Quota.Estimator.{budget_micro}
use tide_gate.Api.Ledger.{round_thousandth, usage_cost_microusd}

round_thousandth-near :
    (n : ℕ) → (round_thousandth n ≤ ceil_div n 1000) × (ceil_div n 1000 ≤ round_thousandth n + 1)
unfolding round_thousandth
round_thousandth-near n = ground arith

-- The ledger charges a request what the quota charges it, or a millionth of a dollar less.
pub usage_cost_microusd-near :
    (usage : Usage) (d : DeploymentConfig)
    → let charged = budget_micro usage.prompt_tokens usage.completion_tokens d in
      (usage_cost_microusd usage d ≤ charged) × (charged ≤ usage_cost_microusd usage d + 1)
unfolding usage_cost_microusd budget_micro
usage_cost_microusd-near usage d = round_thousandth-near _
