-- ===== src/Routing/Hedge.antt =====
-- routing/hedge.py: the budget of the hedged requests, over a sliding window.
pub mod Window
mod Tests
use tide_gate.Prelude.{
  ℕ, ◌+◌, ◌*◌, ◌/◌, max, Bool, true, false, List, [], ◌∷◌, ◌++◌, ltb, if◌then◌else◌, length,
}
use tide_gate.Config.{HedgingConfig, DeploymentConfig}
use tide_gate.Routing.Stats.{RoutingState, stats_for, deployment_key}

-- The deques stand oldest first.
pub record HedgeBudget : Type 0 where
  pub window_s : ℕ
  pub requests : List ℕ
  pub hedges : List ℕ

-- `while times and times[0] < now - window: times.popleft()`
unfoldable pub drop_old : ℕ → ℕ → List ℕ → List ℕ
drop_old window_s now_s [] = []
drop_old window_s now_s (t ∷ ts) =
    if ltb (t + window_s) now_s then drop_old window_s now_s ts else t ∷ ts

-- `HedgeBudget._prune`
unfoldable pub prune : ℕ → HedgeBudget → HedgeBudget
prune now_s b = record b {
  requests = drop_old b.window_s now_s b.requests;
  hedges = drop_old b.window_s now_s b.hedges;
}

unfoldable pub record_request : ℕ → HedgeBudget → HedgeBudget
unfolding prune
record_request now_s b =
    let b' = prune now_s b in record b' { requests = b'.requests ++ now_s ∷ [] }

-- `(len(hedges) + 1) / requests > max_hedge_ratio`, multiplied out
unfoldable pub over_budget : HedgingConfig → HedgeBudget → Bool
over_budget config b =
    ltb (config.max_hedge_ratio.num * max 1 (length b.requests))
      ((length b.hedges + 1) * config.max_hedge_ratio.den)

-- `HedgeBudget.allow`
unfoldable pub allow_hedge : HedgingConfig → ℕ → HedgeBudget → Bool × HedgeBudget
unfolding prune over_budget
allow_hedge config now_s b =
    let b' = prune now_s b in
    if over_budget config b'
    then (false, b')
    else (true, record b' { hedges = b'.hedges ++ now_s ∷ [] })

-- `max(trigger_floor_s, ewma * 1.5)`
unfoldable pub trigger_delay_s : DeploymentConfig → RoutingState → HedgingConfig → ℕ
unfolding stats_for
trigger_delay_s deployment state config =
    max config.trigger_floor_s ((stats_for state (deployment_key deployment)).ewma_ttft_s * 3 / 2)
