-- ===== src/Api/Attempts.antt =====
-- api/routes.py: the choice of the next attempt on the ladder, and what an attempt's error does to the
-- routing state. The provider's client, which is looked up by name, is not part of an attempt here.
pub mod Errors
pub mod Order
mod Tests
use tide_gate.Prelude.{
  ℕ, suc, ◌+◌, Bool, true, false, Option, none, some, List, [], ◌∷◌, drop, if◌then◌else◌, ◌==◌,
  count_eq,
}
use tide_gate.Core.{
  ErrorCategory, GatewayError, Result, ok, err, retryable_upstream, rate_limited_upstream,
  content_blocked, timeout_ttft, timeout_stall, timeout_total, quota_exceeded, client_error,
  internal,
}
use tide_gate.Config.{DeploymentConfig, P2CWeights, RoutingConfig}
use tide_gate.Routing.Ladder.{RouteLevel}
use tide_gate.Routing.Stats.{Key, RoutingState, record_abort, record_finish, record_rate_limit}
use tide_gate.Routing.Selector.{no_available_deployment, pick}

-- `_PickedAttempt` and `_PickResult`
pub record PickResult : Type 0 where
  pub deployment : DeploymentConfig
  pub level : RouteLevel
  pub level_index : ℕ

-- what a level makes of the selection; `rest` is the search on the levels behind it
abbrev pub or_next :
    ℕ
    → RouteLevel
    → Result DeploymentConfig
    → Result PickResult × RoutingState
    → RoutingState
    → Result PickResult × RoutingState
or_next index level (ok d) rest st =
    (ok (record { deployment = d; level = level; level_index = index }), st)
or_next index level (err e) rest st = rest

-- the loop of `_pick_next_attempt`, over the levels from `index` on
unfoldable pub pick_levels :
    P2CWeights
    → (List DeploymentConfig → DeploymentConfig × DeploymentConfig)
    → List Key
    → ℕ
    → ℕ
    → List RouteLevel
    → RoutingState
    → Result PickResult × RoutingState
pick_levels weights sample exclude now_s index [] st = (err no_available_deployment, st)
pick_levels weights sample exclude now_s index (level ∷ levels) st =
    let (picked, st') = pick weights sample level.group.deployments exclude now_s st in
    let rest = pick_levels weights sample exclude now_s (suc index) levels st' in
    or_next index level picked rest st'

-- `_pick_next_attempt`
unfoldable pub pick_next_attempt :
    P2CWeights
    → (List DeploymentConfig → DeploymentConfig × DeploymentConfig)
    → List Key
    → ℕ
    → ℕ
    → List RouteLevel
    → RoutingState
    → Result PickResult × RoutingState
unfolding pick_levels
pick_next_attempt weights sample exclude now_s level_index levels st =
    pick_levels weights sample exclude now_s level_index (drop level_index levels) st

-- `exc.retry_after_s or open_cooldown_s`: also zero is replaced
unfoldable pub retry_after_or : Option ℕ → ℕ → ℕ
retry_after_or none cooldown = cooldown
retry_after_or (some t) cooldown = if t == 0 then cooldown else t

-- `_record_route_error`; `routing` is the routing section of the current configuration
unfoldable pub record_route_error :
    RoutingConfig → Key → GatewayError → Option ℕ → ℕ → RoutingState → RoutingState
unfolding retry_after_or
record_route_error routing k exc ttft_s now_s st = elim exc.category [
  | rate_limited_upstream ↦
      record_rate_limit k (retry_after_or exc.retry_after_s routing.breaker.open_cooldown_s) now_s
        st
  | retryable_upstream ↦ record_finish k false ttft_s now_s st
  | timeout_ttft ↦ record_finish k false ttft_s now_s st
  | timeout_stall ↦ record_finish k false ttft_s now_s st
  | timeout_total ↦ record_finish k false ttft_s now_s st
  | content_blocked ↦ record_abort k st
  | quota_exceeded ↦ record_abort k st
  | client_error ↦ record_abort k st
  | internal ↦ record_abort k st
]
