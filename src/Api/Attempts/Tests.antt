-- ===== src/Api/Attempts/Tests.antt =====
-- The choice of the next attempt and the end of a failed one, each theorem at an input.
use tide_gate.Prelude.{
  ◌≡◌, ◌≢◌, ◌==◌, ap, false, ◌≤◌, refl, true, inl, inr, string_eq, pair_eq, List, [], ◌∷◌, drop,
  none, some,
}
use tide_gate.Prelude.Dict.{lookup, insert}
use tide_gate.Core.{GatewayError, gateway_error, ok, rate_limited_upstream}
use tide_gate.Config.{DeploymentConfig}
use tide_gate.Config.Samples.{
  chat_large, chat_small, large_a, large_b, sample_routing, sample_weights, deployment_of,
}
use tide_gate.Routing.Breaker.{allow, can_try}
use tide_gate.Routing.Ladder.{RouteLevel}
use tide_gate.Routing.Stats.{
  Key, RoutingState, record_start, refresh_breaker, stats_for, breaker_for,
}
use tide_gate.Routing.Selector.{better, candidate_allowed, is_half_open, pick, try_breaker}
use tide_gate.Routing.Selector.Candidates.{eligible}
use tide_gate.Routing.Selector.Choice.{Among, Samples}
use tide_gate.Api.Attempts.{PickResult, record_route_error, pick_levels, pick_next_attempt}
use tide_gate.Api.Attempts.Errors.{Ended, record_route_error-record_start}
use tide_gate.Api.Attempts.Order.{pick_next_attempt-OnLadder}

-- `random.sample`, once
abbrev first_two : List DeploymentConfig → DeploymentConfig × DeploymentConfig
first_two [] = (large_a, large_b)
first_two (d ∷ []) = (d, d)
first_two (d ∷ e ∷ ds) = (d, e)

first_two-Samples : Samples first_two
first_two-Samples a b rest = (inl refl, inr (inl refl))

abbrev state : RoutingState
state = record { settings = sample_routing; stats = []; breakers = [] }

abbrev ladder : List RouteLevel
ladder =
    record { model_group_name = "chat-large"; group = chat_large; degraded = none }
    ∷ record {
      model_group_name = "chat-small";
      group = chat_small;
      degraded = some "smaller-model";
    }
    ∷ []

abbrev small_attempt : PickResult
small_attempt = record {
  deployment = deployment_of "mock-a" "small" 500;
  level = record {
    model_group_name = "chat-small";
    group = chat_small;
    degraded = some "smaller-model";
  };
  level_index = 1;
}

-- both deployments of the first level have been tried
small_run :
    (pick_next_attempt sample_weights first_two
      (("mock-a", "large") ∷ ("mock-b", "large") ∷ [])
      5
      0
      ladder
      state).0
    ≡ ok small_attempt
unfolding pick_next_attempt pick_levels pick lookup candidate_allowed stats_for try_breaker can_try
    breaker_for refresh_breaker insert is_half_open better
small_run = refl

pick_next_attempt-OnLadder_example :
    ((rest : List RouteLevel) × (0 ≤ 1) × (drop 1 ladder ≡ small_attempt.level ∷ rest))
    × Among small_attempt.deployment chat_small.deployments
    × (eligible (("mock-a", "large") ∷ ("mock-b", "large") ∷ []) 5 state small_attempt.deployment
        ≡ true)
pick_next_attempt-OnLadder_example =
    pick_next_attempt-OnLadder sample_weights first_two first_two-Samples
      (("mock-a", "large") ∷ ("mock-b", "large") ∷ []) 5 0 ladder state small_attempt small_run

abbrev limited : GatewayError
limited = record (gateway_error "slow down" rate_limited_upstream) { retry_after_s = some 30 }

abbrev key : Key
key = ("mock-a", "large")

abbrev other : Key
other = ("mock-b", "large")

is_other : key ≢ other
is_other h = let same : false ≡ true = ap (λ (k : Key). k == other) h in cc

record_route_error-record_start_example :
    let started = (record_start key 5 state).1 in
    Ended sample_routing key limited none 7 state started other
      (record_route_error sample_routing key limited none 7 started)
unfolding record_start allow lookup insert breaker_for
record_route_error-record_start_example =
    record_route_error-record_start sample_routing key limited none 7 5 other state is_other refl
