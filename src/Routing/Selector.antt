-- ===== src/Routing/Selector.antt =====
-- routing/selector.py: power-of-two-choices selection. `random.sample(candidates, 2)` is the argument
-- `sample`; scores are in millionths, with divisions rounded down.
pub mod Candidates
pub mod Choice
mod Tests
use tide_gate.Prelude.{
  ℕ, suc, ◌+◌, ◌-◌, ◌*◌, ◌/◌, min, max, ◌==◌, String, string_eq, pair_eq, Bool, true, false, not,
  ◌&&◌, ◌||◌, List, [], ◌∷◌, ltb, leb, count_eq, if◌then◌else◌, contains, Option, some, none,
}
use tide_gate.Prelude.Int.{ℤ, pos, leb_ℤ}
use tide_gate.Core.{Result, ok, err, GatewayError, gateway_error, retryable_upstream}
use tide_gate.Config.{DeploymentConfig, P2CWeights}
use tide_gate.Routing.Breaker.{BreakerState, closed, open_state, half_open, can_try}
use tide_gate.Routing.Stats.{
  Key, RoutingState, DeploymentStats, deployment_key, stats_for, breaker_for, set_breaker,
  refresh_breaker,
}

abbrev pub no_available_deployment : GatewayError
no_available_deployment = gateway_error "no deployment available" retryable_upstream

-- `breaker_for(deployment).can_try(now)`
unfoldable pub try_breaker : Key → ℕ → RoutingState → Bool × RoutingState
try_breaker k now_s st =
    let (room, b) = can_try (breaker_for st k) now_s in (room, set_breaker st k b)

-- `P2CSelector._candidate_allowed`
unfoldable pub candidate_allowed :
    List Key → ℕ → DeploymentConfig → RoutingState → Bool × RoutingState
candidate_allowed exclude now_s d st =
    if leb_ℤ d.weight (pos 0) || contains (deployment_key d) exclude
    then (false, st)
    else if ltb now_s (stats_for st (deployment_key d)).cooldown_until_s
    then (false, st)
    else try_breaker (deployment_key d) now_s (refresh_breaker (deployment_key d) now_s st).1

-- the list of the candidates
unfoldable pub candidates :
    List Key → ℕ → List DeploymentConfig → RoutingState → List DeploymentConfig × RoutingState
candidates exclude now_s [] st = ([], st)
candidates exclude now_s (d ∷ ds) st =
    let (allowed, st') = candidate_allowed exclude now_s d st in
    let (rest, st'') = candidates exclude now_s ds st' in (if allowed then d ∷ rest else rest, st'')

unfoldable pub is_half_open : BreakerState → Bool
is_half_open half_open = true
is_half_open closed = false
is_half_open open_state = false

-- the list of the candidates whose breaker is half open
unfoldable pub half_open_among :
    ℕ → List DeploymentConfig → RoutingState → List DeploymentConfig × RoutingState
half_open_among now_s [] st = ([], st)
half_open_among now_s (d ∷ ds) st =
    let (state, st') = refresh_breaker (deployment_key d) now_s st in
    let (rest, st'') = half_open_among now_s ds st' in
    (if is_half_open state then d ∷ rest else rest, st'')

pub data Field : Type 0 where
  ttft_field inflight_field price_field : Field

unfoldable pub value_of : RoutingState → DeploymentConfig → Field → ℕ
value_of st d ttft_field = (stats_for st (deployment_key d)).ewma_ttft_s
value_of st d inflight_field = (stats_for st (deployment_key d)).inflight
value_of st d price_field = d.price_per_1k_input_usd + d.price_per_1k_output_usd

-- `_norm` of `d` among itself and `other`, the pair that is scored
unfoldable pub norm : RoutingState → DeploymentConfig → DeploymentConfig → Field → ℕ
unfolding value_of
norm st d other field =
    let value = value_of st d field in
    let low = min value (value_of st other field) in
    let high = max value (value_of st other field) in
    if high == low then 0 else (value - low) * 1_000_000 / (high - low)

unfoldable pub score : P2CWeights → RoutingState → DeploymentConfig → DeploymentConfig → ℕ
unfolding norm
score weights st d other =
    weights.ttft * norm st d other ttft_field
    + weights.error_rate * (stats_for st (deployment_key d)).ewma_error_rate
    + weights.inflight * norm st d other inflight_field
    + weights.price * norm st d other price_field

-- `sorted(pair, key=score)[0]`: on equal scores the first of the pair
unfoldable pub better :
    P2CWeights → RoutingState → DeploymentConfig × DeploymentConfig → DeploymentConfig
unfolding score
better weights st (a, b) = if ltb (score weights st b a) (score weights st a b) then b else a

-- the choice among the candidates, of which `probes` are half open
unfoldable pub choose :
    P2CWeights
    → (List DeploymentConfig → DeploymentConfig × DeploymentConfig)
    → RoutingState
    → List DeploymentConfig
    → List DeploymentConfig
    → Result DeploymentConfig
choose weights sample st [] probes = err no_available_deployment
choose weights sample st (d ∷ ds) (p ∷ ps) = ok p
choose weights sample st (d ∷ []) [] = ok d
choose weights sample st (d ∷ e ∷ ds) [] = ok (better weights st (sample (d ∷ e ∷ ds)))

-- `P2CSelector.pick`
unfoldable pub pick :
    P2CWeights
    → (List DeploymentConfig → DeploymentConfig × DeploymentConfig)
    → List DeploymentConfig
    → List Key
    → ℕ
    → RoutingState
    → Result DeploymentConfig × RoutingState
unfolding candidates half_open_among choose
pick weights sample deployments exclude now_s st =
    let (found, st') = candidates exclude now_s deployments st in
    let (probes, st'') = half_open_among now_s found st' in
    (choose weights sample st'' found probes, st'')
