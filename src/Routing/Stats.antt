-- ===== src/Routing/Stats.antt =====
-- routing/stats.py: the local statistics and the breaker of each deployment. Averages are fixed
-- point, in microseconds and in millionths; a division rounds down where a float rounds to nearest.
-- Metrics are not modelled: a transition of a breaker is seen in its state.
pub mod Access
pub mod Average
pub mod Inflight
pub mod Lockout
mod Tests
use tide_gate.Prelude.{
  ℕ, ◌+◌, ◌-◌, ◌*◌, ◌/◌, max, String, string_eq, pair_eq, Bool, true, false, Option, none, some,
  List, [], ◌∷◌, ltb, if◌then◌else◌, get_or,
}
use tide_gate.Prelude.Dict.{Dict, lookup, insert}
use tide_gate.Core.{Result, ok, err, gateway_error, retryable_upstream}
use tide_gate.Config.{DeploymentConfig, ModelGroupConfig, RoutingConfig, Ratio}
use tide_gate.Routing.Breaker.{
  BreakerState, CircuitBreaker, closed, half_open, open_state, new_breaker, allow, refresh,
  record_outcome, force_open,
}
use tide_gate.Prelude.Int.{ℤ}

pub record DeploymentStats : Type 0 where
  pub ewma_ttft_s : ℕ
  pub ewma_error_rate : ℕ
  pub ttft_initialized : Bool
  pub error_rate_initialized : Bool
  pub inflight : ℕ
  pub cooldown_until_s : ℕ

abbrev pub new_stats : DeploymentStats
new_stats = record {
  ewma_ttft_s = 0;
  ewma_error_rate = 0;
  ttft_initialized = false;
  error_rate_initialized = false;
  inflight = 0;
  cooldown_until_s = 0;
}

abbrev pub Key : Type 0
Key = String × String

pub record RoutingState : Type 0 where
  pub settings : RoutingConfig
  pub stats : Dict Key DeploymentStats
  pub breakers : Dict Key CircuitBreaker

abbrev pub deployment_key : DeploymentConfig → Key
deployment_key d = (d.provider, d.upstream_model)

-- the loops of `RoutingState.__init__`
add_deployments : List DeploymentConfig → RoutingState → RoutingState
add_deployments [] st = st
add_deployments (d ∷ ds) st = add_deployments ds (record st {
  stats = insert (deployment_key d) new_stats st.stats;
  breakers = insert (deployment_key d) (new_breaker st.settings.breaker) st.breakers;
})

add_groups : Dict String ModelGroupConfig → RoutingState → RoutingState
unfolding add_deployments
add_groups [] st = st
add_groups ((name, group) ∷ groups) st = add_groups groups (add_deployments group.deployments st)

unfoldable pub new_routing_state : RoutingConfig → Dict String ModelGroupConfig → RoutingState
unfolding add_groups
new_routing_state settings groups =
    add_groups groups (record { settings = settings; stats = []; breakers = [] })

-- `setdefault` and `breaker_for`: what is missing is new. The write of the default is made with the
-- first change.
unfoldable pub stats_for : RoutingState → Key → DeploymentStats
stats_for st k = get_or (lookup k st.stats) new_stats

unfoldable pub breaker_for : RoutingState → Key → CircuitBreaker
breaker_for st k = get_or (lookup k st.breakers) (new_breaker st.settings.breaker)

unfoldable pub set_stats : RoutingState → Key → DeploymentStats → RoutingState
set_stats st k s = record st { stats = insert k s st.stats }

unfoldable pub set_breaker : RoutingState → Key → CircuitBreaker → RoutingState
set_breaker st k b = record st { breakers = insert k b st.breakers }

-- `alpha * sample + (1 - alpha) * current`, over the denominator of `alpha`
unfoldable pub ewma : ℕ → ℕ → Ratio → Bool → ℕ
ewma current sample alpha initialized =
    if initialized
    then (alpha.num * sample + (alpha.den - alpha.num) * current) / alpha.den
    else sample

unfoldable pub record_start : Key → ℕ → RoutingState → Result (Unit {0}) × RoutingState
unfolding set_breaker set_stats breaker_for stats_for
record_start k now_s st =
    let (allowed, b) = allow (breaker_for st k) now_s in
    let st' = set_breaker st k b in
    if allowed
    then (
      ok tt,
      set_stats st' k (record (stats_for st' k) { inflight = (stats_for st' k).inflight + 1 }),
    )
    else (err (gateway_error "no deployment available" retryable_upstream), st')

unfoldable pub record_abort : Key → RoutingState → RoutingState
unfolding set_stats stats_for
record_abort k st =
    set_stats st k (record (stats_for st k) { inflight = (stats_for st k).inflight - 1 })

-- the first sample of a latency, and the test of the slow call
unfoldable pub sample_ttft : RoutingConfig → DeploymentStats → Option ℕ → DeploymentStats
unfolding ewma
sample_ttft settings s none = s
sample_ttft settings s (some ttft) = record s {
  ewma_ttft_s = ewma s.ewma_ttft_s ttft settings.ewma_alpha s.ttft_initialized;
  ttft_initialized = true;
}

unfoldable pub fast_enough : RoutingConfig → Bool → Option ℕ → Bool
fast_enough settings success none = success
fast_enough settings success (some ttft) =
    if ltb settings.slow_call_ttft_slo_s ttft then false else success

unfoldable pub finish_stats : RoutingConfig → DeploymentStats → Bool → Option ℕ → DeploymentStats
unfolding sample_ttft fast_enough ewma
finish_stats settings s success ttft_s =
    let s' = sample_ttft settings (record s { inflight = s.inflight - 1 }) ttft_s in
    record s' {
      ewma_error_rate =
          ewma s'.ewma_error_rate (if fast_enough settings success ttft_s then 0 else 1_000_000)
            settings.ewma_alpha s'.error_rate_initialized;
      error_rate_initialized = true;
    }

unfoldable pub record_finish : Key → Bool → Option ℕ → ℕ → RoutingState → RoutingState
unfolding finish_stats set_stats set_breaker stats_for breaker_for
record_finish k success ttft_s now_s st =
    let st' = set_stats st k (finish_stats st.settings (stats_for st k) success ttft_s) in
    set_breaker st' k
      (record_outcome (breaker_for st' k) (fast_enough st.settings success ttft_s) now_s)

unfoldable pub record_rate_limit : Key → ℕ → ℕ → RoutingState → RoutingState
unfolding set_stats stats_for
record_rate_limit k retry_after_s now_s st =
    let s = stats_for st k in
    set_stats st k (record s {
      inflight = s.inflight - 1;
      cooldown_until_s = max s.cooldown_until_s (now_s + retry_after_s);
    })

unfoldable pub refresh_breaker : Key → ℕ → RoutingState → BreakerState × RoutingState
unfolding set_breaker breaker_for
refresh_breaker k now_s st =
    let b = refresh (breaker_for st k) now_s in (b.state, set_breaker st k b)

unfoldable pub state_force_open : Key → ℕ → ℤ → RoutingState → RoutingState
unfolding set_breaker breaker_for
state_force_open k now_s remaining_s st =
    set_breaker st k (force_open (breaker_for st k) now_s remaining_s)

-- `_state_value`, the gauge of a breaker
unfoldable pub state_value : BreakerState → ℕ
state_value closed = 0
state_value half_open = 1
state_value open_state = 2
