-- ===== src/Routing/Stats/Access.antt =====
-- What a write of one deployment's statistics or breaker shows to each reader.
use tide_gate.Prelude.{◌≡◌, ◌≢◌, refl, string_eq, pair_eq}
use tide_gate.Prelude.Dict.{lookup-insert_self, lookup-insert_ne}
use tide_gate.Routing.Breaker.{CircuitBreaker}
use tide_gate.Routing.Stats.{
  Key, RoutingState, DeploymentStats, stats_for, breaker_for, set_stats, set_breaker,
}

module _ (st : RoutingState) (k : Key) where
  pub stats_for-set_stats : (s : DeploymentStats) → stats_for (set_stats st k s) k ≡ s
  unfolding stats_for set_stats
  stats_for-set_stats s = rw lookup-insert_self

  pub breaker_for-set_breaker : (b : CircuitBreaker) → breaker_for (set_breaker st k b) k ≡ b
  unfolding breaker_for set_breaker
  breaker_for-set_breaker b = rw lookup-insert_self

  pub stats_for-set_breaker :
      (b : CircuitBreaker) (j : Key) → stats_for (set_breaker st k b) j ≡ stats_for st j
  unfolding stats_for set_breaker
  stats_for-set_breaker b j = refl

  pub breaker_for-set_stats :
      (s : DeploymentStats) (j : Key) → breaker_for (set_stats st k s) j ≡ breaker_for st j
  unfolding breaker_for set_stats
  breaker_for-set_stats s j = refl

  pub stats_for-set_stats_ne :
      (s : DeploymentStats) (j : Key) → k ≢ j → stats_for (set_stats st k s) j ≡ stats_for st j
  unfolding stats_for set_stats
  stats_for-set_stats_ne s j h = rw (lookup-insert_ne k j s st.stats h)

  pub breaker_for-set_breaker_ne :
      (b : CircuitBreaker) (j : Key) → k ≢ j → breaker_for (set_breaker st k b) j ≡ breaker_for st j
  unfolding breaker_for set_breaker
  breaker_for-set_breaker_ne b j h = rw (lookup-insert_ne k j b st.breakers h)

pub ruleset access_laws =
    (stats_for-set_stats, breaker_for-set_breaker, stats_for-set_breaker, breaker_for-set_stats)
