-- ===== src/Routing/Selector/Tests.antt =====
-- A selection between two deployments.
use tide_gate.Prelude.{◌≡◌, refl, inl, inr, string_eq, pair_eq, List, [], ◌∷◌, keep_if}
use tide_gate.Prelude.Dict.{lookup, insert}
use tide_gate.Core.{ok}
use tide_gate.Config.{DeploymentConfig}
use tide_gate.Config.Samples.{large_a, large_b, sample_routing, sample_weights}
use tide_gate.Routing.Breaker.{can_try}
use tide_gate.Routing.Stats.{RoutingState, refresh_breaker, stats_for, breaker_for}
use tide_gate.Routing.Selector.{better, candidate_allowed, is_half_open, pick, try_breaker}
use tide_gate.Routing.Selector.Candidates.{eligible, probing}
use tide_gate.Routing.Selector.Choice.{Samples, Chosen, pick-Chosen}

-- `random.sample`, once
abbrev first_two : List DeploymentConfig → DeploymentConfig × DeploymentConfig
first_two [] = (large_a, large_b)
first_two (d ∷ []) = (d, d)
first_two (d ∷ e ∷ ds) = (d, e)

first_two-Samples : Samples first_two
first_two-Samples a b rest = (inl refl, inr (inl refl))

abbrev state : RoutingState
state = record { settings = sample_routing; stats = []; breakers = [] }

-- the cheaper one
pick_run : (pick sample_weights first_two (large_a ∷ large_b ∷ []) [] 5 state).0 ≡ ok large_b
unfolding pick lookup candidate_allowed stats_for try_breaker can_try breaker_for refresh_breaker
    insert is_half_open better
pick_run = refl

pick-Chosen_example :
    let found = keep_if (eligible [] 5 state) (large_a ∷ large_b ∷ []) in
    Chosen sample_weights first_two state found
      (keep_if (probing 5 state) found)
      (pick sample_weights first_two (large_a ∷ large_b ∷ []) [] 5 state).0
pick-Chosen_example =
    pick-Chosen sample_weights first_two (large_a ∷ large_b ∷ []) [] 5 state first_two-Samples
