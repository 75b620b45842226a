-- ===== src/Routing/Breaker/Tests.antt =====
-- Runs of the breaker, and each theorem at an input.
use tide_gate.Prelude.{◌≡◌, refl, true, false, [], ◌∷◌, arith}
use tide_gate.Config.{BreakerConfig}
use tide_gate.Routing.Breaker.{
  closed, open_state, CircuitBreaker, new_breaker, allow, record_outcome,
}
use tide_gate.Routing.Breaker.Invariant.{IsValid, allow_at, outcome_at, calls, calls-IsValid}
use tide_gate.Routing.Breaker.Recovery.{probes, probes_close, AllPass}

-- opens at half of at least two samples, for ten units of time, and wants two probes
abbrev config : BreakerConfig
config = record {
  window_size = 4;
  failure_rate_to_open = record { num = 1; den = 2 };
  min_samples = 2;
  open_cooldown_s = 10;
  cooldown_max_s = 300;
  half_open_probes = 2;
}

abbrev tripped : CircuitBreaker
tripped = record_outcome (record_outcome (new_breaker config) true 3) false 5

tripped-opens : (tripped.state ≡ open_state) × (tripped.open_until_s ≡ 15)
unfolding record_outcome
tripped-opens = (refl, refl)

calls-IsValid_example :
    IsValid (calls (new_breaker config) (allow_at 1 ∷ outcome_at false 2 ∷ outcome_at false 3 ∷ []))
calls-IsValid_example =
    calls-IsValid config (allow_at 1 ∷ outcome_at false 2 ∷ outcome_at false 3 ∷ [])

abbrev probing : CircuitBreaker
probing = (allow tripped 15).1

probes_close_example :
    let b' = probes tripped (15 ∷ 16 ∷ []) in
    (b'.state ≡ closed) × (b'.open_count ≡ 0) × (b'.window ≡ []) × AllPass tripped (15 ∷ 16 ∷ [])
unfolding record_outcome
probes_close_example = probes_close tripped 15 (16 ∷ []) refl (omega arith) refl
