-- ===== src/Routing/Stats/Tests.antt =====
-- Runs of the routing state, and each theorem at an input.
use tide_gate.Prelude.{◌≡◌, refl, string_eq, pair_eq, false, [], ◌∷◌, arith}
use tide_gate.Prelude.Dict.{lookup, insert}
use tide_gate.Core.{err, gateway_error, retryable_upstream}
use tide_gate.Config.{BreakerConfig, RoutingConfig}
use tide_gate.Routing.Breaker.{half_open, allow, can_try, new_breaker}
use tide_gate.Routing.Stats.{Key, RoutingState, breaker_for, record_start, record_abort}
use tide_gate.Routing.Stats.Lockout.{start_at, refresh_at, quiets, lockout}

abbrev breaker_config : BreakerConfig
breaker_config = record {
  window_size = 4;
  failure_rate_to_open = record { num = 1; den = 2 };
  min_samples = 2;
  open_cooldown_s = 10;
  cooldown_max_s = 300;
  half_open_probes = 1;
}

abbrev settings : RoutingConfig
settings = record {
  ewma_alpha = record { num = 1; den = 5 };
  slow_call_ttft_slo_s = 8_000_000;
  breaker = breaker_config;
  p2c_weights = record { ttft = 4; error_rate = 3; inflight = 2; price = 1 };
  max_attempts_before_first_byte = 3;
  agg_report_interval_s = 5_000_000;
  agg_ttl_s = 60;
}

abbrev key : Key
key = ("mock-a", "large")

-- a half-open breaker with no probe out
abbrev waiting : RoutingState
waiting = record {
  settings = settings;
  stats = [];
  breakers = (key, record (new_breaker breaker_config) { state = half_open; open_count = 1 }) ∷ [];
}

abbrev started : RoutingState
started = (record_start key 7 waiting).1

-- the client of the only probe went away
lockout_example :
    ((can_try
        (breaker_for (quiets key (start_at 20 ∷ refresh_at 90 ∷ []) (record_abort key started)) key)
        100).0
      ≡ false)
    × ((record_start key 100
          (quiets key (start_at 20 ∷ refresh_at 90 ∷ []) (record_abort key started))).0
        ≡ err (gateway_error "no deployment available" retryable_upstream))
unfolding record_start record_abort allow breaker_for lookup insert
lockout_example =
    lockout key (record_abort key started) (start_at 20 ∷ refresh_at 90 ∷ []) 100 refl (omega arith)
