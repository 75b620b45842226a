-- ===== src/Cache/SingleFlight/Tests.antt =====
-- Two requests that miss the same key.
use tide_gate.Prelude.{◌≡◌, false, none, some, [], ◌∷◌, count_eq}
use tide_gate.Prelude.Dict.{lookup}
use tide_gate.Core.{UnifiedResponse}
use tide_gate.Cache.SingleFlight.{result, no_flights, acquire, resolve}
use tide_gate.Cache.SingleFlight.Sharing.{acquires, calls, one_flight, releases}

abbrev answer : UnifiedResponse
answer = record {
  content = 104 ∷ 105 ∷ [];
  finish_reason = "stop";
  usage = record { prompt_tokens = 3; completion_tokens = 2; total_tokens = 5 };
  model = "large";
  mean_logprob = none;
}

one_flight_example :
    let (f, s') = acquire "k" no_flights in
    let s'' = calls (acquires "other" ∷ []) s' in
    (acquire "k" s'' ≡ (record { key = "k"; future = f.future; leader = false }, s''))
    × (lookup f.future s''.outcomes ≡ none
        → lookup f.future (calls (releases f ∷ []) (resolve f answer s'')).outcomes
          ≡ some (result answer))
one_flight_example =
    one_flight "k" (acquires "other" ∷ []) (releases (acquire "k" no_flights).0 ∷ []) answer
      no_flights tt
