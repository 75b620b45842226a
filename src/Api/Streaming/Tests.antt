-- ===== src/Api/Streaming/Tests.antt =====
-- A stream of two deltas: the theorems on streams at an input.
use tide_gate.Quota.Service.{delivered}
use tide_gate.Prelude.{refl, true, false, none, some, List, [], ◌∷◌, string_eq, count_eq}
use tide_gate.Api.Samples.{
  context, app, cost, arrives, moment, sample_levels, sample_settlement, picked, leader,
}
use tide_gate.Core.{Usage, gateway_error, timeout_stall, timeout_ttft}
use tide_gate.Api.Sse.{Item, idle, no_accounting, is_data, delta, ping}
use tide_gate.Api.Hedged.{
  fails, Ending, Race, StreamLocal, StreamTry, Winner, Feed, in_time, race_fails, completes,
  hedge_wins,
}
use tide_gate.Api.Streaming.{StreamRun, stream_with_retries, whole}
use tide_gate.Api.NonStream.Owes.{NothingHeld}
use tide_gate.Api.Stream.Race.{Leaves, routing_at, forward-Leaves}
use tide_gate.Api.Streaming.Settles.{stream_with_retries-NothingHeld}
use tide_gate.Api.Streaming.Closes.{IsClosed, stream_with_retries-Done}
use tide_gate.Config.Samples.{large_a}
use tide_gate.Api.Stream.{forward, stream_attempt, start_stream}
use tide_gate.Api.Stream.Quiet.{GoesQuiet, stream_attempt-GoesQuiet}
use tide_gate.Api.Attempts.{PickResult}
use tide_gate.Api.Ledger.{QuotaSettlement}
use tide_gate.Api.Gateway.{App}
use tide_gate.Api.NonStream.Rules.{started_app}

abbrev usage_of_two : Usage
usage_of_two = record { prompt_tokens = 3; completion_tokens = 2; total_tokens = 5 }

abbrev two_deltas : List Item
two_deltas =
    idle
    ∷ delta (record { content = some (104 ∷ 105 ∷ []); finish_reason = none; usage = none }) 40
    ∷ delta (record { content = none; finish_reason = some "stop"; usage = some usage_of_two }) 90
    ∷ []

abbrev feed_with : Ending → Feed
feed_with e = record { items = two_deltas; ending = e }

abbrev stream_try : Race → Ending → StreamTry
stream_try race e = record {
  picked_at = 5;
  moment = moment;
  reserving = delivered;
  estimated = cost;
  started_at = 6;
  hedge_picked_at = 7;
  race = race;
  feed = feed_with e;
  ended_at = 100;
  settling = arrives;
  storing = none;
}

abbrev stalls_after_data : StreamRun
stalls_after_data = record {
  tries = λ j. stream_try in_time (fails (gateway_error "slow" timeout_stall));
  stale = none;
  settling = arrives;
  final = whole;
}

stream_with_retries-NothingHeld_example :
    NothingHeld "r1"
      (stream_with_retries context true none sample_levels picked sample_settlement []
        stalls_after_data app).app
stream_with_retries-NothingHeld_example =
    stream_with_retries-NothingHeld context true none "r1" sample_levels picked sample_settlement []
      stalls_after_data app ((λ j. refl), refl, tt) (refl, refl, refl)

stream_with_retries-Done_example :
    IsClosed stalls_after_data leader
      (stream_with_retries context true
        (some leader)
        sample_levels
        picked
        sample_settlement
        []
        stalls_after_data
        app).app
stream_with_retries-Done_example =
    stream_with_retries-Done context true leader refl sample_levels picked sample_settlement []
      stalls_after_data app

abbrev pinged : StreamLocal
pinged = record {
  held = some sample_settlement;
  attempted = ("mock-a", "large") ∷ [];
  last_error = none;
  level_index = 0;
  accounting = no_accounting;
  outcome = "error";
  route = [];
  ledger_written = false;
  events = ping ∷ [];
}

abbrev silent_first : StreamTry
silent_first = stream_try (race_fails false (gateway_error "late" timeout_ttft)) completes

stream_attempt-GoesQuiet_example :
    GoesQuiet (stream_attempt context true none sample_levels silent_first 2 false pinged app)
    × ((p : PickResult) (s : QuotaSettlement)
        → GoesQuiet
            (start_stream context true none sample_levels silent_first p 2 false pinged s app))
unfolding is_data
stream_attempt-GoesQuiet_example =
    stream_attempt-GoesQuiet context true none sample_levels silent_first 2 false pinged app refl

abbrev hedge_winner : Winner
hedge_winner = record { feed = feed_with completes; deployment = large_a; seq = 1; kind = "hedge" }

-- the winner's attempt has begun
abbrev begun : App
begun = started_app ("mock-a", "large") 6 app

forward-Leaves_example : Leaves context true none hedge_winner completes begun.routing (
    routing_at (
      forward context true none
        (stream_try (hedge_wins (feed_with completes)) completes)
        picked
        hedge_winner
        0
        "primary"
        5
        false
        pinged
        begun))
forward-Leaves_example =
    forward-Leaves context true none (stream_try (hedge_wins (feed_with completes)) completes)
      picked hedge_winner 0 "primary" 5 false pinged begun
