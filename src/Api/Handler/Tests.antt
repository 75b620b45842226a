-- ===== src/Api/Handler/Tests.antt =====
-- A request on two levels: the theorems on the attempts, the cascade and the handler at an input.
use tide_gate.Api.Samples.{
  context, app, reply, cost, arrives, moment, sample_levels, leader, sample_settlement,
}
use tide_gate.Prelude.{zero, suc, ℕ, ◌⊎◌, refl, true, none, some, string_eq, count_eq, suc}
use tide_gate.Prelude.Dict.{lookup}
use tide_gate.Config.Samples.{sample_policy, deployment_of}
use tide_gate.Quota.Service.{delivered}
use tide_gate.Config.{DeploymentConfig}
use tide_gate.Api.Gateway.{Answer, Try, replied, failed, ChatResult}
use tide_gate.Core.{gateway_error, timeout_ttft}
use tide_gate.Api.Upstream.{Run, call_upstream, call_cascade}
use tide_gate.Api.Handler.{Outside, call_with_retries}
use tide_gate.Api.Upstream.Settles.{RunReaches, Settled}
use tide_gate.Api.Upstream.Cascade.{Ended, Stuck, call_cascade-Ended, Unanswered}
use tide_gate.Api.NonStream.Books.{Booked}
use tide_gate.Api.Handler.Settles.{call_with_retries-Settled}
use tide_gate.Api.Upstream.Books.{call_upstream-Booked}
use tide_gate.Api.Upstream.Ends.{call_upstream-Done, Done}
use tide_gate.Api.Ledger.Record.{route_header}

abbrev try_with : Answer → Try
try_with answer = record {
  picked_at = 5;
  moment = moment;
  reserving = delivered;
  estimated = cost;
  started_at = 6;
  answer = answer;
  storing = none;
  ttft_s = 100;
  ended_at = 7;
  settling = arrives;
}

abbrev fails_then_replies : ℕ → Try
fails_then_replies zero = try_with (failed (gateway_error "slow" timeout_ttft))
fails_then_replies (suc j) = try_with (replied reply)

abbrev sample_run : Run
sample_run = record { tries = λ j. try_with (replied reply); stale = none; settling = arrives }

abbrev sample_outside : Outside
sample_outside = record {
  moment = moment;
  reserving = delivered;
  estimated = cost;
  found = none;
  found_again = none;
  shared = none;
  settling = arrives;
  drafting = sample_run;
  run = sample_run;
}

abbrev run_reaches : RunReaches sample_run
run_reaches = (λ j. (tt, refl, refl), refl)

call_with_retries-Settled_example :
    Settled "r1" app (call_with_retries context sample_outside "key" sample_levels app).1
unfolding lookup
call_with_retries-Settled_example =
    call_with_retries-Settled context sample_outside (sample_policy, refl)
      (refl, refl, run_reaches, run_reaches) "key" sample_levels app refl

abbrev unstored_run : Run
unstored_run = record {
  tries = λ j. record (try_with (replied reply)) { storing = some "BrokenProcessPool" };
  stale = none;
  settling = arrives;
}

call_upstream-Done_example :
    let (e, a') =
      call_upstream context "miss" (some leader) true sample_levels none unstored_run app in
    Done leader app.flights e a'
call_upstream-Done_example =
    call_upstream-Done context leader refl "miss" true sample_levels none unstored_run app

call_upstream-Booked_example :
    let (e, a') = call_upstream context "miss" none true sample_levels none sample_run app in
    Booked "r1" app.ledger e a'
call_upstream-Booked_example =
    call_upstream-Booked context "miss" none true sample_levels none sample_run app

call_cascade-Ended_example :
    let o =
      call_cascade context sample_policy "miss"
        (some leader)
        sample_levels
        sample_settlement
        sample_run
        sample_run
        app in
    (Ended context sample_policy "miss" sample_levels sample_settlement sample_run sample_run leader
        o.1
      ⊎ Unanswered context sample_policy "miss" sample_levels sample_settlement sample_run
          sample_run leader app.flights o)
    ⊎ Stuck context sample_policy "miss" sample_levels sample_settlement sample_run sample_run
        leader app
call_cascade-Ended_example =
    call_cascade-Ended context sample_policy "miss" sample_levels sample_settlement sample_run
      sample_run leader app refl

abbrev answered_by : DeploymentConfig → ChatResult
answered_by d = record {
  response = reply;
  route_header = route_header d;
  cache_header = "miss";
  degraded = none;
}

abbrev draft : ChatResult
draft = answered_by (deployment_of "mock-a" "small" 500)
