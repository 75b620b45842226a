-- ===== src/Api/Stream.antt =====
-- api/routes.py: the attempts of a request that is streamed, from its first attempt to the end of the
-- stream (`_stream_with_retries`). `attempt_count` is one more than the attempt's number; the logs, the
-- metrics and the count of the active streams are left out.
pub mod Closes
pub mod Keeps
pub mod Owes
pub mod Quiet
pub mod Race
use tide_gate.Prelude.{
  ℕ, zero, suc, String, Bool, true, false, Option, none, some, List, [], ◌∷◌, ◌++◌, ◌==◌, count_eq,
  ◌||◌, not, if◌then◌else◌, is_some, any, get_or, string_eq,
}
use tide_gate.Api.Ledger.Record.{route_header}
use tide_gate.Api.Attempts.{PickResult, pick_next_attempt, record_route_error}
use tide_gate.Api.Gateway.{
  after_result, Context, App, reject_led, Exit, returns, enqueue_attempt_record, next_attempt_seq,
  reserve_quota, gateway, raises, other, resolve_led, flush_ledger,
}
use tide_gate.Cache.SingleFlight.{Flight}
use tide_gate.Api.Hedged.{
  settle_kept, StreamTry, StreamLocal, Winner, Raced, StreamStep, won, continues, breaks, returned,
  attempt_kind, raised, render_with_hedge, won, lost, completes, fails, disconnects, crashes,
}
use tide_gate.Api.NonStream.{is_retryable}
use tide_gate.Routing.Ladder.{RouteLevel}
use tide_gate.Config.{DeploymentConfig}
use tide_gate.Api.Ledger.{
  QuotaSettlement, use_deployment, capture_usage, failed_attempt_record, delivered_attempt_record,
}
use tide_gate.Api.Sse.{StreamAttemptState, render_items, done, is_data, Rendered}
use tide_gate.Core.{GatewayError, Usage, ok, UnifiedResponse, err}
use tide_gate.Routing.Stats.{deployment_key, record_finish, record_start, record_abort}

-- `{"ok", "degraded"}`
abbrev pub stream_outcome : PickResult → String
stream_outcome picked = if is_some picked.level.degraded then "degraded" else "ok"

abbrev pub stream_degraded : String → Option String
stream_degraded outcome = if outcome == "degraded" then some "stream-degraded" else none

module _ (c : Context) (include_usage : Bool) (flight : Option Flight) where
  -- a stream without usage rejects the flight that it leads
  unfoldable pub reject_missing_usage : App → App
  reject_missing_usage a = reject_led flight "stream response missing usage" a

  -- what follows a stream that has ended with its usage; the storing may raise
  unfoldable pub on_usage :
      StreamTry
      → PickResult
      → Winner
      → StreamAttemptState
      → Usage
      → StreamLocal
      → App
      → StreamLocal × App
  unfolding settle_kept
  on_usage t picked w s usage l a =
      let response : UnifiedResponse = record {
        content = s.cacheable_content;
        finish_reason = get_or s.finish_reason "stop";
        usage = usage;
        model = w.deployment.upstream_model;
        mean_logprob = none;
      } in
      let a1 =
        enqueue_attempt_record (delivered_attempt_record c.unified usage w.seq w.kind w.deployment)
          a in
      let a2 = resolve_led flight response a1 in
      let a3 = record a2 { stored = (response, is_some picked.level.degraded) ∷ a2.stored } in
      let (l', a4) = settle_kept t.settling (some usage) l.accounting.delta_count l a3 in
      elim t.storing [
        | some exc ↦ (l, a3)
        | none ↦ (
          record l' { ledger_written = true },
          flush_ledger c usage l.route "miss" (stream_degraded l.outcome) l.outcome a4,
        )
      ]

  -- what follows a stream that has ended by itself, with the usage that it has sent
  unfoldable pub book_stream :
      StreamTry
      → PickResult
      → Winner
      → StreamAttemptState
      → Option Usage
      → StreamLocal
      → App
      → StreamLocal × App
  unfolding on_usage reject_missing_usage
  book_stream t picked w s none l a = (l, reject_missing_usage a)
  book_stream t picked w s (some usage) l a = on_usage t picked w s usage l a

  -- the exception of the storing, if it comes to that
  abbrev pub stream_store_raises : StreamTry → Option Usage → Option String
  stream_store_raises t none = none
  stream_store_raises t (some usage) = t.storing

  -- what follows a stream that has ended by itself
  unfoldable pub on_complete :
      StreamTry → PickResult → Winner → StreamAttemptState → StreamLocal → App → StreamStep
  unfolding book_stream
  on_complete t picked w s l a =
      let l1 : StreamLocal = record l {
        held = elim l.held [ none ↦ none | some p ↦ some (capture_usage l.accounting.usage p) ];
        outcome = stream_outcome picked;
      } in
      let a1 : App = record a {
        routing =
            record_finish (deployment_key w.deployment) true l.accounting.ttft_ms t.ended_at
              a.routing;
      } in
      let (l2, a2) = book_stream t picked w s l.accounting.usage l1 a1 in
      elim (stream_store_raises t l.accounting.usage) [
        | none ↦ returned (record l2 { events = l2.events ++ done ∷ [] }) a2
        | some exc ↦ raised (other exc) l2 a2
      ]

  -- what follows a `GatewayError`; `d` is the deployment that it is blamed on
  unfoldable pub on_stream_error :
      StreamTry
      → DeploymentConfig
      → ℕ
      → String
      → ℕ
      → Bool
      → Bool
      → GatewayError
      → StreamLocal
      → App
      → StreamStep
  unfolding is_retryable
  on_stream_error t d seq kind prompt_tokens sent_data is_last exc l a =
      let a1 =
        enqueue_attempt_record (failed_attempt_record c.unified prompt_tokens seq kind d exc) a in
      let a2 : App = record a1 {
        routing =
            record_route_error c.settings.routing (deployment_key d) exc l.accounting.ttft_ms
              t.ended_at a1.routing;
      } in
      let l' : StreamLocal = record l { last_error = some exc } in
      if sent_data || not (is_retryable exc.category) || is_last
      then breaks l' a2
      else continues l' a2

  -- what the stream of the winner yields before it ends
  abbrev pub rendered : Winner → StreamLocal → Rendered
  rendered w l = render_items include_usage w.feed.items (record {
    accounting = l.accounting;
    state = record { cacheable_content = []; finish_reason = none };
    events = [];
  })

  abbrev pub forwarded : Winner → StreamLocal → StreamLocal
  forwarded w l = record l {
    held = elim l.held [ none ↦ none | some p ↦ some (use_deployment w.deployment p) ];
    route = route_header w.deployment;
    accounting = (rendered w l).accounting;
    events = l.events ++ (rendered w l).events;
  }

  -- the loop over the stream of the winner
  unfoldable pub forward :
      StreamTry → PickResult → Winner → ℕ → String → ℕ → Bool → StreamLocal → App → StreamStep
  unfolding on_complete on_stream_error
  forward t picked w seq kind prompt_tokens is_last l a =
      let d = w.deployment in
      let r = rendered w l in
      let l' = forwarded w l in
      elim w.feed.ending [
        | completes ↦ on_complete t picked w r.state l' a
        | disconnects ↦
            returned (record l' { outcome = "client_disconnect" })
              (reject_led flight "client disconnected"
                (record a { routing = record_abort (deployment_key d) a.routing }))
        | fails exc ↦
            on_stream_error t d seq kind prompt_tokens (any is_data r.events) is_last exc l' a
        | crashes exc ↦ raised (other exc) l' a
      ]

  -- what the race leaves
  unfoldable pub after_race :
      StreamTry → PickResult → ℕ → String → ℕ → Bool → StreamLocal → Raced × App → StreamStep
  unfolding forward on_stream_error
  after_race t picked seq kind prompt_tokens is_last l (won w, a) =
      forward t picked w seq kind prompt_tokens is_last l a
  after_race t picked seq kind prompt_tokens is_last l (lost (gateway exc), a) =
      on_stream_error t picked.deployment seq kind prompt_tokens false is_last exc l a
  after_race t picked seq kind prompt_tokens is_last l (lost (other exc), a) =
      raised (other exc) l a
  after_race t picked seq kind prompt_tokens is_last l (lost (after_result exc), a) =
      raised (after_result exc) l a

  abbrev pub started_local : DeploymentConfig → StreamLocal → QuotaSettlement → StreamLocal
  started_local d l p = record l { held = some (use_deployment d p); route = route_header d }

  -- from the settlement on
  unfoldable pub start_stream :
      List RouteLevel
      → StreamTry
      → PickResult
      → ℕ
      → Bool
      → StreamLocal
      → QuotaSettlement
      → App
      → StreamStep
  unfolding after_race
  start_stream levels t picked attempt_count is_last l p a =
      let d = picked.deployment in
      let l' : StreamLocal = record l {
        held = some (use_deployment d p);
        route = route_header d;
      } in
      let (seq, a1) = next_attempt_seq a in
      let kind = attempt_kind attempt_count in
      let (started, routing) = record_start (deployment_key d) t.started_at a1.routing in
      let a2 : App = record a1 { routing = routing } in
      let prompt_tokens = p.reservation.estimated.prompt_tokens in
      elim started [
        | ok tt ↦
            after_race t picked seq kind prompt_tokens is_last l'
              (render_with_hedge c levels t l.attempted prompt_tokens d seq kind a2)
        | err exc ↦ continues (record l' { last_error = some exc }) a2
      ]

  -- the reservation that a later attempt may need
  unfoldable pub with_stream_quota :
      List RouteLevel
      → StreamTry
      → PickResult
      → ℕ
      → Bool
      → StreamLocal
      → Exit QuotaSettlement × App
      → StreamStep
  unfolding start_stream
  with_stream_quota levels t picked attempt_count is_last l (returns p, a) =
      start_stream levels t picked attempt_count is_last
        (record l { attempted = deployment_key picked.deployment ∷ l.attempted; held = some p }) p a
  with_stream_quota levels t picked attempt_count is_last l (raises (gateway e), a) =
      breaks (record l { last_error = some e }) a
  with_stream_quota levels t picked attempt_count is_last l (raises (other e), a) =
      raised (other e) l a
  with_stream_quota levels t picked attempt_count is_last l (raises (after_result e), a) =
      raised (after_result e) l a

  -- an attempt whose deployment is chosen
  unfoldable pub stream_at :
      List RouteLevel → StreamTry → PickResult → ℕ → Bool → StreamLocal → App → StreamStep
  unfolding with_stream_quota
  stream_at levels t picked attempt_count is_last l a =
      let l' : StreamLocal = record l { level_index = picked.level_index } in
      elim l.held [
        | some p ↦ with_stream_quota levels t picked attempt_count is_last l' (returns p, a)
        | none ↦
            with_stream_quota levels t picked attempt_count is_last l'
              (reserve_quota c t.moment t.reserving t.estimated picked.deployment a)
      ]

  -- a later attempt
  unfoldable pub stream_attempt :
      List RouteLevel → StreamTry → ℕ → Bool → StreamLocal → App → StreamStep
  unfolding stream_at
  stream_attempt levels t attempt_count is_last l a =
      let (picked, routing) =
        pick_next_attempt c.weights c.sample l.attempted t.picked_at l.level_index levels
          a.routing in
      let a' : App = record a { routing = routing } in
      elim picked [
        | ok r ↦ stream_at levels t r attempt_count is_last l a'
        | err exc ↦ breaks (record l { last_error = some exc }) a'
      ]

  -- what follows an attempt, if the loop goes on
  abbrev pub and_stream : (StreamLocal → App → StreamStep) → StreamStep → StreamStep
  and_stream rest (continues l a) = rest l a
  and_stream rest (breaks l a) = breaks l a
  and_stream rest (returned l a) = returned l a
  and_stream rest (raised e l a) = raised e l a

  -- the loop from its second attempt on
  unfoldable pub stream_attempts :
      List RouteLevel → (ℕ → StreamTry) → ℕ → ℕ → StreamLocal → App → StreamStep
  stream_attempts levels tries zero i l a = breaks l a
  stream_attempts levels tries (suc left) i l a =
      and_stream (λ l' a'. stream_attempts levels tries left (suc i) l' a')
        (stream_attempt levels (tries i) (suc i) (left == 0) l a)
