-- ===== src/Api/Stream/Race.antt =====
-- What the routing state learns of a stream that has won its race, or that had no rival.
use tide_gate.Prelude.{
  ℕ, ◌-◌, ◌≡◌, ◌≢◌, ◌∙◌, sym, ap, refl, String, Bool, Option, none, some, inl, inr, Bool-cases,
  Option-cases, not, ◌||◌, any, true,
}
use mathlib.Core.Path.{subst}
use tide_gate.Api.Hedged.{
  Ending, completes, fails, disconnects, crashes, settle_kept, StreamStep, continues, StreamLocal,
  StreamTry, Winner, breaks, returned, raised,
}
use tide_gate.Routing.Stats.Inflight.{
  Ending as AttemptEnding, finished, aborted, end_attempt, end_attempt-SameAt, inflight-end_attempt,
  SameAt,
}
use tide_gate.Routing.Stats.{deployment_key, RoutingState, Key, stats_for, record_finish}
use tide_gate.Api.Gateway.{Settling, Context, App, enqueue_attempt_record, flush_ledger}
use tide_gate.Core.{Usage, GatewayError}
use tide_gate.Cache.SingleFlight.{Flight}
use tide_gate.Api.Stream.{
  book_stream, on_stream_error, forward, on_usage, on_complete, reject_missing_usage, rendered,
  forwarded, stream_store_raises,
}
use tide_gate.Api.Attempts.{PickResult, record_route_error}
use tide_gate.Config.{DeploymentConfig}
use tide_gate.Api.Sse.{StreamAttemptState, is_data}
use tide_gate.Api.Gateway.Frame.{reject_led-frame, resolve_led-frame}
use tide_gate.Api.NonStream.{is_retryable}
use tide_gate.Api.Attempts.Errors.{ending, record_route_error-Ending}

-- the routing state after a step
abbrev pub routing_at : StreamStep → RoutingState
routing_at (continues l a) = a.routing
routing_at (breaks l a) = a.routing
routing_at (returned l a) = a.routing
routing_at (raised e l a) = a.routing

settle_kept-routing :
    (s : Settling) (usage : Option Usage) (n : ℕ) (l : StreamLocal) (a : App)
    → (settle_kept s usage n l a).1.routing ≡ a.routing
unfolding settle_kept
settle_kept-routing s usage n l a = elim (Option-cases l.held) [
  | inl none_ ↦ rw (settle_kept, none_) refl
  | inr (p, some_) ↦ rw (settle_kept, some_) refl
]

module _ (c : Context) (include_usage : Bool) (flight : Option Flight) where
  book_stream-routing :
      (t : StreamTry) (picked : PickResult) (w : Winner) (s : StreamAttemptState)
      (usage : Option Usage) (l : StreamLocal) (a : App)
      → (book_stream c include_usage flight t picked w s usage l a).1.routing ≡ a.routing
  unfolding book_stream on_usage reject_missing_usage enqueue_attempt_record flush_ledger
  book_stream-routing t picked w s none l a =
      ap (λ (x : App). x.routing) (reject_led-frame flight "stream response missing usage" a)
  book_stream-routing t picked w s (some usage) l a =
      let same = ap (λ (x : App). x.routing) (resolve_led-frame flight _ _) in
      elim (Option-cases t.storing) [
        | inr (exc, raised_) ↦ rw (on_usage, raised_) same
        | inl fine ↦
            rw (on_usage, fine)
              (settle_kept-routing t.settling (some usage) l.accounting.delta_count l _ ∙ same)
      ]

  on_complete-routing :
      (t : StreamTry) (picked : PickResult) (w : Winner) (s : StreamAttemptState) (l : StreamLocal)
      (a : App)
      → routing_at (on_complete c include_usage flight t picked w s l a)
        ≡ record_finish (deployment_key w.deployment) true l.accounting.ttft_ms t.ended_at a.routing
  unfolding on_complete
  on_complete-routing t picked w s l a =
      let booked = book_stream-routing t picked w s l.accounting.usage _ _ in
      elim (Option-cases (stream_store_raises c include_usage flight t l.accounting.usage)) [
        | inl fine ↦ rw (on_complete, fine) booked
        | inr (exc, raised_) ↦ rw (on_complete, raised_) booked
      ]

  module _ (t : StreamTry) (w : Winner) (l : StreamLocal) where
    -- how the attempt ends for its deployment, unless an exception of another kind breaks it off
    unfoldable pub ends_as : Ending → Option AttemptEnding
    unfolding ending
    ends_as completes =
        some (finished true (forwarded c include_usage flight w l).accounting.ttft_ms t.ended_at)
    ends_as disconnects = some aborted
    ends_as (fails exc) = some (
        ending c.settings.routing (deployment_key w.deployment) exc
          (forwarded c include_usage flight w l).accounting.ttft_ms t.ended_at exc.category)
    ends_as (crashes exc) = none

  abbrev pub ended_by : Key → Option AttemptEnding → RoutingState → RoutingState
  ended_by k none st = st
  ended_by k (some e) st = end_attempt k e st

  on_stream_error-routing :
      (t : StreamTry) (d : DeploymentConfig) (seq : ℕ) (kind : String) (n : ℕ) (sent is_last : Bool)
      (exc : GatewayError) (l : StreamLocal) (a : App)
      → routing_at (on_stream_error c include_usage flight t d seq kind n sent is_last exc l a)
        ≡ record_route_error c.settings.routing
            (deployment_key d)
            exc
            l.accounting.ttft_ms
            t.ended_at
            a.routing
  unfolding on_stream_error enqueue_attempt_record
  on_stream_error-routing t d seq kind n sent is_last exc l a =
      elim (Bool-cases (sent || not (is_retryable exc.category) || is_last)) [
        | inl over_ ↦ rw (on_stream_error, over_) refl
        | inr again ↦ rw (on_stream_error, again) refl
      ]

  forward-routing :
      (x : Ending) (t : StreamTry) (picked : PickResult) (w : Winner) (seq : ℕ) (kind : String)
      (n : ℕ) (is_last : Bool) (l : StreamLocal) (a : App)
      → w.feed.ending ≡ x
      → routing_at (forward c include_usage flight t picked w seq kind n is_last l a)
        ≡ ended_by (deployment_key w.deployment) (ends_as t w l x) a.routing
  unfolding forward end_attempt on_complete ends_as record_finish
  forward-routing completes t picked w seq kind n is_last l a e =
      rw (forward, e)
        (on_complete-routing t picked w (rendered c include_usage flight w l).state
          (forwarded c include_usage flight w l) a)
  forward-routing (fails exc) t picked w seq kind n is_last l a e =
      let l' = forwarded c include_usage flight w l in
      rw (forward, e)
        (on_stream_error-routing t w.deployment seq kind n
            (any is_data (rendered c include_usage flight w l).events) is_last exc l' a
          ∙ record_route_error-Ending c.settings.routing (deployment_key w.deployment) exc
              l'.accounting.ttft_ms t.ended_at a.routing)
  forward-routing disconnects t picked w seq kind n is_last l a e =
      rw (forward, e)
        (ap (λ (x : App). x.routing) (reject_led-frame flight "client disconnected" _))
  forward-routing (crashes exc) t picked w seq kind n is_last l a e = rw (forward, e) refl

  -- Only the winner's deployment hears of the end.
  abbrev pub EndsAlone : Winner → RoutingState → RoutingState → Type 0
  EndsAlone w st st' =
      ((stats_for st' (deployment_key w.deployment)).inflight
        ≡ (stats_for st (deployment_key w.deployment)).inflight - 1)
      × ((j : Key) → deployment_key w.deployment ≢ j → SameAt j st' st)

  -- what an ending leaves of the routing state
  abbrev pub Leaves : Winner → Ending → RoutingState → RoutingState → Type 0
  Leaves w completes st st' = EndsAlone w st st'
  Leaves w disconnects st st' = EndsAlone w st st'
  Leaves w (fails exc) st st' = EndsAlone w st st'
  Leaves w (crashes exc) st st' = st' ≡ st

  ended_by-EndsAlone :
      (w : Winner) (e : AttemptEnding) (st : RoutingState)
      → EndsAlone w st (ended_by (deployment_key w.deployment) (some e) st)
  ended_by-EndsAlone w e st = (
    inflight-end_attempt (deployment_key w.deployment) e st,
    λ j ne. end_attempt-SameAt (deployment_key w.deployment) j e st ne,
  )

  ended_by-Leaves :
      (x : Ending) (t : StreamTry) (w : Winner) (l : StreamLocal) (st : RoutingState)
      → Leaves w x st (ended_by (deployment_key w.deployment) (ends_as t w l x) st)
  unfolding ends_as
  ended_by-Leaves completes t w l st = ended_by-EndsAlone w _ st
  ended_by-Leaves disconnects t w l st = ended_by-EndsAlone w _ st
  ended_by-Leaves (fails exc) t w l st = ended_by-EndsAlone w _ st
  ended_by-Leaves (crashes exc) t w l st = refl

  -- When the stream of a winner ends by itself, with an error, or since a poll finds the client gone,
  -- the winner's deployment has one attempt less in flight, if it had any, and the statistics and the
  -- breaker of every other deployment stay, the primary's too if the winner is a hedge of another
  -- deployment; when it is broken off by a cancellation, as when the server finds the client gone, or by
  -- another exception, the whole routing state stays, with the attempt counted.
  pub forward-Leaves :
      (t : StreamTry) (picked : PickResult) (w : Winner) (seq : ℕ) (kind : String) (n : ℕ)
      (is_last : Bool) (l : StreamLocal) (a : App)
      → Leaves w w.feed.ending a.routing
          (routing_at (forward c include_usage flight t picked w seq kind n is_last l a))
  forward-Leaves t picked w seq kind n is_last l a =
      subst (Leaves w w.feed.ending a.routing)
        (sym (forward-routing w.feed.ending t picked w seq kind n is_last l a refl))
        (ended_by-Leaves w.feed.ending t w l a.routing)
