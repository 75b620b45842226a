-- ===== src/Api/Stream/Closes.antt =====
-- A stream that is over without an error has given its flight an outcome.
use tide_gate.Prelude.{
  ℕ, zero, suc, ◌≡◌, sym, refl, String, Bool, true, ◌||◌, Option, none, some, List, ◌∷◌, any, inl,
  inr, Bool-cases, Option-cases, not, string_eq, count_eq, ◌==◌, false, get_or, is_some,
}
use mathlib.Core.Path.{subst}
use tide_gate.Api.Hedged.{
  Ending, completes, fails, disconnects, crashes, lost, settle_kept, StreamStep, StreamLocal,
  continues, StreamTry, Raced, breaks, returned, Winner, won, raised, attempt_kind,
  render_with_hedge,
}
use tide_gate.Core.{GatewayError, Result-cases, Usage, UnifiedResponse}
use tide_gate.Cache.SingleFlight.{Flight, SingleFlight}
use tide_gate.Api.Gateway.{
  after_result, Settling, Context, App, next_attempt_seq, flush_ledger, Exit, reserve_quota,
  returns, gateway, raises, other, enqueue_attempt_record, resolve_led,
}
use tide_gate.Api.Stream.{
  book_stream, on_complete, on_stream_error, forward, after_race, start_stream, with_stream_quota,
  stream_attempt, stream_attempts, on_usage, stream_at, and_stream, reject_missing_usage, rendered,
  forwarded, started_local, stream_store_raises,
}
use tide_gate.Api.NonStream.Closes.{IsDone, reject_led-IsDone, resolve_led-IsDone}
use tide_gate.Routing.Ladder.{RouteLevel}
use tide_gate.Api.Attempts.{PickResult, pick_next_attempt}
use tide_gate.Config.{DeploymentConfig}
use tide_gate.Prelude.Dict.{has_key}
use tide_gate.Api.NonStream.{is_retryable}
use tide_gate.Api.Ledger.{QuotaSettlement, delivered_attempt_record}
use tide_gate.Api.Sse.{StreamAttemptState, is_data}
use tide_gate.Api.NonStream.Rules.{started_app}
use tide_gate.Routing.Stats.{deployment_key, record_start}

-- a step that ends the stream has set the outcome
abbrev pub ReturnedDone : Flight → StreamStep → Type 0
ReturnedDone f (continues l a) = Unit
ReturnedDone f (breaks l a) = Unit
ReturnedDone f (returned l a) = IsDone f a
ReturnedDone f (raised e l a) = Unit

pub settle_kept-flights :
    (s : Settling) (usage : Option Usage) (n : ℕ) (l : StreamLocal) (a : App)
    → (settle_kept s usage n l a).1.flights ≡ a.flights
unfolding settle_kept
settle_kept-flights s usage n l a = elim (Option-cases l.held) [
  | inl none_ ↦ rw (settle_kept, none_) refl
  | inr (p, some_) ↦ rw (settle_kept, some_) refl
]

module _ (c : Context) (include_usage : Bool) (f : Flight) (leads : f.leader ≡ true) where
  book_stream-IsDone :
      (t : StreamTry) (picked : PickResult) (w : Winner) (s : StreamAttemptState)
      (usage : Option Usage) (l : StreamLocal) (a : App)
      → IsDone f (book_stream c include_usage (some f) t picked w s usage l a).1
  unfolding book_stream on_usage reject_missing_usage flush_ledger
  book_stream-IsDone t picked w s none l a =
      reject_led-IsDone f "stream response missing usage" a leads
  book_stream-IsDone t picked w s (some usage) l a =
      let response : UnifiedResponse = record {
        content = s.cacheable_content;
        finish_reason = get_or s.finish_reason "stop";
        usage = usage;
        model = w.deployment.upstream_model;
        mean_logprob = none;
      } in
      let a1 =
        enqueue_attempt_record (delivered_attempt_record c.unified usage w.seq w.kind w.deployment)
          a in
      let a2 = resolve_led (some f) response a1 in
      let a3 : App = record a2 { stored = (response, is_some picked.level.degraded) ∷ a2.stored } in
      let done_ = resolve_led-IsDone f response a1 leads in
      elim (Option-cases t.storing) [
        | inr (exc, raised_) ↦ rw (on_usage, raised_) done_
        | inl fine ↦
            rw (on_usage, fine)
              (subst (λ (x : SingleFlight). has_key f.future x.outcomes ≡ true)
                (sym (settle_kept-flights t.settling (some usage) l.accounting.delta_count l a3))
                done_)
      ]

  on_complete-Done :
      (t : StreamTry) (picked : PickResult) (w : Winner) (s : StreamAttemptState) (l : StreamLocal)
      (a : App)
      → ReturnedDone f (on_complete c include_usage (some f) t picked w s l a)
  unfolding on_complete
  on_complete-Done t picked w s l a =
      let booked = book_stream-IsDone t picked w s l.accounting.usage _ _ in
      elim (Option-cases (stream_store_raises c include_usage (some f) t l.accounting.usage)) [
        | inl fine ↦ rw (on_complete, fine) booked
        | inr (exc, raised_) ↦ rw (on_complete, raised_) tt
      ]

  on_stream_error-Done :
      (t : StreamTry) (d : DeploymentConfig) (seq : ℕ) (kind : String) (n : ℕ) (sent is_last : Bool)
      (exc : GatewayError) (l : StreamLocal) (a : App)
      → ReturnedDone f
          (on_stream_error c include_usage (some f) t d seq kind n sent is_last exc l a)
  unfolding on_stream_error
  on_stream_error-Done t d seq kind n sent is_last exc l a =
      elim (Bool-cases (sent || not (is_retryable exc.category) || is_last)) [
        | inl over_ ↦ rw (on_stream_error, over_) tt
        | inr again ↦ rw (on_stream_error, again) tt
      ]

  forward-Done :
      (x : Ending) (t : StreamTry) (picked : PickResult) (w : Winner) (seq : ℕ) (kind : String)
      (n : ℕ) (is_last : Bool) (l : StreamLocal) (a : App)
      → w.feed.ending ≡ x
      → ReturnedDone f (forward c include_usage (some f) t picked w seq kind n is_last l a)
  unfolding forward
  forward-Done completes t picked w seq kind n is_last l a e =
      rw (forward, e)
        (on_complete-Done t picked w (rendered c include_usage (some f) w l).state
          (forwarded c include_usage (some f) w l) a)
  forward-Done (fails exc) t picked w seq kind n is_last l a e =
      rw (forward, e)
        (on_stream_error-Done t w.deployment seq kind n
          (any is_data (rendered c include_usage (some f) w l).events) is_last exc
          (forwarded c include_usage (some f) w l) a)
  forward-Done disconnects t picked w seq kind n is_last l a e =
      rw (forward, e) (reject_led-IsDone f "client disconnected" _ leads)
  forward-Done (crashes exc) t picked w seq kind n is_last l a e = rw (forward, e) tt

  after_race-Done :
      (x : Raced) (t : StreamTry) (picked : PickResult) (seq : ℕ) (kind : String) (n : ℕ)
      (is_last : Bool) (l : StreamLocal) (a : App)
      → ReturnedDone f (after_race c include_usage (some f) t picked seq kind n is_last l (x, a))
  unfolding after_race
  after_race-Done (won w) t picked seq kind n is_last l a =
      forward-Done w.feed.ending t picked w seq kind n is_last l a refl
  after_race-Done (lost (gateway exc)) t picked seq kind n is_last l a =
      on_stream_error-Done t picked.deployment seq kind n false is_last exc l a
  after_race-Done (lost (other exc)) t picked seq kind n is_last l a = tt
  after_race-Done (lost (after_result exc)) t picked seq kind n is_last l a = tt

  pub start_stream-Done :
      (levels : List RouteLevel) (t : StreamTry) (picked : PickResult) (attempt_count : ℕ)
      (is_last : Bool) (l : StreamLocal) (p : QuotaSettlement) (a : App)
      → ReturnedDone f
          (start_stream c include_usage (some f) levels t picked attempt_count is_last l p a)
  unfolding start_stream next_attempt_seq
  start_stream-Done levels t picked attempt_count is_last l p a =
      let d = picked.deployment in
      let n = p.reservation.estimated.prompt_tokens in
      let kind = attempt_kind attempt_count in
      let o =
        render_with_hedge c levels t l.attempted n d a.attempt_seq_next kind
          (started_app (deployment_key d) t.started_at a) in
      elim (Result-cases (record_start (deployment_key d) t.started_at a.routing).0) [
        | inl (u, ok_) ↦
            rw (start_stream, ok_)
              (after_race-Done o.0 t picked a.attempt_seq_next kind n is_last
                (started_local c include_usage (some f) d l p) o.1)
        | inr (e, no_) ↦ rw (start_stream, no_) tt
      ]

  with_stream_quota-Done :
      (levels : List RouteLevel) (t : StreamTry) (picked : PickResult) (attempt_count : ℕ)
      (is_last : Bool) (l : StreamLocal) (o : Exit QuotaSettlement) (a : App)
      → ReturnedDone f (
          with_stream_quota c include_usage (some f) levels t picked attempt_count is_last l (o, a))
  unfolding with_stream_quota
  with_stream_quota-Done levels t picked attempt_count is_last l (returns p) a =
      start_stream-Done levels t picked attempt_count is_last
        (record l { attempted = deployment_key picked.deployment ∷ l.attempted; held = some p }) p a
  with_stream_quota-Done levels t picked attempt_count is_last l (raises (gateway e)) a = tt
  with_stream_quota-Done levels t picked attempt_count is_last l (raises (other e)) a = tt
  with_stream_quota-Done levels t picked attempt_count is_last l (raises (after_result e)) a = tt

  stream_attempt-Done :
      (levels : List RouteLevel) (t : StreamTry) (attempt_count : ℕ) (is_last : Bool)
      (l : StreamLocal) (a : App)
      → ReturnedDone f (stream_attempt c include_usage (some f) levels t attempt_count is_last l a)
  unfolding stream_attempt stream_at
  stream_attempt-Done levels t attempt_count is_last l a =
      let o =
        pick_next_attempt c.weights c.sample l.attempted t.picked_at l.level_index levels
          a.routing in
      let a' : App = record a { routing = o.1 } in
      elim (Result-cases o.0) [
        | inr (e, none_) ↦ rw (stream_attempt, none_) tt
        | inl (r, ok_) ↦ elim (Option-cases l.held) [
          | inl free ↦
              let q = reserve_quota c t.moment t.reserving t.estimated r.deployment a' in
              rw (stream_attempt, ok_, stream_at, free)
                (with_stream_quota-Done levels t r attempt_count is_last
                  (record l { level_index = r.level_index }) q.0 q.1)
          | inr (p, some_) ↦
              rw (stream_attempt, ok_, stream_at, some_)
                (with_stream_quota-Done levels t r attempt_count is_last
                  (record l { level_index = r.level_index }) (returns p) a')
        ]
      ]

  pub and_stream-Done :
      (rest : StreamLocal → App → StreamStep)
      → ((l : StreamLocal) (a : App) → ReturnedDone f (rest l a))
      → (s : StreamStep) → ReturnedDone f s
      → ReturnedDone f (and_stream c include_usage (some f) rest s)
  and_stream-Done rest h (continues l a) k = h l a
  and_stream-Done rest h (breaks l a) k = k
  and_stream-Done rest h (returned l a) k = k
  and_stream-Done rest h (raised e l a) k = k

  pub stream_attempts-Done :
      (levels : List RouteLevel) (tries : ℕ → StreamTry) (left i : ℕ) (l : StreamLocal) (a : App)
      → ReturnedDone f (stream_attempts c include_usage (some f) levels tries left i l a)
  unfolding stream_attempts
  stream_attempts-Done levels tries zero i l a = tt
  stream_attempts-Done levels tries (suc left) i l a =
      and_stream-Done
        (λ l' a'. stream_attempts c include_usage (some f) levels tries left (suc i) l' a')
        (λ l' a'. stream_attempts-Done levels tries left (suc i) l' a') _
        (stream_attempt-Done levels (tries i) (suc i) (left == 0) l a)
