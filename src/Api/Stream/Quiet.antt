-- ===== src/Api/Stream/Quiet.antt =====
-- A stream goes on to another attempt only while the client has got no data.
use tide_gate.Prelude.{
  ℕ, ◌≡◌, refl, arith, String, Bool, false, ◌||◌, Option, some, List, [], ◌∷◌, ◌++◌, any, inl, inr,
  Bool-cases, Option-cases, not, string_eq,
}
use tide_gate.Api.Hedged.{
  Ending, won, lost, completes, fails, disconnects, crashes, StreamLocal, StreamStep, continues,
  breaks, returned, StreamTry, Raced, raised, Winner, attempt_kind, render_with_hedge,
}
use tide_gate.Api.Sse.{Event, is_data, StreamAttemptState}
use tide_gate.Api.Gateway.{
  after_result, Context, next_attempt_seq, App, gateway, Exit, reserve_quota, other, returns,
  raises,
}
use tide_gate.Cache.SingleFlight.{Flight}
use tide_gate.Api.Stream.{
  on_stream_error, on_complete, forward, after_race, start_stream, with_stream_quota, stream_at,
  stream_attempt, rendered, forwarded, started_local, stream_store_raises,
}
use tide_gate.Routing.Ladder.{RouteLevel}
use tide_gate.Config.{DeploymentConfig}
use tide_gate.Api.Attempts.{PickResult, pick_next_attempt}
use tide_gate.Core.{GatewayError, Result-cases}
use tide_gate.Api.Ledger.{QuotaSettlement}
use tide_gate.Api.NonStream.{is_retryable}
use tide_gate.Routing.Stats.{deployment_key, record_start}
use tide_gate.Api.NonStream.Rules.{started_app}

-- nothing but pings has been sent
abbrev pub Quiet : StreamLocal → Type 0
Quiet l = any is_data l.events ≡ false

-- the step goes on with a stream that is quiet
abbrev pub GoesQuiet : StreamStep → Type 0
GoesQuiet (continues l a) = Quiet l
GoesQuiet (breaks l a) = Unit
GoesQuiet (returned l a) = Unit
GoesQuiet (raised e l a) = Unit

any-append :
    (xs ys : List Event)
    → any is_data xs ≡ false
    → any is_data ys ≡ false
    → any is_data (xs ++ ys) ≡ false
any-append [] ys h k = k
any-append (x ∷ xs) ys h k = ground (arith, any-append xs ys)

module _ (c : Context) (include_usage : Bool) (flight : Option Flight) where
  on_stream_error-GoesQuiet :
      (t : StreamTry) (d : DeploymentConfig) (seq : ℕ) (kind : String) (n : ℕ) (sent is_last : Bool)
      (exc : GatewayError) (l : StreamLocal) (a : App)
      → (sent ≡ false → Quiet l)
      → GoesQuiet (on_stream_error c include_usage flight t d seq kind n sent is_last exc l a)
  unfolding on_stream_error
  on_stream_error-GoesQuiet t d seq kind n sent is_last exc l a h =
      elim (Bool-cases (sent || not (is_retryable exc.category) || is_last)) [
        | inl over_ ↦ rw (on_stream_error, over_) tt
        | inr again ↦ rw (on_stream_error, again) (h (not_sent sent _ is_last again))
      ]
    where
      not_sent : (x y z : Bool) → (x || y || z) ≡ false → x ≡ false
      not_sent x y z e = ground arith

  on_complete-GoesQuiet :
      (t : StreamTry) (picked : PickResult) (w : Winner) (s : StreamAttemptState) (l : StreamLocal)
      (a : App)
      → GoesQuiet (on_complete c include_usage flight t picked w s l a)
  unfolding on_complete
  on_complete-GoesQuiet t picked w s l a =
      elim (Option-cases (stream_store_raises c include_usage flight t l.accounting.usage)) [
        | inl fine ↦ rw (on_complete, fine) tt
        | inr (exc, raised_) ↦ rw (on_complete, raised_) tt
      ]

  forward-GoesQuiet :
      (x : Ending) (t : StreamTry) (picked : PickResult) (w : Winner) (seq : ℕ) (kind : String)
      (n : ℕ) (is_last : Bool) (l : StreamLocal) (a : App)
      → w.feed.ending ≡ x
      → Quiet l
      → GoesQuiet (forward c include_usage flight t picked w seq kind n is_last l a)
  unfolding forward
  forward-GoesQuiet completes t picked w seq kind n is_last l a e h =
      rw (forward, e)
        (on_complete-GoesQuiet t picked w (rendered c include_usage flight w l).state
          (forwarded c include_usage flight w l) a)
  forward-GoesQuiet (fails exc) t picked w seq kind n is_last l a e h =
      let events = (rendered c include_usage flight w l).events in
      rw (forward, e)
        (on_stream_error-GoesQuiet t w.deployment seq kind n (any is_data events) is_last exc
          (forwarded c include_usage flight w l) a (λ none_. any-append l.events events h none_))
  forward-GoesQuiet disconnects t picked w seq kind n is_last l a e h = rw (forward, e) tt
  forward-GoesQuiet (crashes exc) t picked w seq kind n is_last l a e h = rw (forward, e) tt

  after_race-GoesQuiet :
      (x : Raced) (t : StreamTry) (picked : PickResult) (seq : ℕ) (kind : String) (n : ℕ)
      (is_last : Bool) (l : StreamLocal) (a : App)
      → Quiet l
      → GoesQuiet (after_race c include_usage flight t picked seq kind n is_last l (x, a))
  unfolding after_race
  after_race-GoesQuiet (won w) t picked seq kind n is_last l a h =
      forward-GoesQuiet w.feed.ending t picked w seq kind n is_last l a refl h
  after_race-GoesQuiet (lost (gateway exc)) t picked seq kind n is_last l a h =
      on_stream_error-GoesQuiet t picked.deployment seq kind n false is_last exc l a (λ e. h)
  after_race-GoesQuiet (lost (other exc)) t picked seq kind n is_last l a h = tt
  after_race-GoesQuiet (lost (after_result exc)) t picked seq kind n is_last l a h = tt

  pub start_stream-GoesQuiet :
      (levels : List RouteLevel) (t : StreamTry) (picked : PickResult) (attempt_count : ℕ)
      (is_last : Bool) (l : StreamLocal) (p : QuotaSettlement) (a : App)
      → Quiet l
      → GoesQuiet (start_stream c include_usage flight levels t picked attempt_count is_last l p a)
  unfolding start_stream next_attempt_seq
  start_stream-GoesQuiet levels t picked attempt_count is_last l p a h =
      let d = picked.deployment in
      let n = p.reservation.estimated.prompt_tokens in
      let kind = attempt_kind attempt_count in
      let o =
        render_with_hedge c levels t l.attempted n d a.attempt_seq_next kind
          (started_app (deployment_key d) t.started_at a) in
      elim (Result-cases (record_start (deployment_key d) t.started_at a.routing).0) [
        | inl (u, ok_) ↦
            rw (start_stream, ok_)
              (after_race-GoesQuiet o.0 t picked a.attempt_seq_next kind n is_last
                (started_local c include_usage flight d l p) o.1 h)
        | inr (e, no_) ↦ rw (start_stream, no_) h
      ]

  with_stream_quota-GoesQuiet :
      (levels : List RouteLevel) (t : StreamTry) (picked : PickResult) (attempt_count : ℕ)
      (is_last : Bool) (l : StreamLocal) (o : Exit QuotaSettlement) (a : App)
      → Quiet l
      → GoesQuiet
          (with_stream_quota c include_usage flight levels t picked attempt_count is_last l (o, a))
  unfolding with_stream_quota
  with_stream_quota-GoesQuiet levels t picked attempt_count is_last l (returns p) a h =
      start_stream-GoesQuiet levels t picked attempt_count is_last
        (record l { attempted = deployment_key picked.deployment ∷ l.attempted; held = some p }) p a
        h
  with_stream_quota-GoesQuiet levels t picked attempt_count is_last l (raises (gateway e)) a h = tt
  with_stream_quota-GoesQuiet levels t picked attempt_count is_last l (raises (other e)) a h = tt
  with_stream_quota-GoesQuiet levels t picked attempt_count is_last l (raises (after_result e)) a
        h =
      tt

  stream_at-GoesQuiet :
      (levels : List RouteLevel) (t : StreamTry) (picked : PickResult) (attempt_count : ℕ)
      (is_last : Bool) (l : StreamLocal) (a : App)
      → Quiet l
      → GoesQuiet (stream_at c include_usage flight levels t picked attempt_count is_last l a)
  unfolding stream_at
  stream_at-GoesQuiet levels t picked attempt_count is_last l a h =
      let l' : StreamLocal = record l { level_index = picked.level_index } in
      let o = reserve_quota c t.moment t.reserving t.estimated picked.deployment a in
      elim (Option-cases l.held) [
        | inl none_ ↦
            rw (stream_at, none_)
              (with_stream_quota-GoesQuiet levels t picked attempt_count is_last l' o.0 o.1 h)
        | inr (p, some_) ↦
            rw (stream_at, some_)
              (with_stream_quota-GoesQuiet levels t picked attempt_count is_last l' (returns p) a h)
      ]

  -- An attempt of a stream that has sent nothing but pings goes on to another attempt only if it,
  -- too, has sent nothing but pings.
  pub stream_attempt-GoesQuiet :
      (levels : List RouteLevel) (t : StreamTry) (attempt_count : ℕ) (is_last : Bool)
      (l : StreamLocal) (a : App)
      → Quiet l
      → GoesQuiet (stream_attempt c include_usage flight levels t attempt_count is_last l a)
        × ((picked : PickResult) (p : QuotaSettlement)
            → GoesQuiet
                (start_stream c include_usage flight levels t picked attempt_count is_last l p a))
  unfolding stream_attempt
  stream_attempt-GoesQuiet levels t attempt_count is_last l a h =
      let o =
        pick_next_attempt c.weights c.sample l.attempted t.picked_at l.level_index levels
          a.routing in
      (
        elim (Result-cases o.0) [
          | inl (r, ok_) ↦
              rw (stream_attempt, ok_)
                (stream_at-GoesQuiet levels t r attempt_count is_last l (record a { routing = o.1 })
                  h)
          | inr (e, none_) ↦ rw (stream_attempt, none_) tt
        ],
        λ picked p. start_stream-GoesQuiet levels t picked attempt_count is_last l p a h,
      )
