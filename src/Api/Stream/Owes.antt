-- ===== src/Api/Stream/Owes.antt =====
-- Every attempt of a stream keeps the settlement that it holds.
use tide_gate.Prelude.{
  zero, suc, count_eq, ◌==◌, ℕ, ◌≡◌, sym, ap, refl, String, Bool, false, Option, none, some, List,
  string_eq, inl, inr, Bool-cases, ◌||◌, not, any, ◌∷◌, Option-cases,
}
use tide_gate.Api.Hedged.{
  Ending, won, lost, completes, fails, disconnects, crashes, StreamTry, StreamLocal, Raced, Winner,
  render_with_hedge, attempt_kind, StreamStep, continues, breaks, returned, raised,
}
use tide_gate.Api.Ledger.{QuotaSettlement, use_deployment, capture_usage}
use tide_gate.Api.Gateway.{
  after_result, Context, flush_ledger, App, enqueue_attempt_record, next_attempt_seq, gateway,
  other, returns,
}
use tide_gate.Quota.Scripts.{TenantQuota}
use tide_gate.Config.{DeploymentConfig}
use tide_gate.Core.{Usage, GatewayError, Result-cases}
use tide_gate.Api.NonStream.Owes.{Arrives}
use tide_gate.Cache.SingleFlight.{Flight}
use tide_gate.Api.Stream.Keeps.{
  Kept, KeptAt, AllSteps, settle_kept-Ends, render_with_hedge-keys, Kept-some,
}
use tide_gate.Api.Stream.{
  on_usage, book_stream, on_complete, on_stream_error, forward, after_race, start_stream,
  reject_missing_usage, rendered, forwarded, started_local, with_stream_quota, stream_at,
  stream_attempt, stream_attempts, and_stream, stream_store_raises,
}
use mathlib.Core.Path.{subst}
use tide_gate.Api.Attempts.{PickResult, pick_next_attempt}
use tide_gate.Routing.Ladder.{RouteLevel}
use tide_gate.Api.Sse.{StreamAttemptState, is_data}
use tide_gate.Api.Gateway.Frame.{reject_led-frame, resolve_led-frame}
use tide_gate.Api.NonStream.Rules.{started_app}
use tide_gate.Routing.Stats.{deployment_key, record_start}
use tide_gate.Api.NonStream.{is_retryable}

-- only the settlement and the keys matter
Kept-keys :
    (request_id : String) (held : Option QuotaSettlement) (q q' : TenantQuota)
    → q' ≡ q
    → Kept request_id held q
    → Kept request_id held q'
Kept-keys request_id held q q' same h = subst (Kept request_id held) (sym same) h

-- a change of the settlement's deployment or usage
Kept-used :
    (request_id : String) (d : DeploymentConfig) (held : Option QuotaSettlement) (q : TenantQuota)
    → Kept request_id held q
    → Kept request_id (elim held [ none ↦ none | some p ↦ some (use_deployment d p) ]) q
unfolding use_deployment
Kept-used request_id d none q h = h
Kept-used request_id d (some p) q h = h

Kept-captured :
    (request_id : String) (usage : Option Usage) (held : Option QuotaSettlement) (q : TenantQuota)
    → Kept request_id held q
    → Kept request_id (elim held [ none ↦ none | some p ↦ some (capture_usage usage p) ]) q
unfolding capture_usage
Kept-captured request_id usage none q h = h
Kept-captured request_id usage (some p) q h = h

-- What an attempt of a stream needs of the outside: that the settle script's calls arrive.
abbrev pub StreamArrives : StreamTry → Type 0
StreamArrives t = Arrives t.settling

module _ (c : Context) (include_usage : Bool) (flight : Option Flight) (request_id : String) where
  on_usage-Kept :
      (t : StreamTry) (picked : PickResult) (w : Winner) (s : StreamAttemptState) (usage : Usage)
      (l : StreamLocal) (a : App)
      → StreamArrives t
      → KeptAt request_id l a
      → let (l', a') = on_usage c include_usage flight t picked w s usage l a in
        KeptAt request_id l' a'
  unfolding on_usage flush_ledger enqueue_attempt_record
  on_usage-Kept t picked w s usage l a up h =
      let same = ap (λ (x : App). x.keys) (resolve_led-frame flight _ _) in
      elim (Option-cases t.storing) [
        | inr (exc, raised_) ↦ rw (on_usage, raised_) (Kept-keys request_id l.held a.keys _ same h)
        | inl fine ↦
            rw (on_usage, fine)
              (settle_kept-Ends request_id t.settling up (some usage) l.accounting.delta_count l _
                (Kept-keys request_id l.held a.keys _ same h)).0
      ]

  booked-Kept :
      (usage : Option Usage) (t : StreamTry) (picked : PickResult) (w : Winner)
      (s : StreamAttemptState) (l : StreamLocal) (a : App)
      → StreamArrives t
      → KeptAt request_id l a
      → let (l', a') = book_stream c include_usage flight t picked w s usage l a in
        KeptAt request_id l' a'
  unfolding book_stream reject_missing_usage
  booked-Kept none t picked w s l a up h =
      Kept-keys request_id l.held a.keys _ (ap (λ (x : App). x.keys) (reject_led-frame flight _ _))
        h
  booked-Kept (some usage) t picked w s l a up h = on_usage-Kept t picked w s usage l a up h

  on_complete-Kept :
      (t : StreamTry) (picked : PickResult) (w : Winner) (s : StreamAttemptState) (l : StreamLocal)
      (a : App)
      → StreamArrives t
      → KeptAt request_id l a
      → AllSteps (KeptAt request_id) (on_complete c include_usage flight t picked w s l a)
  unfolding on_complete
  on_complete-Kept t picked w s l a up h =
      let booked =
        booked-Kept l.accounting.usage t picked w s _ _ up
          (Kept-captured request_id l.accounting.usage l.held a.keys h) in
      elim (Option-cases (stream_store_raises c include_usage flight t l.accounting.usage)) [
        | inl fine ↦ rw (on_complete, fine) booked
        | inr (exc, raised_) ↦ rw (on_complete, raised_) booked
      ]

  on_stream_error-Kept :
      (t : StreamTry) (d : DeploymentConfig) (seq : ℕ) (kind : String) (n : ℕ) (sent is_last : Bool)
      (exc : GatewayError) (l : StreamLocal) (a : App)
      → KeptAt request_id l a
      → AllSteps
          (KeptAt request_id)
          (on_stream_error c include_usage flight t d seq kind n sent is_last exc l a)
  unfolding on_stream_error enqueue_attempt_record
  on_stream_error-Kept t d seq kind n sent is_last exc l a h =
      elim (Bool-cases (sent || not (is_retryable exc.category) || is_last)) [
        | inl over_ ↦ rw (on_stream_error, over_) h
        | inr again ↦ rw (on_stream_error, again) h
      ]

  forward-Kept :
      (x : Ending) (t : StreamTry) (picked : PickResult) (w : Winner) (seq : ℕ) (kind : String)
      (n : ℕ) (is_last : Bool) (l : StreamLocal) (a : App)
      → w.feed.ending ≡ x
      → StreamArrives t
      → KeptAt request_id l a
      → AllSteps
          (KeptAt request_id)
          (forward c include_usage flight t picked w seq kind n is_last l a)
  unfolding forward
  forward-Kept completes t picked w seq kind n is_last l a e up h =
      rw (forward, e)
        (on_complete-Kept t picked w (rendered c include_usage flight w l).state
          (forwarded c include_usage flight w l) a up
          (Kept-used request_id w.deployment l.held a.keys h))
  forward-Kept (fails exc) t picked w seq kind n is_last l a e up h =
      rw (forward, e)
        (on_stream_error-Kept t w.deployment seq kind n
          (any is_data (rendered c include_usage flight w l).events) is_last exc
          (forwarded c include_usage flight w l) a
          (Kept-used request_id w.deployment l.held a.keys h))
  forward-Kept disconnects t picked w seq kind n is_last l a e up h =
      rw (forward, e)
        (Kept-keys request_id _ a.keys _ (ap (λ (x : App). x.keys) (reject_led-frame flight _ _))
          (Kept-used request_id w.deployment l.held a.keys h))
  forward-Kept (crashes exc) t picked w seq kind n is_last l a e up h =
      rw (forward, e) (Kept-used request_id w.deployment l.held a.keys h)

  after_race-Kept :
      (x : Raced) (t : StreamTry) (picked : PickResult) (seq : ℕ) (kind : String) (n : ℕ)
      (is_last : Bool) (l : StreamLocal) (a : App)
      → StreamArrives t
      → KeptAt request_id l a
      → AllSteps
          (KeptAt request_id)
          (after_race c include_usage flight t picked seq kind n is_last l (x, a))
  unfolding after_race
  after_race-Kept (won w) t picked seq kind n is_last l a up h =
      forward-Kept w.feed.ending t picked w seq kind n is_last l a refl up h
  after_race-Kept (lost (gateway exc)) t picked seq kind n is_last l a up h =
      on_stream_error-Kept t picked.deployment seq kind n false is_last exc l a h
  after_race-Kept (lost (other exc)) t picked seq kind n is_last l a up h = h
  after_race-Kept (lost (after_result exc)) t picked seq kind n is_last l a up h = h

  pub start_stream-Kept :
      (levels : List RouteLevel) (t : StreamTry) (picked : PickResult) (attempt_count : ℕ)
      (is_last : Bool) (l : StreamLocal) (p : QuotaSettlement) (a : App)
      → StreamArrives t
      → Kept request_id (some p) a.keys
      → AllSteps
          (KeptAt request_id)
          (start_stream c include_usage flight levels t picked attempt_count is_last l p a)
  unfolding start_stream next_attempt_seq use_deployment
  start_stream-Kept levels t picked attempt_count is_last l p a up h =
      let d = picked.deployment in
      let n = p.reservation.estimated.prompt_tokens in
      let b = started_app (deployment_key d) t.started_at a in
      let o =
        render_with_hedge c levels t l.attempted n d a.attempt_seq_next (attempt_kind attempt_count)
          b in
      elim (Result-cases (record_start (deployment_key d) t.started_at a.routing).0) [
        | inl (u, ok_) ↦
            rw (start_stream, ok_)
              (after_race-Kept o.0 t picked a.attempt_seq_next (attempt_kind attempt_count) n
                is_last (started_local c include_usage flight d l p) o.1 up
                (Kept-keys request_id (some (use_deployment d p)) a.keys _
                  (render_with_hedge-keys c levels t l.attempted n d a.attempt_seq_next
                    (attempt_kind attempt_count) b)
                  h))
        | inr (e, no_) ↦ rw (start_stream, no_) h
      ]

  with_stream_quota-Kept :
      (levels : List RouteLevel) (t : StreamTry) (picked : PickResult) (attempt_count : ℕ)
      (is_last : Bool) (l : StreamLocal) (p : QuotaSettlement) (a : App)
      → StreamArrives t
      → Kept request_id (some p) a.keys
      → AllSteps (KeptAt request_id) (
          with_stream_quota c include_usage flight levels t picked attempt_count is_last l
            (returns p, a))
  unfolding with_stream_quota
  with_stream_quota-Kept levels t picked attempt_count is_last l p a up h =
      start_stream-Kept levels t picked attempt_count is_last
        (record l { attempted = deployment_key picked.deployment ∷ l.attempted; held = some p }) p a
        up h

  stream_at-Kept :
      (levels : List RouteLevel) (t : StreamTry) (picked : PickResult) (attempt_count : ℕ)
      (is_last : Bool) (l : StreamLocal) (a : App)
      → StreamArrives t
      → KeptAt request_id l a
      → AllSteps
          (KeptAt request_id)
          (stream_at c include_usage flight levels t picked attempt_count is_last l a)
  unfolding stream_at
  stream_at-Kept levels t picked attempt_count is_last l a up h =
      let (p, is, kept) = Kept-some request_id t.settling up l.held a.keys h in
      rw (stream_at, is)
        (with_stream_quota-Kept levels t picked attempt_count is_last
          (record l { level_index = picked.level_index }) p a up kept)

  stream_attempt-Kept :
      (levels : List RouteLevel) (t : StreamTry) (attempt_count : ℕ) (is_last : Bool)
      (l : StreamLocal) (a : App)
      → StreamArrives t
      → KeptAt request_id l a
      → AllSteps
          (KeptAt request_id)
          (stream_attempt c include_usage flight levels t attempt_count is_last l a)
  unfolding stream_attempt
  stream_attempt-Kept levels t attempt_count is_last l a up h =
      let o =
        pick_next_attempt c.weights c.sample l.attempted t.picked_at l.level_index levels
          a.routing in
      elim (Result-cases o.0) [
        | inl (r, ok_) ↦
            rw (stream_attempt, ok_)
              (stream_at-Kept levels t r attempt_count is_last l (record a { routing = o.1 }) up h)
        | inr (e, none_) ↦ rw (stream_attempt, none_) h
      ]

  pub and_stream-AllSteps :
      (P : StreamLocal → App → Type 0) (rest : StreamLocal → App → StreamStep) (s : StreamStep)
      → ((l : StreamLocal) (a : App) → P l a → AllSteps P (rest l a))
      → AllSteps P s
      → AllSteps P (and_stream c include_usage flight rest s)
  and_stream-AllSteps P rest (continues l a) goes h = goes l a h
  and_stream-AllSteps P rest (breaks l a) goes h = h
  and_stream-AllSteps P rest (returned l a) goes h = h
  and_stream-AllSteps P rest (raised e l a) goes h = h

  pub stream_attempts-Kept :
      (levels : List RouteLevel) (tries : ℕ → StreamTry) (left i : ℕ) (l : StreamLocal) (a : App)
      → ((j : ℕ) → StreamArrives (tries j))
      → KeptAt request_id l a
      → AllSteps
          (KeptAt request_id)
          (stream_attempts c include_usage flight levels tries left i l a)
  unfolding stream_attempts
  stream_attempts-Kept levels tries zero i l a up h = h
  stream_attempts-Kept levels tries (suc left) i l a up h =
      and_stream-AllSteps (KeptAt request_id) _
        (stream_attempt c include_usage flight levels (tries i) (suc i) (left == 0) l a)
        (λ l' a' h'. stream_attempts-Kept levels tries left (suc i) l' a' up h')
        (stream_attempt-Kept levels (tries i) (suc i) (left == 0) l a (up i) h)
