-- ===== src/Api/Attempts/Errors.antt =====
-- What the error of an attempt does to the routing state.
use tide_gate.Prelude.{
  zero, suc, count_eq, max, if◌then◌else◌, ℕ, ◌+◌, ◌≡◌, ◌≢◌, refl, Bool, true, false, Option, none,
  some, arith, sym,
}
use mathlib.Core.Path.{subst}
use tide_gate.Core.{
  ErrorCategory, GatewayError, ok, retryable_upstream, rate_limited_upstream, content_blocked,
  timeout_ttft, timeout_stall, timeout_total, quota_exceeded, client_error, internal,
}
use tide_gate.Config.{RoutingConfig}
use tide_gate.Routing.Breaker.{record_outcome}
use tide_gate.Routing.Stats.{
  fast_enough, finish_stats, record_finish, DeploymentStats, Key, RoutingState, stats_for,
  breaker_for, record_abort, record_rate_limit, record_start,
}
use tide_gate.Routing.Stats.Access.{access_laws}
use tide_gate.Routing.Stats.Inflight.{
  Ending, aborted, end_attempt, end_attempt-record_start, finished, rate_limited,
}
use tide_gate.Api.Attempts.{record_route_error, retry_after_or}

-- the errors that count as a failure of the deployment
abbrev pub is_failure : ErrorCategory → Bool
is_failure retryable_upstream = true
is_failure timeout_ttft = true
is_failure timeout_stall = true
is_failure timeout_total = true
is_failure rate_limited_upstream = false
is_failure content_blocked = false
is_failure quota_exceeded = false
is_failure client_error = false
is_failure internal = false

abbrev pub is_limit : ErrorCategory → Bool
is_limit rate_limited_upstream = true
is_limit retryable_upstream = false
is_limit timeout_ttft = false
is_limit timeout_stall = false
is_limit timeout_total = false
is_limit content_blocked = false
is_limit quota_exceeded = false
is_limit client_error = false
is_limit internal = false

-- what is asked for, unless that is nothing or zero
abbrev pub asked_or : Option ℕ → ℕ → ℕ
asked_or none otherwise = otherwise
asked_or (some zero) otherwise = otherwise
asked_or (some (suc asked)) otherwise = suc asked

-- the pause that a rate limit asks for, from the configuration where it asks for none
abbrev pub pause : RoutingConfig → GatewayError → ℕ
pause routing exc = asked_or exc.retry_after_s routing.breaker.open_cooldown_s

retry_after_or-eq-asked_or :
    (asked : Option ℕ) (otherwise : ℕ) → retry_after_or asked otherwise ≡ asked_or asked otherwise
unfolding retry_after_or
retry_after_or-eq-asked_or none otherwise = refl
retry_after_or-eq-asked_or (some zero) otherwise = refl
retry_after_or-eq-asked_or (some (suc asked)) otherwise =
    ground (arith, count_eq.same_iff (suc asked) 0)

module _ (routing : RoutingConfig) (k : Key) (exc : GatewayError) (ttft : Option ℕ) (now : ℕ) where
  unfoldable pub ending : ErrorCategory → Ending
  ending rate_limited_upstream = rate_limited (pause routing exc) now
  ending retryable_upstream = finished false ttft now
  ending timeout_ttft = finished false ttft now
  ending timeout_stall = finished false ttft now
  ending timeout_total = finished false ttft now
  ending content_blocked = aborted
  ending quota_exceeded = aborted
  ending client_error = aborted
  ending internal = aborted

  route_error_at :
      (c : ErrorCategory) (st : RoutingState)
      → exc.category ≡ c
      → record_route_error routing k exc ttft now st ≡ end_attempt k (ending c) st
  unfolding record_route_error ending end_attempt
  route_error_at rate_limited_upstream st e =
      rw
        (
          record_route_error,
          e,
          retry_after_or-eq-asked_or exc.retry_after_s routing.breaker.open_cooldown_s,
        )
        refl
  route_error_at retryable_upstream st e = rw (record_route_error, e) refl
  route_error_at timeout_ttft st e = rw (record_route_error, e) refl
  route_error_at timeout_stall st e = rw (record_route_error, e) refl
  route_error_at timeout_total st e = rw (record_route_error, e) refl
  route_error_at content_blocked st e = rw (record_route_error, e) refl
  route_error_at quota_exceeded st e = rw (record_route_error, e) refl
  route_error_at client_error st e = rw (record_route_error, e) refl
  route_error_at internal st e = rw (record_route_error, e) refl

  pub record_route_error-Ending :
      (st : RoutingState)
      → record_route_error routing k exc ttft now st ≡ end_attempt k (ending exc.category) st
  record_route_error-Ending st = route_error_at exc.category st refl

  not_fast : (r : RoutingConfig) (t : Option ℕ) → fast_enough r false t ≡ false
  unfolding fast_enough
  not_fast r none = refl
  not_fast r (some t) = ground arith

  breaker-failed :
      (st : RoutingState)
      → breaker_for (record_finish k false ttft now st) k
        ≡ record_outcome (breaker_for st k) false now
  unfolding record_finish
  breaker-failed st = simp (access_laws, not_fast st.settings ttft)

  cooldown-finish_stats :
      (r : RoutingConfig) (s : DeploymentStats) (t : Option ℕ)
      → (finish_stats r s false t).cooldown_until_s ≡ s.cooldown_until_s
  unfolding finish_stats
  cooldown-finish_stats r s none = refl
  cooldown-finish_stats r s (some t) = refl

  cooldown-failed :
      (st : RoutingState)
      → (stats_for (record_finish k false ttft now st) k).cooldown_until_s
        ≡ (stats_for st k).cooldown_until_s
  unfolding record_finish
  cooldown-failed st = simp (access_laws, cooldown-finish_stats st.settings (stats_for st k) ttft)

  breaker-ending :
      (c : ErrorCategory) (st : RoutingState)
      → breaker_for (end_attempt k (ending c) st) k
        ≡ (if is_failure c then record_outcome (breaker_for st k) false now else breaker_for st k)
  unfolding ending end_attempt
  breaker-ending rate_limited_upstream st = unfold record_rate_limit in simp access_laws
  breaker-ending retryable_upstream st = breaker-failed st
  breaker-ending timeout_ttft st = breaker-failed st
  breaker-ending timeout_stall st = breaker-failed st
  breaker-ending timeout_total st = breaker-failed st
  breaker-ending content_blocked st = unfold record_abort in simp access_laws
  breaker-ending quota_exceeded st = unfold record_abort in simp access_laws
  breaker-ending client_error st = unfold record_abort in simp access_laws
  breaker-ending internal st = unfold record_abort in simp access_laws

  cooldown-ending :
      (c : ErrorCategory) (st : RoutingState)
      → (stats_for (end_attempt k (ending c) st) k).cooldown_until_s ≡ (
          if is_limit c
          then max (stats_for st k).cooldown_until_s (now + pause routing exc)
          else (stats_for st k).cooldown_until_s)
  unfolding ending end_attempt
  cooldown-ending rate_limited_upstream st = unfold record_rate_limit in simp access_laws
  cooldown-ending retryable_upstream st = cooldown-failed st
  cooldown-ending timeout_ttft st = cooldown-failed st
  cooldown-ending timeout_stall st = cooldown-failed st
  cooldown-ending timeout_total st = cooldown-failed st
  cooldown-ending content_blocked st = unfold record_abort in simp access_laws
  cooldown-ending quota_exceeded st = unfold record_abort in simp access_laws
  cooldown-ending client_error st = unfold record_abort in simp access_laws
  cooldown-ending internal st = unfold record_abort in simp access_laws

  -- What the error of a dispatched attempt makes of the state from before the attempt, and of the one
  -- it was dispatched into; `j` is another deployment.
  abbrev pub Ended : RoutingState → RoutingState → Key → RoutingState → Type 0
  Ended st started j st' =
      ((stats_for st' k).inflight ≡ (stats_for st k).inflight)
      × (stats_for st' j ≡ stats_for st j)
      × (breaker_for st' j ≡ breaker_for st j)
      × (breaker_for st' k ≡ (
          if is_failure exc.category
          then record_outcome (breaker_for started k) false now
          else breaker_for started k))
      × ((stats_for st' k).cooldown_until_s ≡ (
          if is_limit exc.category
          then max (stats_for started k).cooldown_until_s (now + pause routing exc)
          else (stats_for started k).cooldown_until_s))

  -- Whatever the error of an attempt that was let through, once it is recorded the deployment has as
  -- many attempts in flight as before and any other deployment is unchanged; the breaker gets a
  -- failure from a retryable error or a timeout and nothing from any other error; and a rate limit,
  -- but no other error, keeps the deployment out for as long as the error asks, or for the configured
  -- cooldown where it asks for nothing or zero, and never shortens an earlier cooldown.
  pub record_route_error-record_start :
      (start : ℕ) (j : Key) (st : RoutingState)
      → k ≢ j
      → (record_start k start st).0 ≡ ok tt
      → Ended st
          (record_start k start st).1
          j
          (record_route_error routing k exc ttft now (record_start k start st).1)
  record_route_error-record_start start j st ne h =
      let st' = (record_start k start st).1 in
      let (count, others) = end_attempt-record_start k start (ending exc.category) st h in
      let (stats, breaker) = others j ne in
      subst (Ended st st' j) (sym (record_route_error-Ending st'))
        (count, stats, breaker, breaker-ending exc.category st', cooldown-ending exc.category st')
