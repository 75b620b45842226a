-- ===== src/Routing/Stats/Lockout.antt =====
-- A half-open breaker counts the probes that it lets through, and only a recorded outcome gives a
-- slot back: an attempt that is aborted or rate limited keeps its slot.
use tide_gate.Prelude.{ℕ, ◌+◌, ◌≤◌, ◌<◌, ◌≡◌, refl, ◌∙◌, true, false, List, [], ◌∷◌, arith}
use tide_gate.Core.{ok, err, gateway_error, retryable_upstream}
use tide_gate.Routing.Breaker.{half_open, CircuitBreaker, allow, can_try, refresh}
use tide_gate.Routing.Stats.{
  Key, RoutingState, breaker_for, record_start, record_abort, record_rate_limit, refresh_breaker,
}
use tide_gate.Routing.Stats.Access.{access_laws}

-- What happens to a deployment while no outcome is recorded.
pub data Quiet : Type 0 where
  start_at refresh_at : ℕ → Quiet
  abort : Quiet
  rate_limit_at : ℕ → ℕ → Quiet

unfoldable pub quiet : Key → Quiet → RoutingState → RoutingState
quiet k (start_at now) st = (record_start k now st).1
quiet k (refresh_at now) st = (refresh_breaker k now st).1
quiet k abort st = record_abort k st
quiet k (rate_limit_at r now) st = record_rate_limit k r now st

unfoldable pub quiets : Key → List Quiet → RoutingState → RoutingState
unfolding quiet
quiets k [] st = st
quiets k (q ∷ qs) st = quiets k qs (quiet k q st)

abbrev pub Full : CircuitBreaker → Type 0
Full b = (b.state ≡ half_open) × (b.config.half_open_probes ≤ b.half_open_inflight)

allow-Full : (b : CircuitBreaker) (now : ℕ) → Full b → allow b now ≡ (false, b)
unfolding allow
allow-Full b now h = ground arith

refresh-Full : (b : CircuitBreaker) (now : ℕ) → Full b → refresh b now ≡ b
unfolding refresh
refresh-Full b now h = ground arith

record_start-Full :
    (k : Key) (now : ℕ) (st : RoutingState)
    → Full (breaker_for st k)
    → ((record_start k now st).0 ≡ err (gateway_error "no deployment available" retryable_upstream))
      × (breaker_for (record_start k now st).1 k ≡ breaker_for st k)
unfolding record_start
record_start-Full k now st h = rw (allow-Full (breaker_for st k) now h) (refl, simp access_laws)

breaker_for-quiet :
    (k : Key) (q : Quiet) (st : RoutingState)
    → Full (breaker_for st k)
    → breaker_for (quiet k q st) k ≡ breaker_for st k
unfolding quiet
breaker_for-quiet k (start_at now) st h = (record_start-Full k now st h).1
breaker_for-quiet k (refresh_at now) st h =
    unfold refresh_breaker in simp access_laws (refresh-Full (breaker_for st k) now h)
breaker_for-quiet k abort st h = unfold record_abort in simp access_laws
breaker_for-quiet k (rate_limit_at r now) st h = unfold record_rate_limit in simp access_laws

breaker_for-quiets :
    (k : Key) (qs : List Quiet) (st : RoutingState)
    → Full (breaker_for st k)
    → breaker_for (quiets k qs st) k ≡ breaker_for st k
unfolding quiets
breaker_for-quiets k [] st h = refl
breaker_for-quiets k (q ∷ qs) st h =
    let same = breaker_for-quiet k q st h in
    breaker_for-quiets k qs (quiet k q st) (rw same h) ∙ same

-- Once all probe slots of a half-open breaker are taken and no outcome is recorded for them, the
-- deployment stays refused, whatever starts, refreshes, aborts and rate limits follow and however
-- much time passes: the selector's check fails and a start raises.
pub lockout :
    (k : Key) (st : RoutingState) (qs : List Quiet) (now : ℕ)
    → (breaker_for st k).state ≡ half_open
    → (breaker_for st k).config.half_open_probes ≤ (breaker_for st k).half_open_inflight
    → ((can_try (breaker_for (quiets k qs st) k) now).0 ≡ false)
      × ((record_start k now (quiets k qs st)).0
          ≡ err (gateway_error "no deployment available" retryable_upstream))
unfolding can_try
lockout k st qs now s i =
    let same = breaker_for-quiets k qs st (s, i) in
    (rw same (ground arith), (record_start-Full k now (quiets k qs st) (rw same (s, i))).0)

-- the ways in which an attempt ends with no outcome recorded
abbrev pub IsEnd : Quiet → Type 0
IsEnd abort = Unit
IsEnd (rate_limit_at r now) = Unit
IsEnd (start_at now) = ⊥
IsEnd (refresh_at now) = ⊥

breaker_for-end :
    (k : Key) (q : Quiet) (st : RoutingState)
    → IsEnd q
    → breaker_for (quiet k q st) k ≡ breaker_for st k
unfolding quiet
breaker_for-end k (start_at now) st h = absurd h
breaker_for-end k (refresh_at now) st h = absurd h
breaker_for-end k abort st h = unfold record_abort in simp access_laws
breaker_for-end k (rate_limit_at r now) st h = unfold record_rate_limit in simp access_laws

allow_half_open :
    (b : CircuitBreaker) (now : ℕ)
    → b.state ≡ half_open
    → b.half_open_inflight < b.config.half_open_probes
    → (allow b now).0 ≡ true
unfolding allow
allow_half_open b now s i = ground arith

taken :
    (b : CircuitBreaker) (now : ℕ)
    → b.state ≡ half_open
    → b.half_open_inflight < b.config.half_open_probes
    → (allow b now).1 ≡ record b { half_open_inflight = b.half_open_inflight + 1 }
unfolding allow
taken b now s i = ground arith

-- A probe of a half-open breaker that ends in an abort or in a rate limit keeps its slot.
pub ended_probe_keeps_slot :
    (k : Key) (st : RoutingState) (now : ℕ) (q : Quiet)
    → IsEnd q
    → (breaker_for st k).state ≡ half_open
    → (breaker_for st k).half_open_inflight < (breaker_for st k).config.half_open_probes
    → let st' = quiet k q (record_start k now st).1 in
      ((record_start k now st).0 ≡ ok tt)
      × (breaker_for st' k ≡ record (breaker_for st k) {
        half_open_inflight = (breaker_for st k).half_open_inflight + 1;
      })
unfolding record_start
ended_probe_keeps_slot k st now q e s i =
    let go = allow_half_open (breaker_for st k) now s i in
    rw (breaker_for-end k q (record_start k now st).1 e, go)
      (refl, simp access_laws (taken (breaker_for st k) now s i))
