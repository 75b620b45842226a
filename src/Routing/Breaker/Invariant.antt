-- ===== src/Routing/Breaker/Invariant.antt =====
-- The well-formedness of a breaker, and that every operation keeps it.
use tide_gate.Prelude.{
  ℕ, ◌-◌, ◌≤◌, ◌<◌, max, ◌≡◌, ◌≢◌, Bool, List, [], ◌∷◌, ◌++◌, arith, length, length-drop,
}
use tide_gate.Prelude.Int.{ℤ}
use tide_gate.Config.{BreakerConfig}
use tide_gate.Routing.Breaker.{
  closed, half_open, CircuitBreaker, new_breaker, push_window, refresh, can_try, allow,
  record_outcome, force_open,
}

pub record IsValid (b : CircuitBreaker) : Type 0 where
  -- the deque's `maxlen`
  pub window_bounded : length b.window ≤ b.config.window_size
  -- no more probes than the configuration allows
  pub probes_bounded : b.half_open_inflight ≤ b.config.half_open_probes
  -- enough successes have closed the breaker
  pub successes_bounded : b.half_open_successes < max 1 b.config.half_open_probes
  -- probes are counted only while half open
  pub no_probes : b.state ≢ half_open → b.half_open_inflight ≡ 0
  -- closing forgets how often it opened
  pub closed_fresh : b.state ≡ closed → b.open_count ≡ 0

pub new_breaker-IsValid : (config : BreakerConfig) → IsValid (new_breaker config)
new_breaker-IsValid config = ground arith

length-push_window : (n : ℕ) (w : List Bool) (x : Bool) → length (push_window n w x) ≤ n
unfolding push_window
length-push_window n w x = omega (arith, length-drop (length (w ++ x ∷ []) - n) (w ++ x ∷ []))

pub refresh-IsValid : (b : CircuitBreaker) (now : ℕ) → IsValid b → IsValid (refresh b now)
unfolding refresh
refresh-IsValid b now v = ground arith

pub can_try-IsValid : (b : CircuitBreaker) (now : ℕ) → IsValid b → IsValid (can_try b now).1
unfolding can_try
can_try-IsValid b now v = refresh-IsValid b now v

pub allow-IsValid : (b : CircuitBreaker) (now : ℕ) → IsValid b → IsValid (allow b now).1
unfolding allow
allow-IsValid b now v = ground arith

pub force_open-IsValid :
    (b : CircuitBreaker) (now : ℕ) (r : ℤ) → IsValid b → IsValid (force_open b now r)
unfolding force_open
force_open-IsValid b now r v = ground arith

pub record_outcome-IsValid :
    (b : CircuitBreaker) (s : Bool) (now : ℕ) → IsValid b → IsValid (record_outcome b s now)
unfolding record_outcome
record_outcome-IsValid b s now v =
    ground (arith, length-push_window b.config.window_size b.window s)

-- What the routing state calls on a breaker.
pub data Call : Type 0 where
  refresh_at can_try_at allow_at : ℕ → Call
  outcome_at : Bool → ℕ → Call
  force_open_at : ℕ → ℤ → Call

unfoldable pub call : CircuitBreaker → Call → CircuitBreaker
call b (refresh_at now) = refresh b now
call b (can_try_at now) = (can_try b now).1
call b (allow_at now) = (allow b now).1
call b (outcome_at success now) = record_outcome b success now
call b (force_open_at now remaining_s) = force_open b now remaining_s

unfoldable pub calls : CircuitBreaker → List Call → CircuitBreaker
unfolding call
calls b [] = b
calls b (c ∷ cs) = calls (call b c) cs

call-IsValid : (b : CircuitBreaker) (c : Call) → IsValid b → IsValid (call b c)
unfolding call
call-IsValid b (refresh_at now) v = refresh-IsValid b now v
call-IsValid b (can_try_at now) v = can_try-IsValid b now v
call-IsValid b (allow_at now) v = allow-IsValid b now v
call-IsValid b (outcome_at success now) v = record_outcome-IsValid b success now v
call-IsValid b (force_open_at now r) v = force_open-IsValid b now r v

calls-IsValid_from : (cs : List Call) (b : CircuitBreaker) → IsValid b → IsValid (calls b cs)
unfolding calls
calls-IsValid_from [] b v = v
calls-IsValid_from (c ∷ cs) b v = calls-IsValid_from cs (call b c) (call-IsValid b c v)

-- After any calls, in any order and at any times, a new breaker's window holds at most
-- `window_size` samples, at most `half_open_probes` probes are out, fewer than that many have
-- succeeded without closing it, and a closed breaker has forgotten how often it opened.
pub calls-IsValid :
    (config : BreakerConfig) (cs : List Call) → IsValid (calls (new_breaker config) cs)
calls-IsValid config cs = calls-IsValid_from cs (new_breaker config) (new_breaker-IsValid config)
