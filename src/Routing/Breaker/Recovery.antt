-- ===== src/Routing/Breaker/Recovery.antt =====
-- From an open breaker whose cooldown is over: successful probes close it.
use tide_gate.Prelude.{ℕ, ◌+◌, ◌≤◌, ◌<◌, ◌≡◌, ap, true, false, arith, List, [], ◌∷◌, length}
use tide_gate.Config.{BreakerConfig}
use tide_gate.Routing.Breaker.{
  closed, open_state, half_open, CircuitBreaker, allow, record_outcome, refresh, trip,
}

-- A failed probe opens the breaker again, for no longer than the longest cooldown.
pub failed_probe_opens :
    (b : CircuitBreaker) (now : ℕ)
    → b.state ≡ half_open
    → let b' = record_outcome b false now in
      (b'.state ≡ open_state)
      × (now ≤ b'.open_until_s)
      × (b'.open_until_s ≤ now + b.config.cooldown_max_s)
      × (b'.open_count ≡ b.open_count + 1)
unfolding record_outcome trip
failed_probe_opens b now s = ground arith

-- one call that the breaker lets through and that succeeds
unfoldable pub probe : CircuitBreaker → ℕ → CircuitBreaker
unfolding allow record_outcome
probe b now = record_outcome (allow b now).1 true now

unfoldable pub probes : CircuitBreaker → List ℕ → CircuitBreaker
probes b [] = b
probes b (now ∷ rest) = probes (probe b now) rest

-- every probe is let through
unfoldable pub AllPass : CircuitBreaker → List ℕ → Type 0
AllPass b [] = Unit
AllPass b (now ∷ rest) = ((allow b now).0 ≡ true) × AllPass (probe b now) rest

-- one more success, which closes the breaker if it is the last that is wanted
probe_step :
    (b : CircuitBreaker) (now : ℕ)
    → b.state ≡ half_open
    → b.half_open_inflight ≡ 0
    → b.half_open_successes + 1 < b.config.half_open_probes
    → let b' = probe b now in
      (b'.state ≡ half_open)
      × (b'.half_open_inflight ≡ 0)
      × (b'.half_open_successes ≡ b.half_open_successes + 1)
      × (b'.config ≡ b.config)
      × ((allow b now).0 ≡ true)
unfolding probe allow
probe_step b now s i h = ground arith

probe_last :
    (b : CircuitBreaker) (now : ℕ)
    → b.state ≡ half_open
    → b.half_open_inflight ≡ 0
    → b.half_open_successes + 1 ≡ b.config.half_open_probes
    → ((probe b now).state ≡ closed)
      × ((probe b now).open_count ≡ 0)
      × ((probe b now).window ≡ [])
      × ((allow b now).0 ≡ true)
unfolding probe allow
probe_last b now s i h = ground arith

probes_half_open :
    (b : CircuitBreaker) (now : ℕ) (rest : List ℕ)
    → b.state ≡ half_open
    → b.half_open_inflight ≡ 0
    → b.half_open_successes + length (now ∷ rest) ≡ b.config.half_open_probes
    → let b' = probes b (now ∷ rest) in
      (b'.state ≡ closed) × (b'.open_count ≡ 0) × (b'.window ≡ []) × AllPass b (now ∷ rest)
unfolding probes AllPass
probes_half_open b now [] s i h =
    let (s', n', w', pass) = probe_last b now s i (omega arith) in (s', n', w', (pass, tt))
probes_half_open b now (t ∷ rest) s i h =
    let (s', i', n', c', pass) = probe_step b now s i (omega arith) in
    let (closed_, zero_, empty, all_) =
      probes_half_open (probe b now) t rest s' i'
        (omega (arith, ap (λ (c : BreakerConfig). c.half_open_probes) c')) in
    (closed_, zero_, empty, (pass, all_))

-- An expired breaker is refreshed first.
probe-refresh :
    (b : CircuitBreaker) (now : ℕ)
    → b.state ≡ open_state
    → b.open_until_s ≤ now
    → (probe b now ≡ probe (refresh b now) now)
      × ((refresh b now).state ≡ half_open)
      × ((refresh b now).half_open_inflight ≡ 0)
      × ((refresh b now).half_open_successes ≡ 0)
      × ((refresh b now).config.half_open_probes ≡ b.config.half_open_probes)
      × (allow b now ≡ allow (refresh b now) now)
unfolding probe refresh allow
probe-refresh b now s t = ground arith

-- An open breaker whose cooldown is over lets through as many calls as it wants probes, if each of them
-- succeeds before the next, and after them it is closed, with an empty window and no openings counted.
pub probes_close :
    (b : CircuitBreaker) (now : ℕ) (rest : List ℕ)
    → b.state ≡ open_state
    → b.open_until_s ≤ now
    → length (now ∷ rest) ≡ b.config.half_open_probes
    → let b' = probes b (now ∷ rest) in
      (b'.state ≡ closed) × (b'.open_count ≡ 0) × (b'.window ≡ []) × AllPass b (now ∷ rest)
unfolding probes AllPass
probes_close b now rest s t h =
    let (same, s', i', n', c', pass) = probe-refresh b now s t in
    let half = probes_half_open (refresh b now) now rest s' i' (omega arith) in
    rw (probes, AllPass, same, pass) half
