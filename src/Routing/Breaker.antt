-- ===== src/Routing/Breaker.antt =====
-- routing/breaker.py: the circuit breaker of one deployment. Its proofs are in the modules below.
-- The window holds at least one sample where the rate is taken (the source divides by its length).
pub mod Invariant
pub mod Recovery
mod Tests
use tide_gate.Prelude.{
  ℕ, ◌+◌, ◌-◌, ◌*◌, ◌^◌, min, Bool, true, false, not, List, [], ◌∷◌, ◌++◌, ltb, leb, if◌then◌else◌,
  length, drop, count_if,
}
use tide_gate.Prelude.Int.{ℤ, pos_part}
use tide_gate.Config.{BreakerConfig}

pub data BreakerState : Type 0 where
  closed open_state half_open : BreakerState

-- `window` stands oldest first.
pub record CircuitBreaker : Type 0 where
  pub config : BreakerConfig
  pub state : BreakerState
  pub window : List Bool
  pub open_count : ℕ
  pub open_until_s : ℕ
  pub half_open_inflight : ℕ
  pub half_open_successes : ℕ

-- `CircuitBreaker(config)`
abbrev pub new_breaker : BreakerConfig → CircuitBreaker
new_breaker config = record {
  config = config;
  state = closed;
  window = [];
  open_count = 0;
  open_until_s = 0;
  half_open_inflight = 0;
  half_open_successes = 0;
}

-- Python's `deque(maxlen=n).append(x)`: a full deque drops its oldest element.
unfoldable pub push_window : ℕ → List Bool → Bool → List Bool
push_window n w x = let all : List Bool = w ++ x ∷ [] in drop (length all - n) all

-- `failures / len(window) >= rate`, multiplied out
unfoldable pub should_open : CircuitBreaker → Bool
should_open b =
    if ltb (length b.window) b.config.min_samples
    then false
    else leb (b.config.failure_rate_to_open.num * length b.window)
        (count_if not b.window * b.config.failure_rate_to_open.den)

-- `CircuitBreaker._open`
unfoldable pub trip : CircuitBreaker → ℕ → CircuitBreaker
trip b now_s = record b {
  state = open_state;
  open_count = b.open_count + 1;
  open_until_s =
      now_s + min b.config.cooldown_max_s (b.config.open_cooldown_s * 2 ^ (b.open_count + 1 - 1));
  half_open_inflight = 0;
  half_open_successes = 0;
}

-- `CircuitBreaker._close`
unfoldable pub reset : CircuitBreaker → CircuitBreaker
reset b = record b {
  state = closed;
  window = [];
  open_count = 0;
  half_open_inflight = 0;
  half_open_successes = 0;
}

unfoldable pub refresh : CircuitBreaker → ℕ → CircuitBreaker
refresh b now_s = elim b.state [
  | open_state ↦
      if ltb now_s b.open_until_s
      then b
      else record b { state = half_open; half_open_inflight = 0; half_open_successes = 0 }
  | closed ↦ b
  | half_open ↦ b
]

-- the test that `can_try` and `allow` make after the refresh
unfoldable pub has_room : CircuitBreaker → Bool
has_room b = elim b.state [
  | closed ↦ true
  | half_open ↦ ltb b.half_open_inflight b.config.half_open_probes
  | open_state ↦ false
]

unfoldable pub can_try : CircuitBreaker → ℕ → Bool × CircuitBreaker
unfolding refresh has_room
can_try b now_s = let b' = refresh b now_s in (has_room b', b')

-- the slot that a probe takes
unfoldable pub take_slot : CircuitBreaker → CircuitBreaker
take_slot b = elim b.state [
  | half_open ↦ record b { half_open_inflight = b.half_open_inflight + 1 }
  | closed ↦ b
  | open_state ↦ b
]

unfoldable pub allow : CircuitBreaker → ℕ → Bool × CircuitBreaker
unfolding refresh has_room take_slot
allow b now_s =
    let b' = refresh b now_s in if has_room b' then (true, take_slot b') else (false, b')

-- the success branch of a probe's record
unfoldable pub probe_succeeded : CircuitBreaker → CircuitBreaker
unfolding reset
probe_succeeded b =
    let b' = record b { half_open_successes = b.half_open_successes + 1 } in
    if leb b.config.half_open_probes b'.half_open_successes then reset b' else b'

-- the branch of `record` for a breaker that is not half open
unfoldable pub record_sample : CircuitBreaker → Bool → ℕ → CircuitBreaker
unfolding push_window should_open trip
record_sample b success now_s =
    let b' = record b { window = push_window b.config.window_size b.window success } in
    elim b.state [
      | closed ↦ if should_open b' then trip b' now_s else b'
      | open_state ↦ b'
      | half_open ↦ b'
    ]

-- `CircuitBreaker.record`
unfoldable pub record_outcome : CircuitBreaker → Bool → ℕ → CircuitBreaker
unfolding probe_succeeded record_sample trip
record_outcome b success now_s = elim b.state [
  | half_open ↦
      let b' = record b { half_open_inflight = b.half_open_inflight - 1 } in
      if success then probe_succeeded b' else trip b' now_s
  | closed ↦ record_sample b success now_s
  | open_state ↦ record_sample b success now_s
]

unfoldable pub force_open : CircuitBreaker → ℕ → ℤ → CircuitBreaker
force_open b now_s remaining_s = record b {
  state = open_state;
  open_until_s = now_s + pos_part remaining_s;
  half_open_inflight = 0;
  half_open_successes = 0;
}
