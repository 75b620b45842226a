-- ===== src/Cache/SingleFlight.antt =====
-- cache/singleflight.py: concurrent misses of one key share one flight. A future is a number, in the
-- order of creation, and its outcome is set once.
pub mod Sharing
mod Tests
use tide_gate.Prelude.{
  ℕ, ◌+◌, String, string_eq, count_eq, Bool, true, false, Option, none, some, List, [],
  if◌then◌else◌, is_some, length,
}
use tide_gate.Prelude.Dict.{Dict, lookup, insert, erase, has_key}
use tide_gate.Core.{GatewayError, UnifiedResponse}

-- What a future holds when it is done: an exception need not be a `GatewayError`.
pub data Outcome : Type 0 where
  result : UnifiedResponse → Outcome
  exception : String → Outcome

pub record Flight : Type 0 where
  pub key : String
  pub future : ℕ
  pub leader : Bool

-- `futures` is the dict of the class; `created` and `outcomes` are the futures that exist.
pub record SingleFlight : Type 0 where
  pub futures : Dict String ℕ
  pub created : ℕ
  pub outcomes : Dict ℕ Outcome

abbrev pub no_flights : SingleFlight
no_flights = record { futures = []; created = 0; outcomes = [] }

unfoldable pub acquire : String → SingleFlight → Flight × SingleFlight
acquire key s = elim (lookup key s.futures) [
  | some future ↦ (record { key = key; future = future; leader = false }, s)
  | none ↦ (
    record { key = key; future = s.created; leader = true },
    record s { futures = insert key s.created s.futures; created = s.created + 1 },
  )
]

-- `if not flight.future.done(): …`
unfoldable pub set_outcome : ℕ → Outcome → SingleFlight → SingleFlight
set_outcome future o s =
    if has_key future s.outcomes then s else record s { outcomes = insert future o s.outcomes }

unfoldable pub resolve : Flight → UnifiedResponse → SingleFlight → SingleFlight
unfolding set_outcome
resolve flight value s = set_outcome flight.future (result value) s

unfoldable pub reject : Flight → String → SingleFlight → SingleFlight
unfolding set_outcome
reject flight exc s = set_outcome flight.future (exception exc) s

-- `self._futures.pop(flight.key, None)`
unfoldable pub release : Flight → SingleFlight → SingleFlight
release flight s = record s { futures = erase flight.key s.futures }

unfoldable pub pending_count : SingleFlight → ℕ
pending_count s = length s.futures
