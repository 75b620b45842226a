-- ===== src/Api/Gateway.antt =====
-- api/routes.py: what the handlers share. The state is that of the application and of one request: the
-- routing, the flights, the request entries, the quota and the tenant's keys, the two ledgers, and the
-- counter of the request's attempts. Metrics, logs and spans are left out.
pub mod Frame
use tide_gate.Prelude.{
  string_eq, ℕ, String, Bool, false, Option, none, some, List, ◌+◌, if◌then◌else◌,
}
use tide_gate.Core.{UnifiedResponse, GatewayError, Usage, UnifiedRequest}
use tide_gate.Routing.Stats.{RoutingState}
use tide_gate.Config.{GatewayConfig, TenantConfig, DeploymentConfig, P2CWeights}
use tide_gate.Quota.Service.{
  plan_missing, Link, Moment, ReserveOutcome, QuotaService, reserve, holds,
}
use tide_gate.Api.Ledger.{AttemptLedgerRecord, QuotaSettlement, settle_once_with, refund_once_with}
use tide_gate.Cache.Entries.{remember_request_entry, RequestEntries}
use tide_gate.Cache.SingleFlight.{Flight, SingleFlight, resolve, reject, release}
use tide_gate.Quota.Estimator.{Estimate}
use tide_gate.Settlement.Batcher.{enqueue, LedgerBatcher, enqueue_and_flush}
use tide_gate.Api.Ledger.Record.{ledger_record, LedgerRecord}
use tide_gate.Quota.Scripts.{TenantQuota}
use tide_gate.Routing.Hedge.{HedgeBudget}
use tide_gate.Cache.Service.{CacheHit}

-- `_ChatResult`; a route is a text
pub record ChatResult : Type 0 where
  pub response : UnifiedResponse
  pub route_header : List ℕ
  pub cache_header : String
  pub degraded : Option String

-- An exception: a `GatewayError`, or another one, such as the cancellation of a request; apart stands one
-- that comes once `_call_non_stream_upstream` has set `result`.
pub data Raised : Type 0 where
  gateway : GatewayError → Raised
  other : String → Raised
  after_result : String → Raised

pub data Exit {ℓ} (A : Type ℓ) : Type ℓ where
  returns : A → Exit A
  raises : Raised → Exit A

-- what a future is rejected with
abbrev pub exception_text : Raised → String
exception_text (gateway e) = e.message
exception_text (other e) = e
exception_text (after_result e) = e

-- `stored` lists the calls of `CacheService.store`, latest first, each with whether it was degraded.
pub record App : Type 0 where
  pub routing : RoutingState
  pub flights : SingleFlight
  pub entries : RequestEntries
  pub quota : QuotaService
  pub keys : TenantQuota
  pub ledger : LedgerBatcher LedgerRecord
  pub attempt_ledger : LedgerBatcher AttemptLedgerRecord
  pub stored : List (UnifiedResponse × Bool)
  pub attempt_seq_next : ℕ
  pub hedge_budget : HedgeBudget

-- What stays the same while a request is handled. The selector has its weights since the start of the
-- application; `entry_capacity` is 10000 in the source.
pub record Context : Type 0 where
  pub settings : GatewayConfig
  pub tenant : TenantConfig
  pub unified : UnifiedRequest
  pub weights : P2CWeights
  pub sample : List DeploymentConfig → DeploymentConfig × DeploymentConfig
  pub entry_capacity : ℕ

-- How the calls of the settle script end.
pub record Settling : Type 0 where
  pub first : Link
  pub second : Link
  pub learn : Option Bool

-- What `provider.chat` does: a crash is an exception that is no `GatewayError`.
pub data Answer : Type 0 where
  replied : UnifiedResponse → Answer
  failed : GatewayError → Answer
  crashed : String → Answer

-- What the outside does in one attempt: the clock at each step, the estimate and the call of a
-- reservation, the provider's answer, and the calls of the settlement.
pub record Try : Type 0 where
  pub picked_at : ℕ
  pub moment : Moment
  pub reserving : Link
  pub estimated : Estimate
  pub started_at : ℕ
  pub answer : Answer
  pub storing : Option String
  pub ttft_s : ℕ
  pub ended_at : ℕ
  pub settling : Settling

-- `_next_attempt_seq`
unfoldable pub next_attempt_seq : App → ℕ × App
next_attempt_seq a = (a.attempt_seq_next, record a { attempt_seq_next = a.attempt_seq_next + 1 })

-- `_enqueue_ledger`
unfoldable pub enqueue_ledger :
    Context → Usage → List ℕ → String → Option String → String → App → App
enqueue_ledger c usage route cache_header degraded outcome a = record a {
  ledger =
      enqueue (ledger_record c.unified usage route cache_header degraded outcome c.settings)
        a.ledger;
}

-- `_enqueue_attempt_record`
unfoldable pub enqueue_attempt_record : AttemptLedgerRecord → App → App
enqueue_attempt_record r a = record a { attempt_ledger = enqueue r a.attempt_ledger }

-- what `_reserve_quota` makes of the service's answer; the service raises a `KeyError` for a plan that
-- is missing
abbrev pub settlement_of : ReserveOutcome → Exit QuotaSettlement
settlement_of (holds r) = returns (record { reservation = r; settled = false; captured = none })
settlement_of (ReserveOutcome.raises e) = raises (gateway e)
settlement_of plan_missing = raises (other "KeyError")

-- `_reserve_quota`
unfoldable pub reserve_quota :
    Context → Moment → Link → Estimate → DeploymentConfig → App → Exit QuotaSettlement × App
reserve_quota c at link estimated d a =
    let (o, s, q) = reserve at link c.tenant c.unified d estimated c.settings a.quota a.keys in
    (settlement_of o, record a { quota = s; keys = q })

-- `settle_once` and `refund_full` of a settlement that is then dropped
unfoldable pub settle_held : Settling → Option Usage → ℕ → QuotaSettlement → App → App
settle_held w usage forwarded p a =
    let (p', s, q) =
      settle_once_with w.first w.second w.learn usage forwarded (p, a.quota, a.keys) in
    record a { quota = s; keys = q }

-- `_flush_ledger`
unfoldable pub flush_ledger : Context → Usage → List ℕ → String → Option String → String → App → App
flush_ledger c usage route cache_header degraded outcome a = record a {
  ledger =
      enqueue_and_flush (λ (r : LedgerRecord). r.request_id)
        (ledger_record c.unified usage route cache_header degraded outcome c.settings) a.ledger;
}

unfoldable pub refund_held : Settling → QuotaSettlement → App → App
refund_held w p a =
    let (p', s, q) = refund_once_with w.first w.second w.learn (p, a.quota, a.keys) in
    record a { quota = s; keys = q }

-- `remember_request_entry`, of the cache service
unfoldable pub remember : Context → Option String → App → App
remember c entry_id a = record a {
  entries = remember_request_entry c.entry_capacity c.unified.request_id entry_id a.entries;
}

-- what the leader of a flight does: `if flight is not None and flight.leader: …`
unfoldable pub resolve_led : Option Flight → UnifiedResponse → App → App
resolve_led none response a = a
resolve_led (some f) response a =
    if f.leader then record a { flights = resolve f response a.flights } else a

unfoldable pub reject_led : Option Flight → String → App → App
reject_led none exc a = a
reject_led (some f) exc a = if f.leader then record a { flights = reject f exc a.flights } else a

unfoldable pub release_led : Option Flight → App → App
release_led none a = a
release_led (some f) a = if f.leader then record a { flights = release f a.flights } else a
