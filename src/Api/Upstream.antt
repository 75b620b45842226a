-- ===== src/Api/Upstream.antt =====
-- api/routes.py: a run of the attempts, with the stale answer and the end of its flight
-- (`_call_non_stream_upstream`), and the cascade of two runs (`_call_non_stream_with_cascade`).
pub mod Ends
pub mod Settles
pub mod Books
pub mod Cascade
use tide_gate.Prelude.{
  ℕ, String, Bool, true, false, Option, none, some, List, [], if◌then◌else◌, get_or,
}
use tide_gate.Cache.Service.{CacheHit}
use tide_gate.Api.Gateway.{
  Try, Settling, Context, App, Exit, refund_held, settle_held, ChatResult, remember, returns,
  raises, reject_led, release_led, enqueue_ledger, exception_text, gateway, other, after_result,
}
use tide_gate.Core.{GatewayError, gateway_error, retryable_upstream}
use tide_gate.Prelude.Text.{codes}
use tide_gate.Api.Ledger.{QuotaSettlement}
use tide_gate.Cache.SingleFlight.{Flight}
use tide_gate.Config.{CascadeConfig, PolicyConfig}
use tide_gate.Api.NonStream.{Local, attempts, continues, breaks, exits, Step}
use tide_gate.Routing.Ladder.{RouteLevel, policy_of, levels as levels_of}
use tide_gate.Routing.Cascade.{cascade_decision, draft_accepted, force_logprobs}

-- What the outside does in one run of the attempts: the attempts, the stale lookup, and the calls of
-- the settlement at the end.
pub record Run : Type 0 where
  pub tries : ℕ → Try
  pub stale : Option CacheHit
  pub settling : Settling

-- `quota_settle` where it may be missing
unfoldable pub refund_left : Settling → Option QuotaSettlement → App → App
refund_left w none a = a
refund_left w (some p) a = refund_held w p a

unfoldable pub settle_left : Settling → Option QuotaSettlement → App → App
settle_left w none a = a
settle_left w (some p) a = settle_held w none 0 p a

-- `last_error`, or the error of a loop without attempts
abbrev pub error_or_none_available : Option GatewayError → GatewayError
error_or_none_available (some e) = e
error_or_none_available none = gateway_error "no deployment available" retryable_upstream

-- `route_header="cache"`
unfoldable pub cache_route : List ℕ
cache_route = codes "cache"

module _ (c : Context) where
  -- `RoutingLadder.stale_cache`, with what the lookup would find
  unfoldable pub stale_cache : Option CacheHit → Option CacheHit
  stale_cache found =
      if (policy_of c.settings c.tenant).degradation.stale_cache then found else none

  -- what follows the loop: a stale answer, or the last error
  unfoldable pub after_attempts :
      Option Flight → Run → Option CacheHit → Local → App → Exit ChatResult × App
  unfolding refund_left settle_left cache_route
  after_attempts flight run (some hit) l a =
      let a1 = remember c hit.semcache_entry_id (refund_left run.settling l.held a) in
      let a2 = reject_led flight "leader served stale cache" a1 in
      (
        returns (record {
          response = hit.response;
          route_header = cache_route;
          cache_header = hit.cache_header;
          degraded = some "stale-cache";
        }),
        enqueue_ledger c hit.response.usage cache_route hit.cache_header (some "stale-cache")
            "degraded" a2,
      )
  after_attempts flight run none l a =
      (raises (gateway (error_or_none_available l.last_error)), settle_left run.settling l.held a)

  -- what follows the loop, however it ended
  unfoldable pub end_attempts : Option Flight → Run → Step → Exit ChatResult × App
  unfolding after_attempts stale_cache
  end_attempts flight run (continues l a) = after_attempts flight run (stale_cache run.stale) l a
  end_attempts flight run (breaks l a) = after_attempts flight run (stale_cache run.stale) l a
  end_attempts flight run (exits e a) = (e, a)

  abbrev pub first_local : Option QuotaSettlement → Local
  first_local held = record { held = held; exclude = []; last_error = none; level_index = 0 }

  -- the body of the `try` of `_call_non_stream_upstream`
  unfoldable pub upstream_body :
      String
      → Option Flight
      → Bool
      → List RouteLevel
      → Option QuotaSettlement
      → Run
      → App
      → Exit ChatResult × App
  unfolding end_attempts
  upstream_body cache_header flight store_cache levels held run a = end_attempts flight run (
      attempts c cache_header flight store_cache levels run.tries
        c.settings.routing.max_attempts_before_first_byte 0 (first_local held) a)

  -- the `except`, which rejects the flight only if there is no result yet, and the `finally` of
  -- `_call_non_stream_upstream`
  unfoldable pub close_flight : Option Flight → Exit ChatResult × App → Exit ChatResult × App
  close_flight flight (returns r, a) = (returns r, release_led flight a)
  close_flight flight (raises (after_result e), a) = (raises (after_result e), release_led flight a)
  close_flight flight (raises (gateway e), a) =
      (raises (gateway e), release_led flight (reject_led flight (exception_text (gateway e)) a))
  close_flight flight (raises (other e), a) =
      (raises (other e), release_led flight (reject_led flight (exception_text (other e)) a))

  -- `_call_non_stream_upstream`
  unfoldable pub call_upstream :
      String
      → Option Flight
      → Bool
      → List RouteLevel
      → Option QuotaSettlement
      → Run
      → App
      → Exit ChatResult × App
  unfolding upstream_body close_flight
  call_upstream cache_header flight store_cache levels held run a =
      close_flight flight (upstream_body cache_header flight store_cache levels held run a)

  -- what `_call_non_stream_with_cascade` makes of the draft
  unfoldable pub after_draft :
      CascadeConfig
      → String
      → Option Flight
      → List RouteLevel
      → Run
      → Exit ChatResult × App
      → Exit ChatResult × App
  after_draft cascade cache_header flight levels run (raises e, a) = (raises e, a)
  after_draft cascade cache_header flight levels run (returns draft, a) =
      let escalated = call_upstream cache_header flight true levels none run a in
      if draft_accepted draft.response cascade
      then (returns draft, release_led flight (reject_led flight "cascade draft accepted" a))
      else escalated

-- the draft of `_call_non_stream_with_cascade`
unfoldable pub call_draft :
    Context → Option String → String → QuotaSettlement → Run → App → Exit ChatResult × App
unfolding call_upstream
call_draft c draft_group cache_header held drafting a =
    call_upstream (record c { unified = force_logprobs c.unified }) cache_header none false
      (levels_of c.settings (get_or draft_group c.unified.model) c.tenant) (some held) drafting a

-- `_call_non_stream_with_cascade`, for a policy that is there
unfoldable pub call_cascade :
    Context
    → PolicyConfig
    → String
    → Option Flight
    → List RouteLevel
    → QuotaSettlement
    → Run
    → Run
    → App
    → Exit ChatResult × App
unfolding call_draft call_upstream after_draft
call_cascade c policy cache_header flight levels held drafting run a =
    let decision = cascade_decision c.unified policy c.settings in
    let draft = call_draft c decision.draft_group cache_header held drafting a in
    if decision.enabled
    then after_draft c policy.cascade cache_header flight levels run draft
    else call_upstream c cache_header flight true levels (some held) run a
