-- ===== src/Api/Upstream/Settles.antt =====
-- A run of the attempts, and a cascade of two, settle what the request holds and count back the attempts
-- that they have started.
use tide_gate.Prelude.{ℕ, ◌≡◌, sym, ap, refl, String, Bool, Option, none, some, List, string_eq}
use tide_gate.Cache.Service.{CacheHit}
use tide_gate.Api.Gateway.{
  App, settle_held, Context, Settling, refund_held, remember, enqueue_ledger, Exit, ChatResult,
  returns, raises, exception_text, reject_led, release_led, resolve_led, after_result, gateway,
  other,
}
use tide_gate.Api.Upstream.{
  Run, call_upstream, refund_left, settle_left, after_attempts, end_attempts, close_flight,
  upstream_body, stale_cache,
}
use tide_gate.Api.NonStream.Owes.{
  NothingHeld, Reaches, Arrives, Owes, refund_held-NothingHeld, settle_held-NothingHeld, LoopOwes,
  LeftNothing, rules-LoopOwes,
}
use mathlib.Core.Path.{subst}
use tide_gate.Api.NonStream.Balance.{SameInflight, OneMore, rules-SameInflight}
use tide_gate.Quota.Scripts.{TenantQuota}
use tide_gate.Core.{UnifiedResponse}
use tide_gate.Api.Ledger.{QuotaSettlement}
use tide_gate.Cache.SingleFlight.{Flight}
use tide_gate.Prelude.Dict.{lookup}
use tide_gate.Api.NonStream.{Step, Local, continues, breaks, exits}
use tide_gate.Routing.Ladder.{RouteLevel}
use tide_gate.Routing.Stats.{RoutingState}
use tide_gate.Api.NonStream.Rules.{Post, attempts-Post}
use tide_gate.Api.Gateway.Frame.{reject_led-frame, release_led-frame, resolve_led-frame}

-- What a request leaves: no reservation of its own in Redis, and as many attempts in flight as before.
abbrev pub Settled : String → App → App → Type 0
Settled request_id before after =
    NothingHeld request_id after × SameInflight before.routing after.routing

-- What a run needs of the outside: the provider does not crash, and the calls of Redis arrive.
abbrev pub RunReaches : Run → Type 0
RunReaches run = ((j : ℕ) → Reaches (run.tries j)) × Arrives run.settling

-- the quota and the routing are all that matters
Settled-frame :
    (request_id : String) (before a b : App)
    → b.keys ≡ a.keys
    → b.routing ≡ a.routing
    → Settled request_id before a
    → Settled request_id before b
Settled-frame request_id before a b k r (nothing, same) = (
  subst (λ (q : TenantQuota). lookup request_id q.resv_data ≡ none) (sym k) nothing,
  subst (λ (st : RoutingState). SameInflight before.routing st) (sym r) same,
)

pub reject_led-Settled :
    (request_id : String) (before a : App) (flight : Option Flight) (exc : String)
    → Settled request_id before a
    → Settled request_id before (reject_led flight exc a)
reject_led-Settled request_id before a flight exc h =
    let same = reject_led-frame flight exc a in
    Settled-frame request_id before a (reject_led flight exc a) (ap (λ (x : App). x.keys) same)
      (ap (λ (x : App). x.routing) same) h

pub resolve_led-Settled :
    (request_id : String) (before a : App) (flight : Option Flight) (v : UnifiedResponse)
    → Settled request_id before a
    → Settled request_id before (resolve_led flight v a)
resolve_led-Settled request_id before a flight v h =
    let same = resolve_led-frame flight v a in
    Settled-frame request_id before a (resolve_led flight v a) (ap (λ (x : App). x.keys) same)
      (ap (λ (x : App). x.routing) same) h

pub release_led-Settled :
    (request_id : String) (before a : App) (flight : Option Flight)
    → Settled request_id before a
    → Settled request_id before (release_led flight a)
release_led-Settled request_id before a flight h =
    let same = release_led-frame flight a in
    Settled-frame request_id before a (release_led flight a) (ap (λ (x : App). x.keys) same)
      (ap (λ (x : App). x.routing) same) h

module _ (c : Context) (before : App) where
  refund_left-Settled :
      (w : Settling) (held : Option QuotaSettlement) (a : App)
      → Arrives w
      → Owes c.unified.request_id held a
      → SameInflight before.routing a.routing
      → Settled c.unified.request_id before (refund_left w held a)
  unfolding refund_left refund_held
  refund_left-Settled w none a up owes same = (owes, same)
  refund_left-Settled w (some p) a up owes same =
      (refund_held-NothingHeld c.unified.request_id w p a up owes, same)

  settle_left-Settled :
      (w : Settling) (held : Option QuotaSettlement) (a : App)
      → Arrives w
      → Owes c.unified.request_id held a
      → SameInflight before.routing a.routing
      → Settled c.unified.request_id before (settle_left w held a)
  unfolding settle_left settle_held
  settle_left-Settled w none a up owes same = (owes, same)
  settle_left-Settled w (some p) a up owes same =
      (settle_held-NothingHeld c.unified.request_id w none 0 p a up owes, same)

  after_attempts-Settled :
      (flight : Option Flight) (run : Run) (found : Option CacheHit) (l : Local) (a : App)
      → Arrives run.settling
      → LoopOwes c.unified.request_id l a
      → SameInflight before.routing a.routing
      → Settled c.unified.request_id before (after_attempts c flight run found l a).1
  unfolding after_attempts remember enqueue_ledger
  after_attempts-Settled flight run none l a up owes same =
      settle_left-Settled run.settling l.held a up owes same
  after_attempts-Settled flight run (some hit) l a up owes same =
      reject_led-Settled c.unified.request_id before
        (remember c hit.semcache_entry_id (refund_left run.settling l.held a)) flight
        "leader served stale cache" (refund_left-Settled run.settling l.held a up owes same)

  end_attempts-Settled :
      (flight : Option Flight) (run : Run) (s : Step)
      → Arrives run.settling
      → Post (LoopOwes c.unified.request_id) (LeftNothing c.unified.request_id) s
      → Post
          (λ l a. SameInflight before.routing a.routing)
          (λ e a. SameInflight before.routing a.routing)
          s
      → Settled c.unified.request_id before (end_attempts c flight run s).1
  unfolding end_attempts
  end_attempts-Settled flight run (continues l a) up owes same =
      after_attempts-Settled flight run (stale_cache c run.stale) l a up owes same
  end_attempts-Settled flight run (breaks l a) up owes same =
      after_attempts-Settled flight run (stale_cache c run.stale) l a up owes same
  end_attempts-Settled flight run (exits e a) up owes same = (owes, same)

  rejected-Settled :
      (flight : Option Flight) (text : String) (a : App)
      → Settled c.unified.request_id before a
      → Settled c.unified.request_id before (release_led flight (reject_led flight text a))
  rejected-Settled flight text a h =
      release_led-Settled c.unified.request_id before (reject_led flight text a) flight
        (reject_led-Settled c.unified.request_id before a flight text h)

  close_flight-Settled :
      (flight : Option Flight) (e : Exit ChatResult) (a : App)
      → Settled c.unified.request_id before a
      → Settled c.unified.request_id before (close_flight c flight (e, a)).1
  unfolding close_flight
  close_flight-Settled flight (returns r) a h =
      release_led-Settled c.unified.request_id before a flight h
  close_flight-Settled flight (raises (after_result e)) a h =
      release_led-Settled c.unified.request_id before a flight h
  close_flight-Settled flight (raises (gateway e)) a h =
      rejected-Settled flight (exception_text (gateway e)) a h
  close_flight-Settled flight (raises (other e)) a h =
      rejected-Settled flight (exception_text (other e)) a h

-- When the attempts of a request are over, and the provider has answered each of them with a response or
-- an error and the calls of Redis have arrived, the request has no reservation left in Redis, and every
-- deployment has as many attempts in flight as before.
pub call_upstream-Settled :
    (c : Context) (cache_header : String) (flight : Option Flight) (store_cache : Bool)
    (levels : List RouteLevel) (held : Option QuotaSettlement) (run : Run) (a : App)
    → RunReaches run
    → Owes c.unified.request_id held a
    → Settled c.unified.request_id a
        (call_upstream c cache_header flight store_cache levels held run a).1
unfolding call_upstream upstream_body
call_upstream-Settled c cache_header flight store_cache levels held run a (reach, up) owes =
    let n = c.settings.routing.max_attempts_before_first_byte in
    close_flight-Settled c a flight _ _ (
      end_attempts-Settled c a flight run _ up
        (attempts-Post c cache_header flight store_cache (LoopOwes c.unified.request_id)
          (λ k l p a. Owes c.unified.request_id (some p) a) (LeftNothing c.unified.request_id)
          (rules-LoopOwes c cache_header flight store_cache) levels run.tries n 0 _ a reach owes)
        (attempts-Post c cache_header flight store_cache (λ l b. SameInflight a.routing b.routing)
          (λ k l p b. OneMore a.routing k b.routing) (λ e b. SameInflight a.routing b.routing)
          (rules-SameInflight c cache_header flight store_cache a.routing) levels run.tries n 0 _ a
          (λ j. (reach j).0) (λ j. refl)))
