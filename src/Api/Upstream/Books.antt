-- ===== src/Api/Upstream/Books.antt =====
-- A run of the attempts books a response once; a cascade that escalates books its request twice, and one
-- whose draft fails leaves the flight that it leads as it was.
use tide_gate.Prelude.{
  ◌≡◌, ◌∙◌, ap, refl, String, Bool, Option, none, some, List, count_eq, string_eq,
}
use tide_gate.Api.Upstream.{
  settle_left, refund_left, call_upstream, upstream_body, after_attempts, end_attempts,
  close_flight, Run, cache_route, stale_cache,
}
use tide_gate.Cache.Service.{CacheHit}
use tide_gate.Api.Gateway.{
  Context, settle_held, refund_held, Settling, Exit, enqueue_ledger, release_led, App, ChatResult,
  remember, reject_led, returns, raises, exception_text, after_result, gateway, other,
}
use tide_gate.Settlement.Batcher.{LedgerBatcher, enqueue}
use tide_gate.Cache.SingleFlight.{SingleFlight, Flight}
use tide_gate.Api.Ledger.Record.{LedgerRecord, ledger_record}
use tide_gate.Routing.Ladder.{RouteLevel}
use tide_gate.Api.Ledger.{QuotaSettlement}
use tide_gate.Api.NonStream.{Step, Local, continues, breaks, exits}
use tide_gate.Api.NonStream.Books.{Booked, rules-Booked, rules-flights}
use tide_gate.Api.NonStream.Rules.{Post, attempts-Post}
use tide_gate.Api.Gateway.Frame.{release_led-frame, reject_led-frame}

settle_left-ledger :
    (w : Settling) (held : Option QuotaSettlement) (a : App)
    → (settle_left w held a).ledger ≡ a.ledger
unfolding settle_left settle_held
settle_left-ledger w none a = refl
settle_left-ledger w (some p) a = refl

settle_left-flights :
    (w : Settling) (held : Option QuotaSettlement) (a : App)
    → (settle_left w held a).flights ≡ a.flights
unfolding settle_left settle_held
settle_left-flights w none a = refl
settle_left-flights w (some p) a = refl

refund_left-ledger :
    (w : Settling) (held : Option QuotaSettlement) (a : App)
    → (refund_left w held a).ledger ≡ a.ledger
unfolding refund_left refund_held
refund_left-ledger w none a = refl
refund_left-ledger w (some p) a = refl

refund_left-flights :
    (w : Settling) (held : Option QuotaSettlement) (a : App)
    → (refund_left w held a).flights ≡ a.flights
unfolding refund_left refund_held
refund_left-flights w none a = refl
refund_left-flights w (some p) a = refl

module _ (c : Context) (before : LedgerBatcher LedgerRecord) where
  Booked-frame :
      (e : Exit ChatResult) (a b : App)
      → b.ledger ≡ a.ledger
      → Booked c.unified.request_id before e a
      → Booked c.unified.request_id before e b
  Booked-frame (returns r) a b same (entry, mine, h) = (entry, mine, same ∙ h)
  Booked-frame (raises (after_result e)) a b same (entry, mine, h) = (entry, mine, same ∙ h)
  Booked-frame (raises (gateway e)) a b same h = same ∙ h
  Booked-frame (raises (other e)) a b same h = same ∙ h

  after_attempts-Booked :
      (flight : Option Flight) (run : Run) (found : Option CacheHit) (l : Local) (a : App)
      → a.ledger ≡ before
      → let (e, a') = after_attempts c flight run found l a in
        Booked c.unified.request_id before e a'
  unfolding after_attempts enqueue_ledger remember ledger_record
  after_attempts-Booked flight run none l a h = settle_left-ledger run.settling l.held a ∙ h
  after_attempts-Booked flight run (some hit) l a h = (
    ledger_record c.unified hit.response.usage cache_route hit.cache_header (some "stale-cache")
        "degraded" c.settings,
    (refl, refl, refl, refl, refl),
    ap
        (enqueue (
          ledger_record c.unified hit.response.usage cache_route hit.cache_header
            (some "stale-cache") "degraded" c.settings))
        (ap (λ (x : App). x.ledger) (reject_led-frame flight "leader served stale cache" _)
          ∙ refund_left-ledger run.settling l.held a
          ∙ h),
  )

  end_attempts-Booked :
      (flight : Option Flight) (run : Run) (s : Step)
      → Post (λ l a. a.ledger ≡ before) (Booked c.unified.request_id before) s
      → let (e, a') = end_attempts c flight run s in Booked c.unified.request_id before e a'
  unfolding end_attempts
  end_attempts-Booked flight run (continues l a) h =
      after_attempts-Booked flight run (stale_cache c run.stale) l a h
  end_attempts-Booked flight run (breaks l a) h =
      after_attempts-Booked flight run (stale_cache c run.stale) l a h
  end_attempts-Booked flight run (exits e a) h = h

  ended_ledger :
      (flight : Option Flight) (text : String) (a : App)
      → (release_led flight (reject_led flight text a)).ledger ≡ a.ledger
  ended_ledger flight text a =
      ap (λ (x : App). x.ledger) (release_led-frame flight (reject_led flight text a))
      ∙ ap (λ (x : App). x.ledger) (reject_led-frame flight text a)

  close_flight-Booked :
      (flight : Option Flight) (e : Exit ChatResult) (a : App)
      → Booked c.unified.request_id before e a
      → let (e', a') = close_flight c flight (e, a) in Booked c.unified.request_id before e' a'
  unfolding close_flight
  close_flight-Booked flight (returns r) a h =
      Booked-frame (returns r) a (release_led flight a)
        (ap (λ (x : App). x.ledger) (release_led-frame flight a)) h
  close_flight-Booked flight (raises (after_result e)) a h =
      Booked-frame (raises (after_result e)) a (release_led flight a)
        (ap (λ (x : App). x.ledger) (release_led-frame flight a)) h
  close_flight-Booked flight (raises (gateway e)) a h =
      ended_ledger flight (exception_text (gateway e)) a ∙ h
  close_flight-Booked flight (raises (other e)) a h =
      ended_ledger flight (exception_text (other e)) a ∙ h

-- A run of the attempts that returns a response, be it stale, enqueues one ledger record of its request,
-- with the response's usage, route, cache status and degradation; one whose reply could not be stored
-- enqueues one record of its request, too; and one that raises for any other reason enqueues none.
pub call_upstream-Booked :
    (c : Context) (cache_header : String) (flight : Option Flight) (store_cache : Bool)
    (levels : List RouteLevel) (held : Option QuotaSettlement) (run : Run) (a : App)
    → let (e, a') = call_upstream c cache_header flight store_cache levels held run a in
      Booked c.unified.request_id a.ledger e a'
unfolding call_upstream upstream_body
call_upstream-Booked c cache_header flight store_cache levels held run a =
    let (e, a') = upstream_body c cache_header flight store_cache levels held run a in
    close_flight-Booked c a.ledger flight e a' (
      end_attempts-Booked c a.ledger flight run _ (
        attempts-Post c cache_header flight store_cache (λ l b. b.ledger ≡ a.ledger)
          (λ k l p b. b.ledger ≡ a.ledger) (Booked c.unified.request_id a.ledger)
          (rules-Booked c cache_header flight store_cache a.ledger) levels run.tries
          c.settings.routing.max_attempts_before_first_byte 0 _ a (λ j. tt) refl))

module _ (c : Context) (before : SingleFlight) where
  after_attempts-flights :
      (run : Run) (found : Option CacheHit) (l : Local) (a : App)
      → a.flights ≡ before
      → (after_attempts c none run found l a).1.flights ≡ before
  unfolding after_attempts enqueue_ledger remember reject_led
  after_attempts-flights run none l a h = settle_left-flights run.settling l.held a ∙ h
  after_attempts-flights run (some hit) l a h = refund_left-flights run.settling l.held a ∙ h

  end_attempts-flights :
      (run : Run) (s : Step)
      → Post (λ l a. a.flights ≡ before) (λ e a. a.flights ≡ before) s
      → (end_attempts c none run s).1.flights ≡ before
  unfolding end_attempts
  end_attempts-flights run (continues l a) h =
      after_attempts-flights run (stale_cache c run.stale) l a h
  end_attempts-flights run (breaks l a) h =
      after_attempts-flights run (stale_cache c run.stale) l a h
  end_attempts-flights run (exits e a) h = h

  close_flight-flights :
      (e : Exit ChatResult) (a : App)
      → a.flights ≡ before
      → (close_flight c none (e, a)).1.flights ≡ before
  unfolding close_flight release_led reject_led
  close_flight-flights (returns r) a h = h
  close_flight-flights (raises (gateway e)) a h = h
  close_flight-flights (raises (other e)) a h = h
  close_flight-flights (raises (after_result e)) a h = h

pub call_upstream-flights :
    (c : Context) (cache_header : String) (store_cache : Bool) (levels : List RouteLevel)
    (held : Option QuotaSettlement) (run : Run) (a : App)
    → (call_upstream c cache_header none store_cache levels held run a).1.flights ≡ a.flights
unfolding call_upstream upstream_body
call_upstream-flights c cache_header store_cache levels held run a =
    let (e, a') = upstream_body c cache_header none store_cache levels held run a in
    close_flight-flights c a.flights e a' (
      end_attempts-flights c a.flights run _ (
        attempts-Post c cache_header none store_cache (λ l b. b.flights ≡ a.flights)
          (λ k l p b. b.flights ≡ a.flights) (λ e b. b.flights ≡ a.flights)
          (rules-flights c cache_header store_cache a.flights) levels run.tries
          c.settings.routing.max_attempts_before_first_byte 0 _ a (λ j. tt) refl))
