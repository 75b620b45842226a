-- ===== src/Api/Handler/Settles.antt =====
-- A request that is not streamed settles what it has reserved, on every way that it can take.
use tide_gate.Quota.Service.{delivered}
use tide_gate.Routing.Ladder.{levels as levels_of}
use tide_gate.Prelude.{
  ◌≡◌, ◌∙◌, refl, String, true, false, Option, none, some, List, string_eq, inl, inr, Option-cases,
  Bool-cases, get_or,
}
use tide_gate.Routing.Cascade.{force_logprobs, cascade_decision, draft_accepted}
use tide_gate.Cache.Service.{CacheHit}
use tide_gate.Api.Gateway.{
  App, Context, remember, enqueue_ledger, Exit, refund_held, raises, resolve_led, returns,
  ChatResult, reject_led, reserve_quota,
}
use tide_gate.Api.Handler.{
  Outside, route_request, serve_cached, serve_shared, lead, follow, after_miss, with_reservation,
  call_with_retries, first_deployment, cache_bypassed,
}
use tide_gate.Routing.Ladder.{RouteLevel}
use tide_gate.Api.Upstream.Settles.{
  Settled, RunReaches, release_led-Settled, call_upstream-Settled, resolve_led-Settled,
  reject_led-Settled,
}
use tide_gate.Cache.SingleFlight.{Flight, acquire}
use tide_gate.Config.{PolicyConfig, CascadeConfig}
use tide_gate.Api.Ledger.{QuotaSettlement}
use tide_gate.Api.Upstream.{Run, call_upstream, after_draft, call_cascade, call_draft}
use tide_gate.Prelude.Dict.{lookup}
use tide_gate.Api.NonStream.Owes.{
  NothingHeld, Owes, Reserves, refund_held-NothingHeld, Arrives, reserve_quota-Reserves,
}
use tide_gate.Core.{UnifiedResponse}

call_draft-Settled :
    (c : Context) (draft_group : Option String) (cache_header : String) (p : QuotaSettlement)
    (run : Run) (a : App)
    → RunReaches run
    → Owes c.unified.request_id (some p) a
    → Settled c.unified.request_id a (call_draft c draft_group cache_header p run a).1
unfolding call_draft force_logprobs
call_draft-Settled c draft_group cache_header p run a reach owes =
    call_upstream-Settled (record c { unified = force_logprobs c.unified }) cache_header none false
      (levels_of c.settings (get_or draft_group c.unified.model) c.tenant) (some p) run a reach owes

trans-Settled :
    (request_id : String) (a b d : App)
    → Settled request_id a b
    → Settled request_id b d
    → Settled request_id a d
trans-Settled request_id a b d (n, s) (m, t) = (m, λ j. t j ∙ s j)

module _ (c : Context) (cache_header : String) (flight : Option Flight) (levels : List RouteLevel)
    (run : Run) (reach : RunReaches run) where
  after_draft-Settled :
      (cascade : CascadeConfig) (e : Exit ChatResult) (before a : App)
      → Settled c.unified.request_id before a
      → Settled c.unified.request_id before
          (after_draft c cascade cache_header flight levels run (e, a)).1
  unfolding after_draft
  after_draft-Settled cascade (raises e) before a h = h
  after_draft-Settled cascade (returns draft) before a h =
      elim (Bool-cases (draft_accepted draft.response cascade)) [
        | inl good ↦
            rw (after_draft, good)
              (release_led-Settled c.unified.request_id before
                (reject_led flight "cascade draft accepted" a) flight
                (reject_led-Settled c.unified.request_id before a flight "cascade draft accepted"
                  h))
        | inr poor ↦
            rw (after_draft, poor)
              (trans-Settled c.unified.request_id before a
                (call_upstream c cache_header flight true levels none run a).1 h
                (call_upstream-Settled c cache_header flight true levels none run a reach h.0))
      ]

  call_cascade-Settled :
      (policy : PolicyConfig) (p : QuotaSettlement) (drafting : Run) (a : App)
      → RunReaches drafting
      → Owes c.unified.request_id (some p) a
      → Settled c.unified.request_id a
          (call_cascade c policy cache_header flight levels p drafting run a).1
  unfolding call_cascade
  call_cascade-Settled policy p drafting a drafts owes =
      let decision = cascade_decision c.unified policy c.settings in
      let draft = call_draft c decision.draft_group cache_header p drafting a in
      elim (Bool-cases decision.enabled) [
        | inl on ↦
            rw (call_cascade, on)
              (after_draft-Settled policy.cascade draft.0 a draft.1
                (call_draft-Settled c decision.draft_group cache_header p drafting a drafts owes))
        | inr off ↦
            rw (call_cascade, off)
              (call_upstream-Settled c cache_header flight true levels (some p) run a reach owes)
      ]

-- What a request needs of the outside.
abbrev pub OutsideReaches : Outside → Type 0
OutsideReaches o =
    (o.reserving ≡ delivered) × Arrives o.settling × RunReaches o.drafting × RunReaches o.run

-- the tenant's policy is configured
abbrev pub HasPolicy : Context → Type 0
HasPolicy c = (policy : PolicyConfig) × (lookup c.tenant.policy c.settings.policies ≡ some policy)

module _ (c : Context) (o : Outside) (known : HasPolicy c) (up : OutsideReaches o) where
  route_request-Settled :
      (cache_header : String) (flight : Option Flight) (levels : List RouteLevel)
      (p : QuotaSettlement) (a : App)
      → Owes c.unified.request_id (some p) a
      → Settled c.unified.request_id a (route_request c o cache_header flight levels p a).1
  unfolding route_request
  route_request-Settled cache_header flight levels p a owes =
      let (policy, found) = known in
      let (reserving, settling, drafting, running) = up in
      rw (route_request, found)
        (call_cascade-Settled c cache_header flight levels o.run running policy p o.drafting a
          drafting owes)

  serve_cached-Settled :
      (hit : CacheHit) (p : QuotaSettlement) (a : App)
      → Owes c.unified.request_id (some p) a
      → Settled c.unified.request_id a (serve_cached c o hit p a).1
  unfolding serve_cached remember enqueue_ledger refund_held
  serve_cached-Settled hit p a owes =
      (refund_held-NothingHeld c.unified.request_id o.settling p a up.1 owes, λ j. refl)

  serve_shared-Settled :
      (response : UnifiedResponse) (p : QuotaSettlement) (a : App)
      → Owes c.unified.request_id (some p) a
      → Settled c.unified.request_id a (serve_shared c o response p a).1
  unfolding serve_shared enqueue_ledger refund_held
  serve_shared-Settled response p a owes =
      (refund_held-NothingHeld c.unified.request_id o.settling p a up.1 owes, λ j. refl)

  lead-Settled :
      (flight : Flight) (levels : List RouteLevel) (p : QuotaSettlement) (a : App)
      → Owes c.unified.request_id (some p) a
      → Settled c.unified.request_id a (lead c o flight levels p a).1
  unfolding lead
  lead-Settled flight levels p a owes = elim (Option-cases o.found_again) [
    | inl missed ↦ rw (lead, missed) (route_request-Settled "miss" (some flight) levels p a owes)
    | inr (hit, found) ↦
        rw (lead, found)
          (release_led-Settled c.unified.request_id a
            (resolve_led (some flight) hit.response (serve_cached c o hit p a).1) (some flight)
            (resolve_led-Settled c.unified.request_id a (serve_cached c o hit p a).1 (some flight)
              hit.response (serve_cached-Settled hit p a owes)))
  ]

  follow-Settled :
      (flight : Flight) (levels : List RouteLevel) (p : QuotaSettlement) (a : App)
      → Owes c.unified.request_id (some p) a
      → Settled c.unified.request_id a (follow c o flight levels p a).1
  unfolding follow
  follow-Settled flight levels p a owes = elim (Option-cases o.shared) [
    | inl late ↦ rw (follow, late) (route_request-Settled "miss" (some flight) levels p a owes)
    | inr (response, found) ↦ rw (follow, found) (serve_shared-Settled response p a owes)
  ]

  after_miss-Settled :
      (flight_key : String) (levels : List RouteLevel) (p : QuotaSettlement) (a : App)
      → Owes c.unified.request_id (some p) a
      → Settled c.unified.request_id a (after_miss c o flight_key levels p a).1
  unfolding after_miss
  after_miss-Settled flight_key levels p a owes =
      let (flight, flights) = acquire flight_key a.flights in
      elim (Bool-cases flight.leader) [
        | inl leads ↦
            rw (after_miss, leads)
              (lead-Settled flight levels p (record a { flights = flights }) owes)
        | inr follows ↦
            rw (after_miss, follows)
              (follow-Settled flight levels p (record a { flights = flights }) owes)
      ]

  with_reservation-Settled :
      (flight_key : String) (levels : List RouteLevel) (e : Exit QuotaSettlement) (a : App)
      → Reserves c.unified.request_id e a
      → Settled c.unified.request_id a (with_reservation c o flight_key levels (e, a)).1
  unfolding with_reservation
  with_reservation-Settled flight_key levels (raises e) a h = (h, λ j. refl)
  with_reservation-Settled flight_key levels (returns p) a h =
      elim (Bool-cases (cache_bypassed c)) [
        | inl skips ↦
            rw (with_reservation, skips) (route_request-Settled "bypass" none levels p a h)
        | inr looks ↦ elim (Option-cases o.found) [
          | inl missed ↦
              rw (with_reservation, looks, missed) (after_miss-Settled flight_key levels p a h)
          | inr (hit, found) ↦ rw (with_reservation, looks, found) (serve_cached-Settled hit p a h)
        ]
      ]

  -- Whatever way a request takes that is not streamed (a hit, another request's flight, the attempts, a
  -- draft and its escalation, a stale answer or an error), if its policy is configured, the provider does
  -- not crash, the calls of Redis arrive and it holds no reservation before, then it leaves no
  -- reservation of its own in Redis, and every deployment has as many attempts in flight as before.
  pub call_with_retries-Settled :
      (flight_key : String) (levels : List RouteLevel) (a : App)
      → NothingHeld c.unified.request_id a
      → Settled c.unified.request_id a (call_with_retries c o flight_key levels a).1
  unfolding call_with_retries reserve_quota
  call_with_retries-Settled flight_key levels a h = elim (Option-cases (first_deployment levels)) [
    | inl missing ↦ rw (call_with_retries, missing) (h, λ j. refl)
    | inr (d, there) ↦
        let held = reserve_quota c o.moment o.reserving o.estimated d a in
        rw (call_with_retries, there)
          (with_reservation-Settled flight_key levels held.0 held.1
            (rw up.0 (reserve_quota-Reserves c o.moment o.estimated d a h)))
  ]
