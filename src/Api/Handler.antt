-- ===== src/Api/Handler.antt =====
-- api/routes.py: a request that is not streamed, from its reservation to its response
-- (`_call_non_stream_with_retries`).
pub mod Settles
mod Tests
use tide_gate.Prelude.{
  [], ◌∷◌, string_eq, List, String, Bool, Option, is_some, none, some, if◌then◌else◌, ◌||◌, ◌∷◌,
  not,
}
use tide_gate.Cache.SingleFlight.{Flight, acquire}
use tide_gate.Quota.Service.{Moment, Link}
use tide_gate.Cache.Service.{CacheHit}
use tide_gate.Api.Gateway.{
  Context, Exit, App, Settling, ChatResult, remember, returns, raises, refund_held, enqueue_ledger,
  other, release_led, resolve_led, reserve_quota,
}
use tide_gate.Routing.Ladder.{RouteLevel}
use tide_gate.Api.Upstream.{cache_route, call_cascade, Run}
use tide_gate.Quota.Estimator.{Estimate}
use tide_gate.Core.{UnifiedResponse}
use tide_gate.Api.Ledger.{QuotaSettlement}
use tide_gate.Cache.Gates.{read_decision}
use tide_gate.Config.{DeploymentConfig}
use tide_gate.Prelude.Dict.{lookup}

-- the deployment that the first reservation is made with: `levels[0].group.deployments[0]`
abbrev pub first_deployment : List RouteLevel → Option DeploymentConfig
first_deployment [] = none
first_deployment (level ∷ levels) = elim level.group.deployments [ [] ↦ none | d ∷ ds ↦ some d ]

-- What the outside does with a request: the first reservation, the lookup and the one of a leader, the
-- response that a follower waits for if it comes in time, and the runs of the attempts.
pub record Outside : Type 0 where
  pub moment : Moment
  pub reserving : Link
  pub estimated : Estimate
  pub found : Option CacheHit
  pub found_again : Option CacheHit
  pub shared : Option UnifiedResponse
  pub settling : Settling
  pub drafting : Run
  pub run : Run

-- `_cache_bypassed`
unfoldable pub cache_bypassed : Context → Bool
cache_bypassed c =
    let decision = read_decision c.unified c.tenant c.settings in
    is_some decision.bypass_reason || not decision.l1

module _ (c : Context) (outside : Outside) where
  -- the answer from the cache
  unfoldable pub serve_cached : CacheHit → QuotaSettlement → App → Exit ChatResult × App
  unfolding cache_route
  serve_cached hit p a =
      let a1 = remember c hit.semcache_entry_id (refund_held outside.settling p a) in
      (
        returns (record {
          response = hit.response;
          route_header = cache_route;
          cache_header = hit.cache_header;
          degraded = none;
        }),
        enqueue_ledger c hit.response.usage cache_route hit.cache_header none "cached" a1,
      )

  -- the answer of another request's flight
  unfoldable pub serve_shared : UnifiedResponse → QuotaSettlement → App → Exit ChatResult × App
  unfolding cache_route
  serve_shared response p a = (
    returns (record {
      response = response;
      route_header = cache_route;
      cache_header = "hit-exact";
      degraded = none;
    }),
    enqueue_ledger c response.usage cache_route "hit-exact" none "cached"
        (refund_held outside.settling p a),
  )

  -- `settings.policies[tenant.policy]`, and the cascade
  unfoldable pub route_request :
      String → Option Flight → List RouteLevel → QuotaSettlement → App → Exit ChatResult × App
  unfolding call_cascade
  route_request cache_header flight levels p a = elim (lookup c.tenant.policy c.settings.policies) [
    | none ↦ (raises (other "KeyError"), a)
    | some policy ↦
        call_cascade c policy cache_header flight levels p outside.drafting outside.run a
  ]

  -- what a leader does: it looks into the cache once more
  unfoldable pub lead : Flight → List RouteLevel → QuotaSettlement → App → Exit ChatResult × App
  unfolding serve_cached route_request
  lead flight levels p a = elim outside.found_again [
    | some hit ↦
        let (e, a') = serve_cached hit p a in
        (e, release_led (some flight) (resolve_led (some flight) hit.response a'))
    | none ↦ route_request "miss" (some flight) levels p a
  ]

  -- what a follower does: without an answer in time it goes on alone
  unfoldable pub follow : Flight → List RouteLevel → QuotaSettlement → App → Exit ChatResult × App
  unfolding serve_shared route_request
  follow flight levels p a = elim outside.shared [
    | some response ↦ serve_shared response p a
    | none ↦ route_request "miss" (some flight) levels p a
  ]

  -- what follows a lookup that found nothing
  unfoldable pub after_miss :
      String → List RouteLevel → QuotaSettlement → App → Exit ChatResult × App
  unfolding lead follow
  after_miss flight_key levels p a =
      let (flight, flights) = acquire flight_key a.flights in
      let a' = record a { flights = flights } in
      if flight.leader then lead flight levels p a' else follow flight levels p a'

  -- what follows the reservation
  unfoldable pub with_reservation :
      String → List RouteLevel → Exit QuotaSettlement × App → Exit ChatResult × App
  unfolding route_request serve_cached after_miss cache_bypassed
  with_reservation flight_key levels (raises e, a) = (raises e, a)
  with_reservation flight_key levels (returns p, a) =
      if cache_bypassed c then route_request "bypass" none levels p a else elim outside.found [
        | some hit ↦ serve_cached hit p a
        | none ↦ after_miss flight_key levels p a
      ]

  -- `_call_non_stream_with_retries`
  unfoldable pub call_with_retries : String → List RouteLevel → App → Exit ChatResult × App
  unfolding with_reservation
  call_with_retries flight_key levels a = elim (first_deployment levels) [
    | none ↦ (raises (other "IndexError"), a)
    | some d ↦
        with_reservation flight_key levels
          (reserve_quota c outside.moment outside.reserving outside.estimated d a)
  ]
