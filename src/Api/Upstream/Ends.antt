-- ===== src/Api/Upstream/Ends.antt =====
-- A run of the attempts ends the flight that it leads, whatever happens.
use tide_gate.Prelude.{
  ap, ◌∙◌, ◌⊎◌, inl, inr, Bool-cases, ℕ, ◌≡◌, refl, String, Bool, true, Option, none, some, List,
  count_eq, string_eq,
}
use tide_gate.Prelude.Dict.{lookup, lookup-erase_self}
use tide_gate.Api.NonStream.{Step, Local, continues, breaks, exits}
use tide_gate.Cache.Service.{CacheHit}
use tide_gate.Api.Gateway.{
  enqueue_ledger, release_led, Context, App, Exit, ChatResult, returns, raises, reject_led,
  exception_text, after_result, gateway, other,
}
use tide_gate.Core.{Usage}
use tide_gate.Cache.SingleFlight.{release, Flight, SingleFlight}
use tide_gate.Api.Upstream.{
  after_attempts, end_attempts, close_flight, call_upstream, Run, upstream_body, stale_cache,
}
use tide_gate.Api.NonStream.Closes.{IsDone, ReturnsDone, reject_led-IsDone, rules-ReturnsDone}
use tide_gate.Api.NonStream.Rules.{Post, attempts-Post}
use tide_gate.Routing.Ladder.{RouteLevel}
use tide_gate.Api.Ledger.{QuotaSettlement}

enqueue_ledger-flights :
    (c : Context) (usage : Usage) (route : List ℕ) (cache_header : String)
    (degraded : Option String) (outcome : String) (a : App)
    → (enqueue_ledger c usage route cache_header degraded outcome a).flights ≡ a.flights
unfolding enqueue_ledger
enqueue_ledger-flights c usage route cache_header degraded outcome a = refl

pub release_led-Done :
    (f : Flight) (a : App)
    → f.leader ≡ true
    → IsDone f a
    → let a' = release_led (some f) a in (lookup f.key a'.flights.futures ≡ none) × IsDone f a'
unfolding release_led release
release_led-Done f a leads done =
    rw (release_led, leads) (lookup-erase_self f.key a.flights.futures, done)

-- what the storing of a reply has raised
abbrev pub Unstored : Exit ChatResult → Type 0
Unstored e = (exc : String) × (e ≡ raises (after_result exc))

-- The flight's key is free; and its followers have an outcome, or the storing has raised and no outcome
-- has been set since `before`.
abbrev pub Done : Flight → SingleFlight → Exit ChatResult → App → Type 0
Done f before e a =
    (lookup f.key a.flights.futures ≡ none)
    × (IsDone f a ⊎ (Unstored e × (a.flights.outcomes ≡ before.outcomes)))

release_led-outcomes :
    (f : Flight) (a : App) → (release_led (some f) a).flights.outcomes ≡ a.flights.outcomes
unfolding release_led release
release_led-outcomes f a = elim (Bool-cases f.leader) [
  | inl leads ↦ rw (release_led, leads) refl
  | inr follows ↦ rw (release_led, follows) refl
]

release_led-free :
    (f : Flight) (a : App)
    → f.leader ≡ true
    → lookup f.key (release_led (some f) a).flights.futures ≡ none
unfolding release_led release
release_led-free f a leads = rw (release_led, leads) (lookup-erase_self f.key a.flights.futures)

module _ (c : Context) (f : Flight) (leads : f.leader ≡ true) (before : SingleFlight) where
  after_attempts-Done :
      (run : Run) (found : Option CacheHit) (l : Local) (a : App)
      → let (e, a') = after_attempts c (some f) run found l a in ReturnsDone f before e a'
  unfolding after_attempts enqueue_ledger
  after_attempts-Done run none l a = tt
  after_attempts-Done run (some hit) l a = reject_led-IsDone f "leader served stale cache" _ leads

  body_from :
      (run : Run) (s : Step)
      → Post (λ l a. a.flights ≡ before) (ReturnsDone f before) s
      → let (e, a') = end_attempts c (some f) run s in ReturnsDone f before e a'
  unfolding end_attempts
  body_from run (continues l a) h = after_attempts-Done run (stale_cache c run.stale) l a
  body_from run (breaks l a) h = after_attempts-Done run (stale_cache c run.stale) l a
  body_from run (exits e a) h = h

  rejected_and_released :
      (text : String) (e : Exit ChatResult) (a : App)
      → Done f before e (release_led (some f) (reject_led (some f) text a))
  rejected_and_released text e a =
      let (free, done) =
        release_led-Done f (reject_led (some f) text a) leads (reject_led-IsDone f text a leads) in
      (free, inl done)

  close_flight-Done :
      (e : Exit ChatResult) (a : App)
      → ReturnsDone f before e a
      → let (e', a') = close_flight c (some f) (e, a) in Done f before e' a'
  unfolding close_flight
  close_flight-Done (returns r) a h =
      let (free, done) = release_led-Done f a leads h in (free, inl done)
  close_flight-Done (raises (gateway e)) a h =
      rejected_and_released (exception_text (gateway e)) (raises (gateway e)) a
  close_flight-Done (raises (other e)) a h =
      rejected_and_released (exception_text (other e)) (raises (other e)) a
  close_flight-Done (raises (after_result exc)) a h = (
    release_led-free f a leads,
    inr ((exc, refl), release_led-outcomes f a ∙ ap (λ (s : SingleFlight). s.outcomes) h),
  )

-- When the attempts of a request that leads a flight are over, a crash of the provider included, the
-- flight's key is free; and its followers have an outcome, unless an exception of the storing of the
-- reply is raised, in which case no outcome has been set.
pub call_upstream-Done :
    (c : Context) (f : Flight)
    → f.leader ≡ true
    → (cache_header : String) (store_cache : Bool) (levels : List RouteLevel)
      (held : Option QuotaSettlement) (run : Run) (a : App)
    → let (e, a') = call_upstream c cache_header (some f) store_cache levels held run a in
      Done f a.flights e a'
unfolding call_upstream upstream_body
call_upstream-Done c f leads cache_header store_cache levels held run a =
    let (e, a') = upstream_body c cache_header (some f) store_cache levels held run a in
    close_flight-Done c f leads a.flights e a' (
      body_from c f leads a.flights run _ (
        attempts-Post c cache_header (some f) store_cache (λ l b. b.flights ≡ a.flights)
          (λ k l p b. b.flights ≡ a.flights) (ReturnsDone f a.flights)
          (rules-ReturnsDone c cache_header f leads store_cache a.flights) levels run.tries
          c.settings.routing.max_attempts_before_first_byte 0 _ a (λ j. tt) refl))
