-- ===== src/Api/NonStream.antt =====
-- api/routes.py: the attempts of a request that is not streamed (`_call_non_stream_upstream`). The
-- outside is a function of the attempt's number, so that a loop has as many attempts as it takes.
pub mod Rules
pub mod Frame
pub mod Closes
pub mod Balance
pub mod Trace
pub mod Books
pub mod Owes
use tide_gate.Prelude.{
  count_eq, ℕ, zero, suc, String, Bool, true, false, Option, none, some, List, ◌∷◌, if◌then◌else◌,
  ◌==◌, is_some,
}
use tide_gate.Api.Ledger.{
  QuotaSettlement, use_deployment, failed_attempt_record, delivered_attempt_record,
}
use tide_gate.Api.Gateway.{
  App, Context, Exit, ChatResult, Try, enqueue_attempt_record, replied, next_attempt_seq, returns,
  failed, raises, after_result, reserve_quota, settle_held, crashed, other, gateway, enqueue_ledger,
  resolve_led,
}
use tide_gate.Core.{
  retryable_upstream, rate_limited_upstream, content_blocked, timeout_ttft, timeout_stall,
  timeout_total, quota_exceeded, client_error, internal, ErrorCategory, GatewayError,
  UnifiedResponse, ok, err,
}
use tide_gate.Routing.Stats.{Key, deployment_key, record_start, record_finish}
use tide_gate.Api.Ledger.Record.{route_header}
use tide_gate.Cache.SingleFlight.{Flight}
use tide_gate.Api.Attempts.{PickResult, pick_next_attempt, record_route_error}
use tide_gate.Routing.Ladder.{RouteLevel}

-- the variables of the loop
pub record Local : Type 0 where
  pub held : Option QuotaSettlement
  pub exclude : List Key
  pub last_error : Option GatewayError
  pub level_index : ℕ

-- how an attempt goes on: to the next one, out of the loop, or out of the function
pub data Step : Type 0 where
  continues : Local → App → Step
  breaks : Local → App → Step
  exits : Exit ChatResult → App → Step

-- what follows an attempt, if the loop goes on
abbrev pub and_then : (Local → App → Step) → Step → Step
and_then rest (continues l a) = rest l a
and_then rest (breaks l a) = breaks l a
and_then rest (exits e a) = exits e a

-- the categories after which another deployment is tried
unfoldable pub is_retryable : ErrorCategory → Bool
is_retryable retryable_upstream = true
is_retryable rate_limited_upstream = true
is_retryable timeout_ttft = true
is_retryable content_blocked = false
is_retryable timeout_stall = false
is_retryable timeout_total = false
is_retryable quota_exceeded = false
is_retryable client_error = false
is_retryable internal = false

abbrev pub kind_of : ℕ → String
kind_of attempt_seq = if attempt_seq == 0 then "primary" else "retry"

abbrev pub outcome_of : Option String → String
outcome_of none = "ok"
outcome_of (some degraded) = "degraded"

module _ (c : Context) (cache_header : String) (flight : Option Flight) (store_cache : Bool) where
  -- `if store_cache: await cache.store(…)`, which may still raise
  unfoldable pub store_result : PickResult → UnifiedResponse → App → App
  store_result picked response a =
      if store_cache
      then record a { stored = (response, is_some picked.level.degraded) ∷ a.stored }
      else a

  -- the exception of the storing, if it comes to that
  unfoldable pub store_raises : Try → Option String
  store_raises t = if store_cache then t.storing else none

  -- what follows a response
  unfoldable pub on_response :
      Try → PickResult → ℕ → UnifiedResponse → QuotaSettlement → App → Exit ChatResult × App
  unfolding store_result store_raises
  on_response t picked seq response p a =
      let d = picked.deployment in
      let route = route_header d in
      let degraded = picked.level.degraded in
      let a1 = settle_held t.settling (some response.usage) response.usage.completion_tokens p a in
      let a2 = record a1 {
        routing = record_finish (deployment_key d) true (some t.ttft_s) t.ended_at a1.routing;
      } in
      let a3 =
        enqueue_attempt_record
          (delivered_attempt_record c.unified response.usage seq (kind_of seq) d) a2 in
      let a4 =
        enqueue_ledger c response.usage route cache_header degraded (outcome_of degraded) a3 in
      let a5 = store_result picked response a4 in
      elim (store_raises t) [
        | some exc ↦ (raises (after_result exc), a5)
        | none ↦ (
          returns (record {
            response = response;
            route_header = route;
            cache_header = cache_header;
            degraded = degraded;
          }),
          resolve_led flight response a5,
        )
      ]

  -- what a `GatewayError` leaves
  unfoldable pub note_failure : Try → PickResult → ℕ → GatewayError → QuotaSettlement → App → App
  note_failure t picked seq exc p a =
      let d = picked.deployment in
      let a1 =
        enqueue_attempt_record
          (failed_attempt_record c.unified p.reservation.estimated.prompt_tokens seq (kind_of seq) d
            exc)
          a in
      let a2 = settle_held t.settling none 0 p a1 in
      record a2 {
        routing =
            record_route_error c.settings.routing (deployment_key d) exc (some t.ttft_s) t.ended_at
              a2.routing;
      }

  -- what follows a `GatewayError`
  unfoldable pub on_error :
      Try → PickResult → ℕ → GatewayError → Local → QuotaSettlement → App → Step
  unfolding is_retryable note_failure
  on_error t picked seq exc l p a =
      let a' = note_failure t picked seq exc p a in
      if is_retryable exc.category
      then continues (record l { held = none; last_error = some exc }) a'
      else exits (raises (gateway exc)) a'

  -- the call of the provider; a crash leaves everything as it is
  unfoldable pub call_provider : Try → PickResult → ℕ → Local → QuotaSettlement → App → Step
  unfolding on_response on_error
  call_provider t picked seq l p a = elim t.answer [
    | replied response ↦ let (e, a') = on_response t picked seq response p a in exits e a'
    | failed exc ↦ on_error t picked seq exc l p a
    | crashed exc ↦ exits (raises (other exc)) a
  ]

  -- from the settlement on: the attempt is started, unless the breaker refuses it
  unfoldable pub start_attempt : Try → PickResult → Local → QuotaSettlement → App → Step
  unfolding call_provider use_deployment
  start_attempt t picked l p a =
      let p' = use_deployment picked.deployment p in
      let (seq, a1) = next_attempt_seq a in
      let (started, routing) =
        record_start (deployment_key picked.deployment) t.started_at a1.routing in
      let a2 = record a1 { routing = routing } in
      let l' = record l { held = some p' } in
      elim started [
        | ok tt ↦ call_provider t picked seq l' p' a2
        | err exc ↦ continues (record l' { last_error = some exc }) a2
      ]

  -- what becomes of the reservation that an attempt may need
  unfoldable pub with_quota : Try → PickResult → Local → Exit QuotaSettlement × App → Step
  unfolding start_attempt
  with_quota t picked l (returns p, a) = start_attempt t picked l p a
  with_quota t picked l (raises e, a) = exits (raises e) a

  -- from the choice of a deployment on: quota is reserved, unless it is held
  unfoldable pub attempt_at : Try → PickResult → Local → App → Step
  unfolding start_attempt with_quota
  attempt_at t picked l a =
      let d = picked.deployment in
      let l' = record l {
        exclude = deployment_key d ∷ l.exclude;
        level_index = picked.level_index;
      } in
      elim l.held [
        | some p ↦ start_attempt t picked l' p a
        | none ↦ with_quota t picked l' (reserve_quota c t.moment t.reserving t.estimated d a)
      ]

  -- one round of the loop
  unfoldable pub attempt : List RouteLevel → Try → Local → App → Step
  unfolding attempt_at
  attempt levels t l a =
      let (picked, routing) =
        pick_next_attempt c.weights c.sample l.exclude t.picked_at l.level_index levels a.routing in
      let a' = record a { routing = routing } in
      elim picked [
        | ok r ↦ attempt_at t r l a'
        | err exc ↦ breaks (record l { last_error = some exc }) a'
      ]

  -- the loop, with the attempts that are left and the number of the next one
  unfoldable pub attempts : List RouteLevel → (ℕ → Try) → ℕ → ℕ → Local → App → Step
  attempts levels tries zero i l a = breaks l a
  attempts levels tries (suc left) i l a =
      and_then (λ l' a'. attempts levels tries left (suc i) l' a') (attempt levels (tries i) l a)
