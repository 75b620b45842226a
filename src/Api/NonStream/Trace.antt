-- ===== src/Api/NonStream/Trace.antt =====
-- What the attempts come to, told by the provider's answers alone.
use tide_gate.Prelude.{◌⊎◌, none, ℕ, zero, suc, ◌≡◌, String, List, some}
use tide_gate.Api.Gateway.{
  Try, Context, App, failed, returns, raises, replied, gateway, ChatResult, crashed, other, Raised,
  reserve_quota, after_result,
}
use tide_gate.Api.NonStream.{Step, Local, continues, breaks, exits}
use tide_gate.Routing.Ladder.{RouteLevel}
use tide_gate.Core.{
  GatewayError, ErrorCategory, Result, ok, err, retryable_upstream, UnifiedResponse,
  rate_limited_upstream, timeout_ttft,
}
use tide_gate.Api.Attempts.{PickResult, pick_next_attempt}
use tide_gate.Routing.Stats.{record_start, deployment_key, RoutingState}

-- the errors after which another deployment is tried
abbrev pub Again : ErrorCategory → Type 0
Again x = (x ≡ retryable_upstream) ⊎ (x ≡ rate_limited_upstream) ⊎ (x ≡ timeout_ttft)

module _ (c : Context) (levels : List RouteLevel) where
  -- what is chosen for an attempt, and the routing state after the choice
  abbrev pub chosen : Try → Local → App → Result PickResult × RoutingState
  chosen t l a =
      pick_next_attempt c.weights c.sample l.exclude t.picked_at l.level_index levels a.routing

  -- what the breaker of the chosen deployment says
  abbrev pub admission : Try → Local → App → PickResult → Result {0} Unit
  admission t l a picked =
      (record_start (deployment_key picked.deployment) t.started_at (chosen t l a).1).0

  -- the attempt reaches the provider
  abbrev pub Reaches : Try → Local → App → Type 0
  Reaches t l a =
      (picked : PickResult) × ((chosen t l a).0 ≡ ok picked) × (admission t l a picked ≡ ok tt)

  -- How one attempt goes on: nothing is left to choose; no quota is reserved for what is chosen; the
  -- breaker refuses it; or the provider is reached, and fails with an error after which another
  -- deployment is tried, or with another error, or replies, or crashes; the reply may be kept from being
  -- returned by an exception of its storing.
  pub data Shape (t : Try) (l : Local) (a : App) : Step → Type 0 where
    none_left :
        (exc : GatewayError) (a' : App)
        → (chosen t l a).0 ≡ err exc
        → Shape t l a (breaks (record l { last_error = some exc }) a')
    unreserved :
        (picked : PickResult) (e : Raised) (a' : App)
        → (chosen t l a).0 ≡ ok picked
        → l.held ≡ none
        → (reserve_quota c t.moment t.reserving t.estimated picked.deployment
            (record a { routing = (chosen t l a).1 })).0
          ≡ raises e
        → Shape t l a (exits (raises e) a')
    refused :
        (picked : PickResult) (exc : GatewayError) (l' : Local) (a' : App)
        → (chosen t l a).0 ≡ ok picked
        → admission t l a picked ≡ err exc
        → l'.last_error ≡ some exc
        → Shape t l a (continues l' a')
    retried :
        (exc : GatewayError) (l' : Local) (a' : App)
        → Reaches t l a
        → t.answer ≡ failed exc
        → Again exc.category
        → l'.last_error ≡ some exc
        → Shape t l a (continues l' a')
    failed_with :
        (exc : GatewayError) (a' : App)
        → Reaches t l a
        → t.answer ≡ failed exc
        → ¬ (Again exc.category)
        → Shape t l a (exits (raises (gateway exc)) a')
    replied_with :
        (r : ChatResult) (a' : App)
        → Reaches t l a
        → t.answer ≡ replied r.response
        → Shape t l a (exits (returns r) a')
    unstored :
        (response : UnifiedResponse) (exc : String) (a' : App)
        → Reaches t l a
        → t.answer ≡ replied response
        → t.storing ≡ some exc
        → Shape t l a (exits (raises (after_result exc)) a')
    crashed_with :
        (exc : String) (a' : App)
        → Reaches t l a
        → t.answer ≡ crashed exc
        → Shape t l a (exits (raises (other exc)) a')

  -- whether the loop is left
  abbrev pub Leaves : Step → Type 0
  Leaves (continues l a) = ⊥
  Leaves (breaks l a) = Unit
  Leaves (exits e a) = Unit

  -- A run of the loop: at most as many attempts as are left, each from where the last one has left off.
  pub data Serves (tries : ℕ → Try) : ℕ → ℕ → Local → App → Step → Type 0 where
    over : (i : ℕ) (l : Local) (a : App) → Serves tries zero i l a (breaks l a)
    last :
        (left i : ℕ) (l : Local) (a : App) (s : Step)
        → Leaves s
        → Shape (tries i) l a s
        → Serves tries (suc left) i l a s
    next :
        (left i : ℕ) (l l' : Local) (a a' : App) (s : Step)
        → Shape (tries i) l a (continues l' a')
        → Serves tries left (suc i) l' a' s
        → Serves tries (suc left) i l a s
