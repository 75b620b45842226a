-- ===== src/Api/NonStream/Rules.antt =====
-- What it takes for a predicate to hold through the attempts: a rule for each thing that an attempt does.
use tide_gate.Prelude.{
  ℕ, zero, suc, ◌+◌, ◌≡◌, refl, String, Bool, Option, none, some, List, Bool-cases, ◌∷◌, inl,
  Option-cases, inr,
}
use tide_gate.Core.{ok, err, GatewayError, UnifiedResponse, Result-cases}
use tide_gate.Api.NonStream.{
  Local, Step, continues, call_provider, breaks, on_error, exits, on_response, note_failure,
  start_attempt, with_quota, attempt_at, attempt, attempts, is_retryable, and_then,
}
use tide_gate.Routing.Stats.{Key, record_start, RoutingState, deployment_key}
use tide_gate.Api.Gateway.{
  Context, App, Exit, ChatResult, returns, Try, raises, reserve_quota, gateway, Answer, crashed,
  replied, next_attempt_seq, other, failed,
}
use tide_gate.Cache.SingleFlight.{Flight}
use tide_gate.Api.Ledger.{QuotaSettlement, use_deployment}
use tide_gate.Routing.Selector.Candidates.{Alike}
use tide_gate.Api.Attempts.{PickResult, pick_next_attempt}
use tide_gate.Config.{DeploymentConfig}
use tide_gate.Routing.Ladder.{RouteLevel}
use mathlib.Core.Path.{subst}
use tide_gate.Api.Attempts.Order.{pick_next_attempt-Alike}

-- `P` holds where the loop goes on or is left, and `Q` where the function is.
abbrev pub Post : (Local → App → Type 0) → (Exit ChatResult → App → Type 0) → Step → Type 0
Post P Q (continues l a) = P l a
Post P Q (breaks l a) = P l a
Post P Q (exits e a) = Q e a

-- what a reservation leaves
abbrev pub Held :
    (Local → App → Type 0)
    → (Exit ChatResult → App → Type 0)
    → Local
    → Exit QuotaSettlement × App
    → Type 0
Held P Q l (returns p, a) = P (record l { held = some p }) a
Held P Q l (raises e, a) = Q (raises e) a

-- the state in which the provider is called, or the breaker has refused
abbrev pub started_app : Key → ℕ → App → App
started_app k now a = record a {
  attempt_seq_next = a.attempt_seq_next + 1;
  routing = (record_start k now a.routing).1;
}

module _ (c : Context) (cache_header : String) (flight : Option Flight) (store_cache : Bool)
    (P : Local → App → Type 0) (R : Key → Local → QuotaSettlement → App → Type 0)
    (Q : Exit ChatResult → App → Type 0) where
  pub record Rules (good : Try → Type 0) : Type 0 where
    pub picks :
        (l : Local) (a : App) (now : ℕ) (st : RoutingState)
        → P l a
        → Alike now a.routing st
        → P l (record a { routing = st })
    pub notes :
        (l : Local) (a : App) (e : GatewayError) → P l a → P (record l { last_error = some e }) a
    pub chooses :
        (l : Local) (a : App) (x : List Key) (i : ℕ)
        → P l a
        → P (record l { exclude = x; level_index = i }) a
    pub reserves :
        (t : Try) (l : Local) (a : App) (d : DeploymentConfig)
        → good t
        → l.held ≡ none
        → P l a
        → Held P Q l (reserve_quota c t.moment t.reserving t.estimated d a)
    pub refuses :
        (d : DeploymentConfig) (now : ℕ) (l : Local) (p : QuotaSettlement) (a : App)
        (e : GatewayError)
        → P (record l { held = some p }) a
        → (record_start (deployment_key d) now a.routing).0 ≡ err e
        → P (record l { held = some (use_deployment d p) }) (started_app (deployment_key d) now a)
    pub starts :
        (d : DeploymentConfig) (now : ℕ) (l : Local) (p : QuotaSettlement) (a : App)
        → P (record l { held = some p }) a
        → (record_start (deployment_key d) now a.routing).0 ≡ ok tt
        → R
            (deployment_key d)
            (record l { held = some (use_deployment d p) })
            (use_deployment d p)
            (started_app (deployment_key d) now a)
    pub replies :
        (t : Try) (picked : PickResult) (seq : ℕ) (response : UnifiedResponse) (l : Local)
        (p : QuotaSettlement) (a : App)
        → good t
        → R (deployment_key picked.deployment) l p a
        → let (e, a') = on_response c cache_header flight store_cache t picked seq response p a in
          Q e a'
    pub fails :
        (t : Try) (picked : PickResult) (seq : ℕ) (exc : GatewayError) (l : Local)
        (p : QuotaSettlement) (a : App)
        → good t
        → R (deployment_key picked.deployment) l p a
        → let a' = note_failure c cache_header flight store_cache t picked seq exc p a in
          P (record l { held = none; last_error = some exc }) a' × Q (raises (gateway exc)) a'
    pub crashes :
        (t : Try) (k : Key) (exc : String) (l : Local) (p : QuotaSettlement) (a : App)
        → good t
        → t.answer ≡ crashed exc
        → R k l p a
        → Q (raises (other exc)) a

  module _ {good : Try → Type 0} (rules : Rules good) where
    on_error-Post :
        (t : Try) (picked : PickResult) (seq : ℕ) (exc : GatewayError) (l : Local)
        (p : QuotaSettlement) (a : App)
        → good t
        → R (deployment_key picked.deployment) l p a
        → Post P Q (on_error c cache_header flight store_cache t picked seq exc l p a)
    unfolding on_error
    on_error-Post t picked seq exc l p a g r =
        let (goes_on, leaves) = rules.fails t picked seq exc l p a g r in
        elim (Bool-cases (is_retryable exc.category)) [
          | inl again ↦ rw (on_error, again) goes_on
          | inr over ↦ rw (on_error, over) leaves
        ]

    call_provider-Post :
        (x : Answer) (t : Try) (picked : PickResult) (seq : ℕ) (l : Local) (p : QuotaSettlement)
        (a : App)
        → t.answer ≡ x
        → good t
        → R (deployment_key picked.deployment) l p a
        → Post P Q (call_provider c cache_header flight store_cache t picked seq l p a)
    unfolding call_provider
    call_provider-Post (replied response) t picked seq l p a e g r =
        rw (call_provider, e) (rules.replies t picked seq response l p a g r)
    call_provider-Post (failed exc) t picked seq l p a e g r =
        rw (call_provider, e) (on_error-Post t picked seq exc l p a g r)
    call_provider-Post (crashed exc) t picked seq l p a e g r =
        rw (call_provider, e) (rules.crashes t (deployment_key picked.deployment) exc l p a g e r)

    start_attempt-Post :
        (t : Try) (picked : PickResult) (l : Local) (p : QuotaSettlement) (a : App)
        → good t
        → P (record l { held = some p }) a
        → Post P Q (start_attempt c cache_header flight store_cache t picked l p a)
    unfolding start_attempt next_attempt_seq
    start_attempt-Post t picked l p a g h =
        let k = deployment_key picked.deployment in
        elim (Result-cases (record_start k t.started_at a.routing).0) [
          | inl (u, ok_) ↦
              rw (start_attempt, ok_)
                (call_provider-Post t.answer t picked _ _ _ _ refl g
                  (rules.starts picked.deployment t.started_at l p a h ok_))
          | inr (e, refused) ↦
              rw (start_attempt, refused)
                (rules.notes _ _ e (rules.refuses picked.deployment t.started_at l p a e h refused))
        ]

    with_quota-Post :
        (t : Try) (picked : PickResult) (l : Local) (o : Exit QuotaSettlement) (a : App)
        → good t
        → Held P Q l (o, a)
        → Post P Q (with_quota c cache_header flight store_cache t picked l (o, a))
    unfolding with_quota
    with_quota-Post t picked l (returns p) a g h = start_attempt-Post t picked l p a g h
    with_quota-Post t picked l (raises e) a g h = h

    attempt_at-Post :
        (t : Try) (picked : PickResult) (l : Local) (a : App)
        → good t
        → P l a
        → Post P Q (attempt_at c cache_header flight store_cache t picked l a)
    unfolding attempt_at
    attempt_at-Post t picked l a g h =
        let d = picked.deployment in
        let l' : Local = record l {
          exclude = deployment_key d ∷ l.exclude;
          level_index = picked.level_index;
        } in
        let chosen = rules.chooses l a (deployment_key d ∷ l.exclude) picked.level_index h in
        elim (Option-cases l.held) [
          | inl none_ ↦
              let o = reserve_quota c t.moment t.reserving t.estimated d a in
              rw (attempt_at, none_)
                (with_quota-Post t picked l' o.0 o.1 g (rules.reserves t l' a d g none_ chosen))
          | inr (p, some_) ↦
              rw (attempt_at, some_)
                (start_attempt-Post t picked l' p a g (
                  subst (λ (h : Option QuotaSettlement). P (record l' { held = h }) a) some_
                    chosen))
        ]

    attempt-Post :
        (levels : List RouteLevel) (t : Try) (l : Local) (a : App)
        → good t
        → P l a
        → Post P Q (attempt c cache_header flight store_cache levels t l a)
    unfolding attempt
    attempt-Post levels t l a g h =
        let o =
          pick_next_attempt c.weights c.sample l.exclude t.picked_at l.level_index levels
            a.routing in
        let same =
          pick_next_attempt-Alike c.weights c.sample l.exclude t.picked_at l.level_index levels
            a.routing in
        let picked = rules.picks l a t.picked_at o.1 h same in
        elim (Result-cases o.0) [
          | inl (r, ok_) ↦ rw (attempt, ok_) (attempt_at-Post t r l _ g picked)
          | inr (e, none_) ↦ rw (attempt, none_) (rules.notes l _ e picked)
        ]

    and_then-Post :
        (rest : Local → App → Step) (s : Step)
        → ((l : Local) (a : App) → P l a → Post P Q (rest l a))
        → Post P Q s
        → Post P Q (and_then rest s)
    and_then-Post rest (continues l a) goes h = goes l a h
    and_then-Post rest (breaks l a) goes h = h
    and_then-Post rest (exits e a) goes h = h

    -- What an attempt keeps holds after any number of them.
    pub attempts-Post :
        (levels : List RouteLevel) (tries : ℕ → Try) (left i : ℕ) (l : Local) (a : App)
        → ((j : ℕ) → good (tries j))
        → P l a
        → Post P Q (attempts c cache_header flight store_cache levels tries left i l a)
    unfolding attempts
    attempts-Post levels tries zero i l a g h = h
    attempts-Post levels tries (suc left) i l a g h =
        and_then-Post _ (attempt c cache_header flight store_cache levels (tries i) l a)
          (λ l' a' h'. attempts-Post levels tries left (suc i) l' a' g h')
          (attempt-Post levels (tries i) l a (g i) h)
