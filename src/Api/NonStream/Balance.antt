-- ===== src/Api/NonStream/Balance.antt =====
-- Every attempt that the provider answers gives back its place in the count of those in flight.
use tide_gate.Prelude.{
  ℕ, ◌≡◌, ◌∙◌, sym, ap, refl, String, Bool, true, Option, some, pair_eq, Bool-cases, ◌==◌, inl, inr,
  Option-cases,
}
use tide_gate.Routing.Stats.Inflight.{finished, end_attempt, end_attempt-record_start, Ending}
use tide_gate.Routing.Stats.{
  RoutingState, record_start, Key, stats_for, DeploymentStats, deployment_key, breaker_for,
}
use tide_gate.Api.Gateway.{
  Answer, Context, replied, failed, reserve_quota, crashed, Try, settle_held, Exit,
  enqueue_attempt_record, App, returns, raises, enqueue_ledger,
}
use tide_gate.Cache.SingleFlight.{Flight}
use tide_gate.Core.{ok, GatewayError, err, UnifiedResponse}
use tide_gate.Api.NonStream.{on_response, note_failure, Local, store_raises}
use mathlib.Core.Path.{subst}
use tide_gate.Api.NonStream.Rules.{Rules, Held}
use tide_gate.Api.Attempts.{PickResult}
use tide_gate.Api.Ledger.{QuotaSettlement}
use tide_gate.Routing.Breaker.{allow}
use tide_gate.Api.Attempts.Errors.{record_route_error-Ending}
use tide_gate.Routing.Stats.Access.{access_laws}
use tide_gate.Api.Gateway.Frame.{resolve_led-frame}
use tide_gate.Api.NonStream.Frame.{store_result-routing}

-- no deployment has more or fewer attempts in flight
abbrev pub SameInflight : RoutingState → RoutingState → Type 0
SameInflight st st' = (j : Key) → (stats_for st' j).inflight ≡ (stats_for st j).inflight

-- the deployment has one attempt more in flight, which has just been started
abbrev pub OneMore : RoutingState → Key → RoutingState → Type 0
OneMore st0 k st' =
    (now : ℕ) × (st : RoutingState) × ((record_start k now st).0 ≡ ok tt)
    × SameInflight st0 st
    × (st' ≡ (record_start k now st).1)

ended-SameInflight :
    (st0 : RoutingState) (k : Key) (st' : RoutingState) (e : Ending)
    → OneMore st0 k st'
    → SameInflight st0 (end_attempt k e st')
ended-SameInflight st0 k st' e (now, st, started, same, is) j =
    let (count, others) = end_attempt-record_start k now e st started in
    subst
      (λ (s : RoutingState).
        (stats_for (end_attempt k e s) j).inflight ≡ (stats_for st0 j).inflight)
      (sym is)
      (elim (Bool-cases (k == j)) [
        | inl here ↦ (rw (← (pair_eq.same_iff k j).0 here) count) ∙ same j
        | inr there ↦
            ap (λ (s : DeploymentStats). s.inflight)
              ((others j (λ eq. let bad = (pair_eq.same_iff k j).1 eq in cc)).0)
            ∙ same j
      ])

-- a provider that does not crash
abbrev pub Answers : Answer → Type 0
Answers (replied response) = Unit
Answers (failed exc) = Unit
Answers (crashed exc) = ⊥

refused-SameInflight :
    (k : Key) (now : ℕ) (st : RoutingState) (e : GatewayError)
    → (record_start k now st).0 ≡ err e
    → SameInflight st (record_start k now st).1
unfolding record_start
refused-SameInflight k now st e h j = elim (Bool-cases (allow (breaker_for st k) now).0) [
  | inl allowed ↦ let bad = (rw allowed at h) in cc
  | inr refused ↦ rw refused (simp access_laws)
]

trans-SameInflight : (a b c : RoutingState) → SameInflight a b → SameInflight b c → SameInflight a c
trans-SameInflight a b c ab bc j = bc j ∙ ab j

module _ (c : Context) (cache_header : String) (flight : Option Flight) (store_cache : Bool)
    (st0 : RoutingState) where
  finish-SameInflight :
      (t : Try) (picked : PickResult) (seq : ℕ) (response : UnifiedResponse) (p : QuotaSettlement)
      (a : App)
      → OneMore st0 (deployment_key picked.deployment) a.routing
      → SameInflight st0
          (on_response c cache_header flight store_cache t picked seq response p a).1.routing
  unfolding on_response end_attempt settle_held enqueue_ledger enqueue_attempt_record
  finish-SameInflight t picked seq response p a h =
      let k = deployment_key picked.deployment in
      let stored = store_result-routing c cache_header flight store_cache picked response _ in
      let ended = ended-SameInflight st0 k a.routing (finished true (some t.ttft_s) t.ended_at) h in
      elim (Option-cases (store_raises c cache_header flight store_cache t)) [
        | inr (exc, raised_) ↦
            rw (on_response, raised_) (subst (SameInflight st0) (sym stored) ended)
        | inl fine ↦
            rw (on_response, fine)
              (subst (SameInflight st0)
                (sym (ap (λ (x : App). x.routing) (resolve_led-frame flight response _) ∙ stored))
                ended)
      ]

  failure-SameInflight :
      (t : Try) (picked : PickResult) (seq : ℕ) (exc : GatewayError) (p : QuotaSettlement) (a : App)
      → OneMore st0 (deployment_key picked.deployment) a.routing
      → SameInflight st0
          (note_failure c cache_header flight store_cache t picked seq exc p a).routing
  unfolding note_failure settle_held enqueue_attempt_record
  failure-SameInflight t picked seq exc p a h =
      let k = deployment_key picked.deployment in
      subst (SameInflight st0)
        (sym
          (record_route_error-Ending c.settings.routing k exc (some t.ttft_s) t.ended_at a.routing))
        (ended-SameInflight st0 k a.routing _ h)

  reserved-SameInflight :
      (l : Local) (o : Exit QuotaSettlement) (a : App)
      → SameInflight st0 a.routing
      → Held (λ l a. SameInflight st0 a.routing) (λ e a. SameInflight st0 a.routing) l (o, a)
  reserved-SameInflight l (returns p) a h = h
  reserved-SameInflight l (raises e) a h = h

  pub rules-SameInflight :
      Rules c cache_header flight store_cache
        (λ l a. SameInflight st0 a.routing)
        (λ k l p a. OneMore st0 k a.routing)
        (λ e a. SameInflight st0 a.routing)
        (λ t. Answers t.answer)
  unfolding reserve_quota
  rules-SameInflight = record {
    picks = λ l a now st h same j. ap (λ (s : DeploymentStats). s.inflight) ((same j).0) ∙ h j;
    notes = λ l a e h. h;
    chooses = λ l a x i h. h;
    reserves = λ t l a d g e h. reserved-SameInflight l _ _ h;
    refuses = λ d now l p a e h refused.
        trans-SameInflight st0 a.routing _ h
          (refused-SameInflight (deployment_key d) now a.routing e refused);
    starts = λ d now l p a h ok_. (now, a.routing, ok_, h, refl);
    replies = λ t picked seq response l p a g h. finish-SameInflight t picked seq response p a h;
    fails = λ t picked seq exc l p a g h.
        (failure-SameInflight t picked seq exc p a h, failure-SameInflight t picked seq exc p a h);
    crashes = λ t k exc l p a g e h. absurd (rw e at g);
  }
