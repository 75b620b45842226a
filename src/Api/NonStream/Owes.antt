-- ===== src/Api/NonStream/Owes.antt =====
-- An attempt whose calls of Redis arrive leaves no reservation behind.
use tide_gate.Prelude.{
  ℕ, ◌≡◌, ◌≢◌, ap, refl, String, Bool, true, false, Option, none, some, string_eq, inl, inr,
  Option-cases, sym, get_or, ◌∙◌,
}
use tide_gate.Quota.Service.{
  reservation, read_reply, delivered, QuotaReservation, reserve, reserve_with, Link, QuotaService,
  Moment, reserve_args, ReserveOutcome, plan_missing,
}
use tide_gate.Api.Gateway.{
  App, Settling, settle_held, refund_held, Exit, reserve_quota, ChatResult, returns, raises,
  Context, settlement_of, Try, enqueue_ledger, enqueue_attempt_record,
}
use tide_gate.Api.Ledger.{
  QuotaSettlement, settle_once_with, refund_once_with, final_usage, use_deployment,
}
use tide_gate.Quota.Service.Settlement.{
  settle_reservation, settle_with_retry, call_settle, refund_full, zero_usage, settle_args,
  fallback_usage,
}
use tide_gate.Api.NonStream.{Local, on_response, note_failure, store_raises}
use tide_gate.Prelude.Dict.{lookup}
use tide_gate.Core.{Usage, UnifiedResponse, GatewayError}
use tide_gate.Quota.Scripts.{
  Reply, admitted, TenantQuota, rejected, refilled, check_and_reserve, ReserveArgs,
}
use tide_gate.Quota.Estimator.{Estimate}
use tide_gate.Config.{DeploymentConfig, QuotaPlanConfig}
use tide_gate.Quota.Scripts.Outcome.{check_and_reserve_cases}
use tide_gate.Quota.Scripts.Release.{lookup-settle}
use mathlib.Core.Path.{subst}
use tide_gate.Routing.Stats.{RoutingState}
use tide_gate.Cache.SingleFlight.{Flight}
use tide_gate.Api.NonStream.Rules.{Held, Rules}
use tide_gate.Api.Attempts.{PickResult}
use tide_gate.Api.NonStream.Balance.{Answers}
use tide_gate.Api.Gateway.Frame.{resolve_led-frame}
use tide_gate.Api.NonStream.Frame.{store_result-keys}

-- the request has no reservation in Redis
abbrev pub NothingHeld : String → App → Type 0
NothingHeld request_id a = lookup request_id a.keys.resv_data ≡ none

-- the settlement that the request holds, if any, is open and in Redis; else it holds nothing there
abbrev pub Owes : String → Option QuotaSettlement → App → Type 0
Owes request_id none a = NothingHeld request_id a
Owes request_id (some p) a =
    (p.settled ≡ false)
    × (p.reservation.request_id ≡ request_id)
    × (p.reservation.redis_reserved ≡ true)

-- the calls of the scripts arrive
abbrev pub Arrives : Settling → Type 0
Arrives w = w.first ≡ delivered

pub settle_reservation-arrives :
    (second : Link) (learn : Option Bool) (r : QuotaReservation) (actual : Option Usage)
    (forwarded : ℕ) (s : QuotaService) (q : TenantQuota)
    → r.redis_reserved ≡ true
    → lookup r.request_id
        (settle_reservation delivered second learn r actual forwarded s q).1.resv_data
      ≡ none
unfolding settle_reservation settle_with_retry call_settle
settle_reservation-arrives second learn r actual forwarded s q h =
    rw (settle_reservation, h)
      (lookup-settle (settle_args r (get_or actual (fallback_usage r.estimated forwarded))) q)

module _ (request_id : String) where
  pub settle_held-NothingHeld :
      (w : Settling) (usage : Option Usage) (forwarded : ℕ) (p : QuotaSettlement) (a : App)
      → Arrives w
      → Owes request_id (some p) a
      → NothingHeld request_id (settle_held w usage forwarded p a)
  unfolding settle_held settle_once_with
  settle_held-NothingHeld w usage forwarded p a up (open_, mine, there) =
      rw (settle_once_with, open_, up, ← mine)
        (settle_reservation-arrives w.second w.learn p.reservation (final_usage usage p.captured)
          forwarded a.quota a.keys there)

  pub refund_held-NothingHeld :
      (w : Settling) (p : QuotaSettlement) (a : App)
      → Arrives w
      → Owes request_id (some p) a
      → NothingHeld request_id (refund_held w p a)
  unfolding refund_held refund_once_with refund_full
  refund_held-NothingHeld w p a up (open_, mine, there) =
      rw (refund_once_with, open_, up, ← mine)
        (settle_reservation-arrives w.second w.learn p.reservation (some zero_usage) 0 a.quota
          a.keys there)

-- what holds where the function is left
abbrev pub LeftNothing : String → Exit ChatResult → App → Type 0
LeftNothing request_id e a = NothingHeld request_id a

abbrev pub LoopOwes : String → Local → App → Type 0
LoopOwes request_id l a = Owes request_id l.held a

-- the reservation, if it is made, is the request's own
abbrev pub Reserves : String → Exit QuotaSettlement → App → Type 0
Reserves request_id (returns p) a = Owes request_id (some p) a
Reserves request_id (raises e) a = NothingHeld request_id a

reply-Reserves :
    (r : QuotaReservation) (x : Reply) (a : App)
    → x ≢ admitted
    → NothingHeld r.request_id a
    → Reserves r.request_id (settlement_of (read_reply r x)) a
unfolding read_reply
reply-Reserves r admitted a ne h = absurd (ne refl)
reply-Reserves r (rejected d ms) a ne h = h

-- what becomes of a reservation, of which only the answer and the keys matter here
abbrev After : Context → App → ReserveOutcome × QuotaService × TenantQuota → Type 0
After c a (o, s, q) =
    Reserves c.unified.request_id (settlement_of o) (record a { quota = s; keys = q })

reserve_known :
    (c : Context) (at : Moment) (estimated : Estimate) (d : DeploymentConfig) (s : QuotaService)
    (q : TenantQuota) (plan : QuotaPlanConfig)
    → lookup c.tenant.plan c.settings.quota_plans ≡ some plan
    → let (reply, q') =
        check_and_reserve (reserve_args plan c.settings c.unified estimated at.now_ms at.month) q in
      reserve at delivered c.tenant c.unified d estimated c.settings s q ≡ (
        read_reply (reservation c.tenant c.unified d estimated c.settings at.month true) reply,
        record s { fallback_active = false },
        q',
      )
unfolding reserve reserve_with
reserve_known c at estimated d s q plan h = rw (reserve, h) refl

reserve_missing :
    (c : Context) (at : Moment) (estimated : Estimate) (d : DeploymentConfig) (s : QuotaService)
    (q : TenantQuota)
    → lookup c.tenant.plan c.settings.quota_plans ≡ none
    → reserve at delivered c.tenant c.unified d estimated c.settings s q ≡ (plan_missing, s, q)
unfolding reserve
reserve_missing c at estimated d s q h = rw (reserve, h) refl

known-Reserves :
    (c : Context) (args : ReserveArgs) (r : QuotaReservation) (s : QuotaService) (a : App)
    → r.request_id ≡ c.unified.request_id
    → r.redis_reserved ≡ true
    → NothingHeld c.unified.request_id a
    → After c a
        (read_reply r (check_and_reserve args a.keys).0, s, (check_and_reserve args a.keys).1)
unfolding refilled read_reply
known-Reserves c args r s a mine there h = elim (check_and_reserve_cases args a.keys) [
  | inl (passes, e) ↦
      subst (λ (p : Reply × TenantQuota). After c a (read_reply r p.0, s, p.1)) (sym e)
        (refl, mine, there)
  | inr (ne, e) ↦
      subst
        (λ (id : String).
          Reserves id (settlement_of (read_reply r (check_and_reserve args a.keys).0))
            (record a { quota = s; keys = (check_and_reserve args a.keys).1 }))
        mine
        (reply-Reserves r (check_and_reserve args a.keys).0 _ ne
          (subst (λ (q : TenantQuota). lookup r.request_id q.resv_data ≡ none) (sym e) (rw mine h)))
]

pub reserve_quota-Reserves :
    (c : Context) (at : Moment) (estimated : Estimate) (d : DeploymentConfig) (a : App)
    → NothingHeld c.unified.request_id a
    → let (e, a') = reserve_quota c at delivered estimated d a in Reserves c.unified.request_id e a'
unfolding reserve_quota
reserve_quota-Reserves c at estimated d a h =
    elim (Option-cases (lookup c.tenant.plan c.settings.quota_plans)) [
      | inl missing ↦
          subst (After c a) (sym (reserve_missing c at estimated d a.quota a.keys missing)) h
      | inr (plan, there) ↦
          subst (After c a) (sym (reserve_known c at estimated d a.quota a.keys plan there)) (
            known-Reserves c (reserve_args plan c.settings c.unified estimated at.now_ms at.month) _
              _ a refl refl h)
    ]

Owes-routing :
    (request_id : String) (held : Option QuotaSettlement) (a : App) (st : RoutingState)
    → Owes request_id held a
    → Owes request_id held (record a { routing = st })
Owes-routing request_id none a st h = h
Owes-routing request_id (some p) a st h = h

-- What an attempt needs of the outside: an answer, and calls of Redis that arrive.
abbrev pub Reaches : Try → Type 0
Reaches t = Answers t.answer × (t.reserving ≡ delivered) × Arrives t.settling

module _ (c : Context) (cache_header : String) (flight : Option Flight) (store_cache : Bool) where
  held_after :
      (l : Local) (o : Exit QuotaSettlement) (a : App)
      → l.held ≡ none
      → Reserves c.unified.request_id o a
      → Held (LoopOwes c.unified.request_id) (LeftNothing c.unified.request_id) l (o, a)
  held_after l (returns p) a e h = h
  held_after l (raises x) a e h = h

  response-keys :
      (t : Try) (picked : PickResult) (seq : ℕ) (response : UnifiedResponse) (p : QuotaSettlement)
      (a : App)
      → (on_response c cache_header flight store_cache t picked seq response p a).1.keys
        ≡ (settle_held t.settling (some response.usage) response.usage.completion_tokens p a).keys
  unfolding on_response enqueue_ledger enqueue_attempt_record
  response-keys t picked seq response p a =
      let stored = store_result-keys c cache_header flight store_cache picked response _ in
      elim (Option-cases (store_raises c cache_header flight store_cache t)) [
        | inr (exc, raised_) ↦ rw (on_response, raised_) stored
        | inl fine ↦
            rw (on_response, fine)
              (ap (λ (x : App). x.keys) (resolve_led-frame flight response _) ∙ stored)
      ]

  response-LeftNothing :
      (t : Try) (picked : PickResult) (seq : ℕ) (response : UnifiedResponse) (p : QuotaSettlement)
      (a : App)
      → Reaches t
      → Owes c.unified.request_id (some p) a
      → NothingHeld c.unified.request_id
          (on_response c cache_header flight store_cache t picked seq response p a).1
  response-LeftNothing t picked seq response p a (answers, reserving, arrives) h =
      subst (λ (q : TenantQuota). lookup c.unified.request_id q.resv_data ≡ none)
        (sym (response-keys t picked seq response p a))
        (settle_held-NothingHeld c.unified.request_id t.settling (some response.usage)
          response.usage.completion_tokens p a arrives h)

  failure-LeftNothing :
      (t : Try) (picked : PickResult) (seq : ℕ) (exc : GatewayError) (p : QuotaSettlement) (a : App)
      → Reaches t
      → Owes c.unified.request_id (some p) a
      → NothingHeld c.unified.request_id
          (note_failure c cache_header flight store_cache t picked seq exc p a)
  unfolding note_failure enqueue_attempt_record
  failure-LeftNothing t picked seq exc p a (answers, reserving, arrives) h =
      settle_held-NothingHeld c.unified.request_id t.settling none 0 p _ arrives h

  reserved-LoopOwes :
      (t : Try) (l : Local) (a : App) (d : DeploymentConfig)
      → t.reserving ≡ delivered
      → l.held ≡ none
      → LoopOwes c.unified.request_id l a
      → Held
          (LoopOwes c.unified.request_id)
          (LeftNothing c.unified.request_id)
          l
          (reserve_quota c t.moment t.reserving t.estimated d a)
  reserved-LoopOwes t l a d up e h = rw up (
      held_after l _ _ e (
        reserve_quota-Reserves c t.moment t.estimated d a
          (subst (λ (o : Option QuotaSettlement). Owes c.unified.request_id o a) e h)))

  pub rules-LoopOwes :
      Rules c cache_header flight store_cache
        (LoopOwes c.unified.request_id)
        (λ k l p a. Owes c.unified.request_id (some p) a)
        (LeftNothing c.unified.request_id)
        Reaches
  unfolding use_deployment
  rules-LoopOwes = record {
    picks = λ l a now st h same. Owes-routing c.unified.request_id l.held a st h;
    notes = λ l a e h. h;
    chooses = λ l a x i h. h;
    reserves = λ t l a d g e h. reserved-LoopOwes t l a d g.1 e h;
    refuses = λ d now l p a e h refused. h;
    starts = λ d now l p a h ok_. h;
    replies = λ t picked seq response l p a g h. response-LeftNothing t picked seq response p a g h;
    fails = λ t picked seq exc l p a g h. (
      failure-LeftNothing t picked seq exc p a g h,
      failure-LeftNothing t picked seq exc p a g h,
    );
    crashes = λ t k exc l p a g e h. absurd (rw e at g.0);
  }
