-- ===== src/Quota/Service/Reserve.antt =====
-- What a reservation comes to when Redis answers, when it does not, and when its answer is lost.
use tide_gate.Prelude.{
  ℕ, ◌+◌, ◌≡◌, refl, ap, ◌∙◌, string_eq, Bool, true, false, Option, none, some, arith, get_or, inl,
  inr,
}
use tide_gate.Prelude.Int.{pos}
use tide_gate.Prelude.Dict.{lookup}
use tide_gate.Core.{UnifiedRequest, Usage}
use tide_gate.Config.{DeploymentConfig, GatewayConfig, QuotaPlanConfig, TenantConfig}
use tide_gate.Quota.Estimator.{Estimate, budget_micro}
use tide_gate.Quota.Local.{allow_local}
use tide_gate.Quota.Scripts.{
  reserved, refilled, TenantQuota, ReserveArgs, admitted, check_and_reserve, settle,
}
use tide_gate.Quota.Scripts.Outcome.{check_and_reserve_cases, budget_now}
use tide_gate.Quota.Scripts.Release.{refund-reserve}
use tide_gate.Quota.Service.{
  QuotaReservation, QuotaService, holds, Link, delivered, redis_error, timed_out, Moment,
  reserve_args, reservation, is_open, reserve_fallback, read_reply, reserve_with, reserve,
}
use tide_gate.Quota.Service.Settlement.{
  settle_args, settle_reservation, refund_full, zero_usage, settle_with_retry, call_settle,
}

abbrev pub is_up : Link → Bool
is_up delivered = true
is_up (redis_error ran) = false
is_up (timed_out ran) = false

zero_budget : (d : DeploymentConfig) → budget_micro 0 0 d ≡ 0
unfolding budget_micro
zero_budget d = omega arith

settle_local :
    (first second : Link) (learn : Option Bool) (r : QuotaReservation) (actual : Option Usage)
    (forwarded : ℕ) (s : QuotaService) (q : TenantQuota)
    → r.redis_reserved ≡ false
    → (settle_reservation first second learn r actual forwarded s q).1 ≡ q
unfolding settle_reservation
settle_local first second learn r actual forwarded s q h = rw (settle_reservation, h) refl

refund_full_settles :
    (learn : Option Bool) (second : Link) (r : QuotaReservation) (s : QuotaService)
    (q : TenantQuota)
    → r.redis_reserved ≡ true
    → (refund_full delivered second learn r s q).1 ≡ (settle (settle_args r zero_usage) q).1
unfolding refund_full settle_reservation settle_with_retry call_settle
refund_full_settles learn second r s q h = rw (settle_reservation, h) refl

admitted-conc :
    (a : ReserveArgs) (q : TenantQuota)
    → (check_and_reserve a q).0 ≡ admitted
    → (check_and_reserve a q).1.conc ≡ q.conc + 1
admitted-conc a q h = elim (check_and_reserve_cases a q) [
  | inl (p, e) ↦ rw e (unfold reserved refilled in refl)
  | inr (ne, e) ↦ absurd (ne h)
]

module _ (at : Moment) (tenant : TenantConfig) (req : UnifiedRequest) (d : DeploymentConfig)
    (e : Estimate) (snapshot : GatewayConfig) (plan : QuotaPlanConfig) where
  -- the reservation that is asked for, and the arguments of the script
  abbrev pub wanted : Bool → QuotaReservation
  wanted = reservation tenant req d e snapshot at.month

  abbrev pub asked : ReserveArgs
  asked = reserve_args plan snapshot req e at.now_ms at.month

  reserve_known :
      (link : Link) (s : QuotaService) (q : TenantQuota)
      → lookup tenant.plan snapshot.quota_plans ≡ some plan
      → reserve at link tenant req d e snapshot s q
        ≡ reserve_with at link plan tenant (wanted true) asked s q
  unfolding reserve
  reserve_known link s q h = rw (reserve, h) refl

  reserve_with_down :
      (link : Link) (s : QuotaService) (q : TenantQuota)
      → is_up link ≡ false
      → let (outcome, s', q') = reserve_with at link plan tenant (wanted true) asked s q in
        (outcome ≡ (reserve_fallback at plan tenant (wanted false) s).0)
        × (s' ≡ (reserve_fallback at plan tenant (wanted false) s).1)
  unfolding reserve_with
  reserve_with_down delivered s q h = absurd (cc)
  reserve_with_down (redis_error ran) s q h = (refl, refl)
  reserve_with_down (timed_out ran) s q h = (refl, refl)

  reserve_with_delivered :
      (s : QuotaService) (q : TenantQuota)
      → (check_and_reserve asked q).0 ≡ admitted
      → reserve_with at delivered plan tenant (wanted true) asked s q
        ≡ (holds (wanted true), record s { fallback_active = false }, (check_and_reserve asked q).1)
  unfolding reserve_with read_reply
  reserve_with_delivered s q h = rw (reserve_with, read_reply, h) refl

  local_holds :
      (s : QuotaService)
      → is_open plan.fail_mode ≡ true
      → (allow_local at.instances at.monotonic tenant.id plan e.tpm_cost s.fallback).0 ≡ true
      → (reserve_fallback at plan tenant (wanted false) s).0 ≡ holds (wanted false)
  unfolding reserve_fallback
  local_holds s fails_open go = rw (reserve_fallback, fails_open, go) refl

  -- With Redis, an admitted request that is refunded in full leaves the streams and the month's budget
  -- as they were and no reservation, and the service is not fallen back.
  pub refund_full-reserve :
      (learn : Option Bool) (second : Link) (s : QuotaService) (q : TenantQuota)
      → lookup tenant.plan snapshot.quota_plans ≡ some plan
      → (check_and_reserve asked q).0 ≡ admitted
      → let (outcome, s', q') = reserve at delivered tenant req d e snapshot s q in
        let q'' = (refund_full delivered second learn (wanted true) s' q').1 in
        (outcome ≡ holds (wanted true))
        × (s'.fallback_active ≡ false)
        × (q''.conc ≡ q.conc)
        × (get_or (lookup at.month q''.budgets) (pos 0) ≡ budget_now asked q)
        × (lookup req.request_id q''.resv_data ≡ none)
  refund_full-reserve learn second s q h ok_ =
      let (n, conc, tpm, budget, gone, rpm) = refund-reserve asked q ok_ in
      rw
        (
          reserve_known delivered s q h,
          reserve_with_delivered s q ok_,
          refund_full_settles learn second (wanted true) _ _ refl,
          zero_budget d,
        )
        (refl, refl, conc, budget, gone)

  -- a call whose script has run, but whose answer has not come
  abbrev pub AnswerLost : Link → Type 0
  AnswerLost delivered = ⊥
  AnswerLost (redis_error ran) = ran ≡ true
  AnswerLost (timed_out ran) = ran ≡ true

  lost_is_down : (link : Link) → AnswerLost link → is_up link ≡ false
  lost_is_down delivered h = absurd h
  lost_is_down (redis_error ran) h = refl
  lost_is_down (timed_out ran) h = refl

  lost_effect :
      (link : Link) (s : QuotaService) (q : TenantQuota)
      → AnswerLost link
      → (reserve_with at link plan tenant (wanted true) asked s q).2 ≡ (check_and_reserve asked q).1
  unfolding reserve_with
  lost_effect delivered s q h = absurd h
  lost_effect (redis_error ran) s q h = rw (reserve_with, h) refl
  lost_effect (timed_out ran) s q h = rw (reserve_with, h) refl

  -- If the script ran and admitted the request, but the answer was lost, to a time-out or to a broken
  -- connection, the plan fails open and the local limiter allows the request, then the caller holds a
  -- reservation whose settlement, however it is called, leaves the tenant's keys as the script has
  -- left them, with one stream more than before.
  pub lost_answer_leaks :
      (link first second : Link) (learn : Option Bool) (actual : Option Usage) (forwarded : ℕ)
      (s : QuotaService) (q : TenantQuota)
      → AnswerLost link
      → lookup tenant.plan snapshot.quota_plans ≡ some plan
      → is_open plan.fail_mode ≡ true
      → (allow_local at.instances at.monotonic tenant.id plan e.tpm_cost s.fallback).0 ≡ true
      → (check_and_reserve asked q).0 ≡ admitted
      → let (outcome, s', q') = reserve at link tenant req d e snapshot s q in
        let q'' = (settle_reservation first second learn (wanted false) actual forwarded s' q').1 in
        (outcome ≡ holds (wanted false))
        × (q' ≡ (check_and_reserve asked q).1)
        × (q'' ≡ q')
        × (q''.conc ≡ q.conc + 1)
  lost_answer_leaks link first second learn actual forwarded s q lost h fails_open go ok_ =
      let (outcome, service) = reserve_with_down link s q (lost_is_down link lost) in
      let ran = lost_effect link s q lost in
      let kept = settle_local first second learn (wanted false) actual forwarded _ _ refl in
      rw (reserve_known link s q h) (
        outcome ∙ local_holds s fails_open go,
        ran,
        kept,
        ap (λ (q' : TenantQuota). q'.conc) (kept ∙ ran) ∙ admitted-conc asked q ok_,
      )
