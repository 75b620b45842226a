-- ===== src/Quota/Service/Settle.antt =====
-- A settlement over calls that may fail is applied at most once.
use tide_gate.Prelude.{
  ℕ, ◌+◌, ◌≡◌, ◌⊎◌, refl, ap, ◌∙◌, inl, inr, Bool, true, false, Option, get_or, string_eq,
  Bool-cases,
}
use tide_gate.Prelude.Dict.{lookup, lookup-insert_self}
use tide_gate.Core.{Usage}
use tide_gate.Quota.Scripts.{TenantQuota, SettleArgs, settle}
use tide_gate.Quota.Scripts.Release.{settle_once}
use tide_gate.Quota.Service.{
  QuotaReservation, QuotaService, Link, delivered, redis_error, timed_out,
}
use tide_gate.Quota.Service.Settlement.{
  settle_args, fallback_usage, call_settle, settle_with_retry, finish_settle, settle_reservation,
}

-- nothing, or one settlement
abbrev pub AtMostOnce : SettleArgs → TenantQuota → TenantQuota → Type 0
AtMostOnce args q q' = (q' ≡ q) ⊎ (q' ≡ (settle args q).1)

call_settle-AtMostOnce :
    (link : Link) (args : SettleArgs) (q : TenantQuota)
    → AtMostOnce args q (call_settle link args q).2
      × ((call_settle link args q).0 ≡ true → (call_settle link args q).2 ≡ (settle args q).1)
unfolding call_settle
call_settle-AtMostOnce delivered args q = (inr refl, λ h. refl)
call_settle-AtMostOnce (redis_error true) args q = (inr refl, λ h. absurd (cc))
call_settle-AtMostOnce (redis_error false) args q = (inl refl, λ h. absurd (cc))
call_settle-AtMostOnce (timed_out true) args q = (inr refl, λ h. absurd (cc))
call_settle-AtMostOnce (timed_out false) args q = (inl refl, λ h. absurd (cc))

again-AtMostOnce :
    (args : SettleArgs) (q q' q'' : TenantQuota)
    → AtMostOnce args q q'
    → AtMostOnce args q' q''
    → AtMostOnce args q q''
again-AtMostOnce args q q' q'' (inl same) (inl e) = inl (e ∙ same)
again-AtMostOnce args q q' q'' (inl same) (inr e) = inr (rw same at e)
again-AtMostOnce args q q' q'' (inr once) (inl e) = inr (e ∙ once)
again-AtMostOnce args q q' q'' (inr once) (inr e) =
    inr (e ∙ (rw once (ap (λ (p : ℕ × TenantQuota). p.1) (settle_once args args q refl))))

again_settled :
    (args : SettleArgs) (q q' q'' : TenantQuota)
    → AtMostOnce args q q'
    → q'' ≡ (settle args q').1
    → q'' ≡ (settle args q).1
again_settled args q q' q'' (inl same) e = rw same at e
again_settled args q q' q'' (inr once) e =
    e ∙ (rw once (ap (λ (p : ℕ × TenantQuota). p.1) (settle_once args args q refl)))

settle_with_retry-AtMostOnce :
    (first second : Link) (args : SettleArgs) (q : TenantQuota)
    → let (returned, q') = settle_with_retry first second args q in
      AtMostOnce args q q' × (returned ≡ true → q' ≡ (settle args q).1)
unfolding settle_with_retry
settle_with_retry-AtMostOnce first second args q =
    let (one, done) = call_settle-AtMostOnce first args q in
    let q' = (call_settle first args q).2 in
    let (two, done_again) = call_settle-AtMostOnce second args q' in
    elim (Bool-cases (call_settle first args q).0) [
      | inl returned ↦ rw (settle_with_retry, returned) (one, λ h. done returned)
      | inr failed ↦ elim (Bool-cases (call_settle first args q).1) [
        | inl retried ↦
            rw (settle_with_retry, failed, retried)
              (
                again-AtMostOnce args q q' _ one two,
                λ h. again_settled args q q' _ one (done_again h),
              )
        | inr given_up ↦ rw (settle_with_retry, failed, given_up) (one, λ h. absurd (cc))
      ]
    ]

counted :
    (learn : Option Bool) (r : QuotaReservation) (usage : Usage) (s : QuotaService)
    → get_or (lookup r.tenant_id (finish_settle false learn r usage s).quota_settle_failed) 0
      ≡ get_or (lookup r.tenant_id s.quota_settle_failed) 0 + 1
unfolding finish_settle
counted learn r usage s = rw lookup-insert_self refl

-- A settlement of a reservation that is in Redis, whatever its one or two calls of the script come to,
-- is applied at most once, with the reported usage or the fallback usage; and unless the failure is
-- counted, it is applied.
pub settle_reservation-once :
    (first second : Link) (learn : Option Bool) (r : QuotaReservation) (actual : Option Usage)
    (forwarded : ℕ) (s : QuotaService) (q : TenantQuota)
    → r.redis_reserved ≡ true
    → let args = settle_args r (get_or actual (fallback_usage r.estimated forwarded)) in
      let (s', q') = settle_reservation first second learn r actual forwarded s q in
      AtMostOnce args q q'
      × ((q' ≡ (settle args q).1)
          ⊎ (get_or (lookup r.tenant_id s'.quota_settle_failed) 0
              ≡ get_or (lookup r.tenant_id s.quota_settle_failed) 0 + 1))
unfolding settle_reservation
settle_reservation-once first second learn r actual forwarded s q h =
    let args = settle_args r (get_or actual (fallback_usage r.estimated forwarded)) in
    let (once, done) = settle_with_retry-AtMostOnce first second args q in
    elim (Bool-cases (settle_with_retry first second args q).0) [
      | inl returned ↦ rw (settle_reservation, h) (once, inl (done returned))
      | inr failed ↦
          rw (settle_reservation, h, failed)
            (once, inr (counted learn r (get_or actual (fallback_usage r.estimated forwarded)) s))
    ]
