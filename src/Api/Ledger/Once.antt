-- ===== src/Api/Ledger/Once.antt =====
-- However often a request settles or refunds, its reservation is settled at most once.
use tide_gate.Prelude.{
  ℕ, ◌≡◌, ◌⊎◌, ◌∙◌, ap, sym, refl, Bool, true, false, Option, some, List, [], ◌∷◌, Bool-cases, inl,
  inr, get_or,
}
use mathlib.Core.Path.{subst}
use tide_gate.Core.{Usage}
use tide_gate.Config.{DeploymentConfig}
use tide_gate.Quota.Scripts.{TenantQuota, SettleArgs, settle}
use tide_gate.Quota.Service.{Link, QuotaReservation, QuotaService}
use tide_gate.Quota.Service.Settlement.{fallback_usage, refund_full, settle_args, zero_usage}
use tide_gate.Quota.Service.Settle.{AtMostOnce, settle_reservation-once}
use tide_gate.Api.Ledger.{
  QuotaSettlement, World, capture_usage, use_deployment, final_usage, settle_once_with,
  refund_once_with,
}

-- a call of the settlement, with what becomes of the script's calls
pub data Action : Type 0 where
  captures : Option Usage → Action
  uses : DeploymentConfig → Action
  settles : Link → Link → Option Bool → Option Usage → ℕ → Action
  refunds : Link → Link → Option Bool → Action

unfoldable pub act : Action → World → World
unfolding capture_usage use_deployment
act (captures usage) (p, s, q) = (capture_usage usage p, s, q)
act (uses d) (p, s, q) = (use_deployment d p, s, q)
act (settles first second learn usage forwarded) w =
    settle_once_with first second learn usage forwarded w
act (refunds first second learn) w = refund_once_with first second learn w

unfoldable pub acts : List Action → World → World
unfolding act
acts [] w = w
acts (a ∷ later) w = acts later (act a w)

-- Nothing happens after the settlement.
act_settled :
    (a : Action) (p : QuotaSettlement) (s : QuotaService) (q : TenantQuota)
    → p.settled ≡ true
    → (p' : QuotaSettlement) × (p'.settled ≡ true) × (act a (p, s, q) ≡ (p', s, q))
unfolding act settle_once_with refund_once_with
act_settled (captures usage) p s q h = (capture_usage usage p, h, refl)
act_settled (uses d) p s q h = (use_deployment d p, h, refl)
act_settled (settles first second learn usage forwarded) p s q h =
    (p, h, rw (settle_once_with, h) refl)
act_settled (refunds first second learn) p s q h = (p, h, rw (refund_once_with, h) refl)

acts_settled :
    (later : List Action) (p : QuotaSettlement) (s : QuotaService) (q : TenantQuota)
    → p.settled ≡ true
    → (acts later (p, s, q)).2 ≡ q
unfolding acts
acts_settled [] p s q h = refl
acts_settled (a ∷ later) p s q h =
    let (p', h', e) = act_settled a p s q h in
    ap (λ (w : World). (acts later w).2) e ∙ acts_settled later p' s q h'

-- Nothing, or one settlement of the reservation's request.
abbrev pub Once : QuotaReservation → TenantQuota → TenantQuota → Type 0
Once r q q' = (q' ≡ q) ⊎ ((a : SettleArgs) × (a.request_id ≡ r.request_id) × (q' ≡ (settle a q).1))

AtMostOnce-Once :
    (r : QuotaReservation) (usage : Usage) (q q' : TenantQuota)
    → AtMostOnce (settle_args r usage) q q'
    → Once r q q'
AtMostOnce-Once r usage q q' (inl same) = inl same
AtMostOnce-Once r usage q q' (inr once) = inr (settle_args r usage, refl, once)

settle_once_with-Once :
    (first second : Link) (learn : Option Bool) (usage : Option Usage) (forwarded : ℕ)
    (p : QuotaSettlement) (s : QuotaService) (q : TenantQuota)
    → p.settled ≡ false
    → p.reservation.redis_reserved ≡ true
    → let w = settle_once_with first second learn usage forwarded (p, s, q) in
      (w.0.settled ≡ true) × Once p.reservation q w.2
unfolding settle_once_with
settle_once_with-Once first second learn usage forwarded p s q open_ reserved =
    let final = final_usage usage p.captured in
    let (once, done) =
      settle_reservation-once first second learn p.reservation final forwarded s q reserved in
    rw (settle_once_with, open_)
      (
        refl,
        AtMostOnce-Once p.reservation
            (get_or final (fallback_usage p.reservation.estimated forwarded)) q _ once,
      )

refund_once_with-Once :
    (first second : Link) (learn : Option Bool) (p : QuotaSettlement) (s : QuotaService)
    (q : TenantQuota)
    → p.settled ≡ false
    → p.reservation.redis_reserved ≡ true
    → let w = refund_once_with first second learn (p, s, q) in
      (w.0.settled ≡ true) × Once p.reservation q w.2
unfolding refund_once_with refund_full
refund_once_with-Once first second learn p s q open_ reserved =
    let (once, done) =
      settle_reservation-once first second learn p.reservation (some zero_usage) 0 s q reserved in
    rw (refund_once_with, open_) (refl, AtMostOnce-Once p.reservation zero_usage q _ once)

at_most_one :
    (later : List Action) (p : QuotaSettlement) (s : QuotaService) (q : TenantQuota)
    → p.reservation.redis_reserved ≡ true
    → Once p.reservation q (acts later (p, s, q)).2
unfolding acts act capture_usage use_deployment
at_most_one [] p s q r = inl refl
at_most_one (captures usage ∷ more) p s q r = at_most_one more (capture_usage usage p) s q r
at_most_one (uses d ∷ more) p s q r = at_most_one more (use_deployment d p) s q r
at_most_one (settles first second learn usage forwarded ∷ more) p s q r =
    elim (Bool-cases p.settled) [
      | inl done ↦ inl (acts_settled (settles first second learn usage forwarded ∷ more) p s q done)
      | inr open_ ↦
          let (done, now) =
            settle_once_with-Once first second learn usage forwarded p s q open_ r in
          subst (Once p.reservation q) (sym (acts_settled more _ _ _ done)) now
    ]
at_most_one (refunds first second learn ∷ more) p s q r = elim (Bool-cases p.settled) [
  | inl done ↦ inl (acts_settled (refunds first second learn ∷ more) p s q done)
  | inr open_ ↦
      let (done, now) = refund_once_with-Once first second learn p s q open_ r in
      subst (Once p.reservation q) (sym (acts_settled more _ _ _ done)) now
]

acts_settled_service :
    (later : List Action) (p : QuotaSettlement) (s : QuotaService) (q : TenantQuota)
    → p.settled ≡ true
    → (acts later (p, s, q)).1 ≡ s
unfolding acts
acts_settled_service [] p s q h = refl
acts_settled_service (a ∷ later) p s q h =
    let (p', h', e) = act_settled a p s q h in
    ap (λ (w : World). (acts later w).1) e ∙ acts_settled_service later p' s q h'

-- the actions that settle
abbrev pub IsSettling : Action → Type 0
IsSettling (captures usage) = ⊥
IsSettling (uses d) = ⊥
IsSettling (settles first second learn usage forwarded) = Unit
IsSettling (refunds first second learn) = Unit

act-settled :
    (a : Action) (p : QuotaSettlement) (s : QuotaService) (q : TenantQuota)
    → IsSettling a
    → (act a (p, s, q)).0.settled ≡ true
unfolding act settle_once_with refund_once_with
act-settled (captures usage) p s q h = absurd h
act-settled (uses d) p s q h = absurd h
act-settled (settles first second learn usage forwarded) p s q h = elim (Bool-cases p.settled) [
  | inl done ↦ rw (settle_once_with, done) refl
  | inr open_ ↦ rw (settle_once_with, open_) refl
]
act-settled (refunds first second learn) p s q h = elim (Bool-cases p.settled) [
  | inl done ↦ rw (refund_once_with, done) refl
  | inr open_ ↦ rw (refund_once_with, open_) refl
]

-- A request that holds a reservation in Redis settles it at most once, whatever it captures, settles and
-- refunds, in whatever order and however the calls of the script end; and once it has settled or
-- refunded it, it is marked as settled, and whatever it then does changes neither the service nor the
-- keys.
pub acts-Once :
    (later : List Action) (p : QuotaSettlement) (s : QuotaService) (q : TenantQuota)
    → p.reservation.redis_reserved ≡ true
    → Once p.reservation q (acts later (p, s, q)).2
      × ((a : Action)
          → IsSettling a
          → let w = act a (p, s, q) in
            (w.0.settled ≡ true) × ((acts later w).1 ≡ w.1) × ((acts later w).2 ≡ w.2))
acts-Once later p s q reserved = (
  at_most_one later p s q reserved,
  λ a h.
      let w = act a (p, s, q) in
      let done = act-settled a p s q h in
      (done, acts_settled_service later w.0 w.1 w.2 done, acts_settled later w.0 w.1 w.2 done),
)
