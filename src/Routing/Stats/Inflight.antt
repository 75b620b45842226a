-- ===== src/Routing/Stats/Inflight.antt =====
-- Every dispatched attempt ends by one of three calls, each of which gives its slot back.
use tide_gate.Prelude.{
  ℕ, ◌+◌, ◌-◌, ◌≡◌, ◌≢◌, refl, Bool, Option, some, none, arith, ◌∙◌, Bool-cases, inl, inr,
}
use tide_gate.Core.{ok}
use tide_gate.Routing.Breaker.{allow}
use tide_gate.Routing.Stats.{
  Key, RoutingState, stats_for, breaker_for, record_start, record_abort, record_finish,
  record_rate_limit, finish_stats, DeploymentStats,
}
use tide_gate.Routing.Stats.Access.{access_laws, stats_for-set_stats_ne, breaker_for-set_breaker_ne}

-- How an attempt ends: `record_finish`, `record_abort` or `record_rate_limit`.
pub data Ending : Type 0 where
  finished : Bool → Option ℕ → ℕ → Ending
  aborted : Ending
  rate_limited : ℕ → ℕ → Ending

unfoldable pub end_attempt : Key → Ending → RoutingState → RoutingState
end_attempt k (finished success ttft_s now_s) st = record_finish k success ttft_s now_s st
end_attempt k aborted st = record_abort k st
end_attempt k (rate_limited retry_after_s now_s) st = record_rate_limit k retry_after_s now_s st

inflight-finish_stats :
    (st : RoutingState) (s : DeploymentStats) (success : Bool) (ttft : Option ℕ)
    → (finish_stats st.settings s success ttft).inflight ≡ s.inflight - 1
unfolding finish_stats
inflight-finish_stats st s success none = refl
inflight-finish_stats st s success (some t) = refl

pub inflight-end_attempt :
    (k : Key) (e : Ending) (st : RoutingState)
    → (stats_for (end_attempt k e st) k).inflight ≡ (stats_for st k).inflight - 1
unfolding end_attempt
inflight-end_attempt k (finished s t n) st =
    unfold record_finish in simp access_laws (inflight-finish_stats st (stats_for st k) s t)
inflight-end_attempt k aborted st = unfold record_abort in simp access_laws
inflight-end_attempt k (rate_limited r n) st = unfold record_rate_limit in simp access_laws

pub inflight-record_start :
    (k : Key) (now : ℕ) (st : RoutingState)
    → (record_start k now st).0 ≡ ok tt
    → (stats_for (record_start k now st).1 k).inflight ≡ (stats_for st k).inflight + 1
unfolding record_start
inflight-record_start k now st h = elim (Bool-cases (allow (breaker_for st k) now).0) [
  | inl yes_ ↦ rw yes_ (simp access_laws)
  | inr no_ ↦ let bad = (rw no_ at h) in cc
]

-- what a deployment's statistics and breaker show
abbrev pub SameAt : Key → RoutingState → RoutingState → Type 0
SameAt j a b = (stats_for a j ≡ stats_for b j) × (breaker_for a j ≡ breaker_for b j)

ruleset other_laws = (access_laws, stats_for-set_stats_ne, breaker_for-set_breaker_ne)

record_start-SameAt :
    (k j : Key) (now : ℕ) (st : RoutingState) → k ≢ j → SameAt j (record_start k now st).1 st
unfolding record_start
record_start-SameAt k j now st h = elim (Bool-cases (allow (breaker_for st k) now).0) [
  | inl allowed ↦ rw allowed (simp (other_laws, h), simp (other_laws, h))
  | inr refused ↦ rw refused (simp other_laws, simp (other_laws, h))
]

pub end_attempt-SameAt :
    (k j : Key) (e : Ending) (st : RoutingState) → k ≢ j → SameAt j (end_attempt k e st) st
unfolding end_attempt
end_attempt-SameAt k j (finished s t n) st h =
    unfold record_finish in (simp (other_laws, h), simp (other_laws, h))
end_attempt-SameAt k j aborted st h = unfold record_abort in (simp (other_laws, h), simp other_laws)
end_attempt-SameAt k j (rate_limited r n) st h =
    unfold record_rate_limit in (simp (other_laws, h), simp other_laws)

-- An attempt that was let through and then ended, in any of the three ways, leaves the count of the
-- attempts in flight as it was; every other deployment's statistics and breaker are untouched.
pub end_attempt-record_start :
    (k : Key) (now : ℕ) (e : Ending) (st : RoutingState)
    → (record_start k now st).0 ≡ ok tt
    → let st' = end_attempt k e (record_start k now st).1 in
      ((stats_for st' k).inflight ≡ (stats_for st k).inflight)
      × ((j : Key)
          → k ≢ j
          → (stats_for st' j ≡ stats_for st j) × (breaker_for st' j ≡ breaker_for st j))
end_attempt-record_start k now e st h = (
  omega
      (arith, inflight-end_attempt k e (record_start k now st).1, inflight-record_start k now st h),
  λ j ne.
      let (s, b) = end_attempt-SameAt k j e (record_start k now st).1 ne in
      let (s', b') = record_start-SameAt k j now st ne in (s ∙ s', b ∙ b'),
)
