-- ===== src/Cache/Ranking/Threshold.antt =====
-- The operating point of a tenant, and the most conservative one otherwise.
use tide_gate.Prelude.{
  ℕ, ◌≤◌, ◌≡◌, ◌⊎◌, refl, sym, String, string_eq, Bool, true, false, Option, none, some, List, [],
  ◌∷◌, arith, ltb, if◌then◌else◌, Bool-cases, inl, inr,
}
use mathlib.Core.Path.{subst}
use tide_gate.Config.{GatewayConfig, L2OperatingPointConfig, TenantConfig}
use tide_gate.Cache.Ranking.{highest_tau, find_point, threshold_of, tenant_l2_threshold}

abbrev pub TausAtMost : ℕ → List L2OperatingPointConfig → Type 0
TausAtMost t [] = Unit
TausAtMost t (p ∷ ps) = (p.tau ≤ t) × TausAtMost t ps

abbrev pub TauAmong : ℕ → List L2OperatingPointConfig → Type 0
TauAmong t [] = ⊥
TauAmong t (p ∷ ps) = (t ≡ p.tau) ⊎ TauAmong t ps

-- the point that the tenant names, if it is configured
abbrev pub selected : Option String → List L2OperatingPointConfig → Option ℕ
selected none points = none
selected (some name) points = find_point name points

-- `top` is the highest of `tau` and the points' taus.
abbrev IsTop : ℕ → List L2OperatingPointConfig → ℕ → Type 0
IsTop tau ps top = (tau ≤ top) × TausAtMost top ps × ((top ≡ tau) ⊎ TauAmong top ps)

highest_tau_next :
    (tau : ℕ) (p : L2OperatingPointConfig) (ps : List L2OperatingPointConfig) (t : Bool)
    → ltb tau p.tau ≡ t
    → highest_tau tau (p ∷ ps) ≡ highest_tau (if t then p.tau else tau) ps
unfolding highest_tau
highest_tau_next tau p ps t h = rw (highest_tau, h) refl

highest_tau-IsTop : (tau : ℕ) (ps : List L2OperatingPointConfig) → IsTop tau ps (highest_tau tau ps)
unfolding highest_tau
highest_tau-IsTop tau [] = (omega arith, tt, inl refl)
highest_tau-IsTop tau (p ∷ ps) = elim (Bool-cases (ltb tau p.tau)) [
  | inl less ↦
      let (top, all, from) = highest_tau-IsTop p.tau ps in
      subst (IsTop tau (p ∷ ps)) (sym (highest_tau_next tau p ps true less))
        (ground arith, (top, all), inr from)
  | inr not_less ↦
      let (top, all, from) = highest_tau-IsTop tau ps in
      subst (IsTop tau (p ∷ ps)) (sym (highest_tau_next tau p ps false not_less))
        (top, (ground arith, all), elim from [ inl e ↦ inl e | inr i ↦ inr (inr i) ])
]

threshold_selected :
    (fallback tau : ℕ) (points : List L2OperatingPointConfig) (name : Option String)
    → selected name points ≡ some tau
    → threshold_of fallback points name ≡ tau
unfolding threshold_of
threshold_selected fallback tau points none h = absurd (cc)
threshold_selected fallback tau [] (some name) h = absurd (unfold find_point in cc)
threshold_selected fallback tau (p ∷ ps) (some name) h = rw (threshold_of, h) refl

threshold_unselected :
    (fallback : ℕ) (p : L2OperatingPointConfig) (ps : List L2OperatingPointConfig)
    (name : Option String)
    → selected name (p ∷ ps) ≡ none
    → threshold_of fallback (p ∷ ps) name ≡ highest_tau p.tau ps
unfolding threshold_of
threshold_unselected fallback p ps none h = refl
threshold_unselected fallback p ps (some name) h = rw (threshold_of, h) refl

unnamed :
    (fallback : ℕ) (p : L2OperatingPointConfig) (ps : List L2OperatingPointConfig)
    (name : Option String)
    → selected name (p ∷ ps) ≡ none
    → let t = threshold_of fallback (p ∷ ps) name in TausAtMost t (p ∷ ps) × TauAmong t (p ∷ ps)
unnamed fallback p ps name h =
    let (top, all, from) = highest_tau-IsTop p.tau ps in
    subst (λ (t : ℕ). TausAtMost t (p ∷ ps) × TauAmong t (p ∷ ps))
      (sym (threshold_unselected fallback p ps name h)) ((top, all), from)

-- A tenant's threshold is that of the operating point that it names, if that is configured; if it
-- names none that is, but there are some, it is the highest of theirs.
pub tenant_l2_threshold-point :
    (tenant : TenantConfig) (settings : GatewayConfig)
    → let t = tenant_l2_threshold tenant settings in
      let points = settings.cache.l2.operating_points in
      let named = selected tenant.cache.l2_operating_point points in
      ((tau : ℕ) → named ≡ some tau → t ≡ tau)
      × ((p : L2OperatingPointConfig) (ps : List L2OperatingPointConfig)
          → points ≡ p ∷ ps
          → named ≡ none
          → TausAtMost t points × TauAmong t points)
unfolding tenant_l2_threshold
tenant_l2_threshold-point tenant settings = (
  λ tau h.
      threshold_selected settings.cache.l2.similarity_threshold tau
        settings.cache.l2.operating_points tenant.cache.l2_operating_point h,
  λ p ps e h. rw (e) (
      unnamed settings.cache.l2.similarity_threshold p ps tenant.cache.l2_operating_point
        (rw e at h)),
)
