-- ===== src/Cache/Ranking.antt =====
-- cache/service.py: the choice among the semantic candidates, and the threshold that it must reach.
-- Scores are in millionths.
pub mod Best
pub mod Threshold
mod Tests
use tide_gate.Prelude.{
  ℕ, String, string_eq, Bool, true, false, not, ◌||◌, Option, none, some, List, [], ◌∷◌, ltb,
  if◌then◌else◌, length, ◌==◌, count_eq,
}
use tide_gate.Prelude.Int.{ℤ, pos, ◌-ℤ◌, ltb_ℤ}
use tide_gate.Core.{UnifiedResponse}
use tide_gate.Config.{GatewayConfig, L2OperatingPointConfig, TenantConfig}

pub record SemanticHit : Type 0 where
  pub entry_id : String
  pub l1_key : List ℕ
  pub score : ℤ
  pub text : List ℕ

abbrev pub Candidate : Type 0
Candidate = SemanticHit × UnifiedResponse

-- the list comprehension over `zip`
abbrev pub scored : List Candidate → List ℤ → List (ℤ × Candidate)
scored [] scores = []
scored (c ∷ cs) [] = []
scored (c ∷ cs) (s ∷ ss) = (s, c) ∷ scored cs ss

-- `max(scored, key=score)`: the first of the highest
unfoldable pub highest : ℤ × Candidate → List (ℤ × Candidate) → ℤ × Candidate
highest best [] = best
highest best (c ∷ cs) = highest (if ltb_ℤ best.0 c.0 then c else best) cs

unfoldable pub take_best : ℤ → List (ℤ × Candidate) → Option Candidate
unfolding highest
take_best threshold [] = none
take_best threshold (c ∷ cs) =
    let (score, (hit, response)) = highest c cs in
    if ltb_ℤ score threshold then none else some (record hit { score = score }, response)

-- `_best_reranked_hit`
unfoldable pub best_reranked_hit : List Candidate → List ℤ → ℤ → Option Candidate
unfolding take_best
best_reranked_hit candidates rerank_scores threshold =
    if not (length candidates == length rerank_scores)
    then none
    else take_best threshold (scored candidates rerank_scores)

-- `max(points, key=tau).tau`
unfoldable pub highest_tau : ℕ → List L2OperatingPointConfig → ℕ
highest_tau tau [] = tau
highest_tau tau (p ∷ ps) = highest_tau (if ltb tau p.tau then p.tau else tau) ps

unfoldable pub find_point : String → List L2OperatingPointConfig → Option ℕ
find_point name [] = none
find_point name (p ∷ ps) = if p.name == name then some p.tau else find_point name ps

unfoldable pub threshold_of : ℕ → List L2OperatingPointConfig → Option String → ℕ
unfolding highest_tau find_point
threshold_of fallback [] selected_name = fallback
threshold_of fallback (p ∷ ps) none = highest_tau p.tau ps
threshold_of fallback (p ∷ ps) (some name) = elim (find_point name (p ∷ ps)) [
  | some tau ↦ tau
  | none ↦ highest_tau p.tau ps
]

-- `_tenant_l2_threshold`
unfoldable pub tenant_l2_threshold : TenantConfig → GatewayConfig → ℕ
unfolding threshold_of
tenant_l2_threshold tenant settings =
    threshold_of settings.cache.l2.similarity_threshold settings.cache.l2.operating_points
      tenant.cache.l2_operating_point

-- the threshold that `_lookup_l2` takes
unfoldable pub rerank_threshold : TenantConfig → GatewayConfig → Bool → ℤ
unfolding tenant_l2_threshold
rerank_threshold tenant settings stale =
    let tau : ℤ = pos (tenant_l2_threshold tenant settings) in
    if stale then tau -ℤ pos settings.cache.l2.stale_threshold_delta else tau
