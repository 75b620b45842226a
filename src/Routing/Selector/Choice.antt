-- ===== src/Routing/Selector/Choice.antt =====
-- What `pick` chooses, and when it raises.
use tide_gate.Prelude.{
  ℕ, ◌≤◌, ◌≡◌, ◌⊎◌, ◌∙◌, refl, string_eq, pair_eq, List, [], ◌∷◌, arith, ltb, keep_if, Bool-cases,
  inl, inr, ltb_false→le,
}
use tide_gate.Core.{Result, ok, err}
use tide_gate.Config.{DeploymentConfig, P2CWeights}
use tide_gate.Routing.Stats.{Key, RoutingState, deployment_key}
use tide_gate.Routing.Selector.{
  candidates, score, norm, value_of, better, choose, pick, no_available_deployment,
}
use tide_gate.Routing.Selector.Candidates.{
  Alike, trans-Alike, eligible, probing, candidates-eq-eligible, half_open_among-eq,
  keep_probing-Alike,
}

-- `d` is in the list.
abbrev pub Among : DeploymentConfig → List DeploymentConfig → Type 0
Among d [] = ⊥
Among d (x ∷ xs) = (d ≡ x) ⊎ Among d xs

-- the first of the list is chosen
abbrev pub first_of : List DeploymentConfig → Result DeploymentConfig
first_of [] = err no_available_deployment
first_of (d ∷ ds) = ok d

-- `random.sample` returns members of the list that it is given.
abbrev pub Samples : (List DeploymentConfig → DeploymentConfig × DeploymentConfig) → Type 0
Samples sample =
    (a b : DeploymentConfig) (rest : List DeploymentConfig)
    → Among (sample (a ∷ b ∷ rest)).0 (a ∷ b ∷ rest)
      × Among (sample (a ∷ b ∷ rest)).1 (a ∷ b ∷ rest)

module _ (weights : P2CWeights)
    (sample : List DeploymentConfig → DeploymentConfig × DeploymentConfig) (st : RoutingState) where
  -- What is chosen from the candidates `found`, of which `probes` probe: without candidates an error,
  -- then the first probe, then the only candidate, then the better of the two that are sampled.
  pub data Chosen (found probes : List DeploymentConfig) : Result DeploymentConfig → Type 0 where
    nothing_left : found ≡ [] → Chosen found probes (err no_available_deployment)
    first_probe :
        (p : DeploymentConfig) (ps : List DeploymentConfig)
        → probes ≡ p ∷ ps
        → Chosen found probes (ok p)
    only_one : (d : DeploymentConfig) → probes ≡ [] → found ≡ d ∷ [] → Chosen found probes (ok d)
    better_of_two :
        (d e : DeploymentConfig)
        → probes ≡ []
        → Among d found
        → (sample found ≡ (d, e)) ⊎ (sample found ≡ (e, d))
        → score weights st d e ≤ score weights st e d
        → Chosen found probes (ok d)

  better-Chosen :
      (found : List DeploymentConfig) (a b : DeploymentConfig)
      → sample found ≡ (a, b)
      → Among a found
      → Among b found
      → Chosen found [] (ok (better weights st (a, b)))
  unfolding better
  better-Chosen found a b s in_a in_b =
      elim (Bool-cases (ltb (score weights st b a) (score weights st a b))) [
        | inl less ↦ rw (better, less) (better_of_two b a refl in_b (inr s) (ground arith))
        | inr not_less ↦
            rw (better, not_less) (better_of_two a b refl in_a (inl s) (ltb_false→le _ _ not_less))
      ]

  choose-Chosen :
      (found probes : List DeploymentConfig)
      → Samples sample
      → Chosen found probes (choose weights sample st found probes)
  unfolding choose
  choose-Chosen [] probes fair = nothing_left refl
  choose-Chosen (d ∷ ds) (p ∷ ps) fair = first_probe p ps refl
  choose-Chosen (d ∷ []) [] fair = only_one d refl refl
  choose-Chosen (d ∷ e ∷ ds) [] fair =
      better-Chosen (d ∷ e ∷ ds) (sample (d ∷ e ∷ ds)).0 (sample (d ∷ e ∷ ds)).1 refl
        ((fair d e ds).0) ((fair d e ds).1)

score-Alike :
    (weights : P2CWeights) (now : ℕ) (st st' : RoutingState) (d e : DeploymentConfig)
    → Alike now st st'
    → score weights st' d e ≡ score weights st d e
unfolding score norm value_of
score-Alike weights now st st' d e a =
    rw (norm, value_of, (a (deployment_key d)).0, (a (deployment_key e)).0) refl

Chosen-Alike :
    (weights : P2CWeights) (sample : List DeploymentConfig → DeploymentConfig × DeploymentConfig)
    (now : ℕ) (st st' : RoutingState) (found probes : List DeploymentConfig)
    (r : Result DeploymentConfig)
    → Alike now st st'
    → Chosen weights sample st' found probes r
    → Chosen weights sample st found probes r
Chosen-Alike weights sample now st st' found probes r a (nothing_left e) = nothing_left e
Chosen-Alike weights sample now st st' found probes r a (first_probe p ps e) = first_probe p ps e
Chosen-Alike weights sample now st st' found probes r a (only_one d e f) = only_one d e f
Chosen-Alike weights sample now st st' found probes r a (better_of_two d e none_ i two le) =
    better_of_two d e none_ i two
      (omega (arith, score-Alike weights now st st' d e a, score-Alike weights now st st' e d a))

pub pick-Chosen :
    (weights : P2CWeights) (sample : List DeploymentConfig → DeploymentConfig × DeploymentConfig)
    (deployments : List DeploymentConfig) (exclude : List Key) (now : ℕ) (st : RoutingState)
    → Samples sample
    → let found = keep_if (eligible exclude now st) deployments in
      Chosen weights sample st found
        (keep_if (probing now st) found)
        (pick weights sample deployments exclude now st).0
unfolding pick
pick-Chosen weights sample deployments exclude now st fair =
    let (found, once) = candidates-eq-eligible exclude now deployments st in
    let st' = (candidates exclude now deployments st).1 in
    let ds = (candidates exclude now deployments st).0 in
    let (probes, again) = half_open_among-eq now ds st' in
    let alike = trans-Alike now st st' _ once again in
    let all = probes ∙ keep_probing-Alike now st st' ds once in
    Chosen-Alike weights sample now st _ _ _ _ alike
      (rw (pick, all, found) (choose-Chosen weights sample _ _ _ fair))

-- A pick changes nothing that is seen at the same time.
pub pick-Alike :
    (weights : P2CWeights) (sample : List DeploymentConfig → DeploymentConfig × DeploymentConfig)
    (deployments : List DeploymentConfig) (exclude : List Key) (now : ℕ) (st : RoutingState)
    → Alike now st (pick weights sample deployments exclude now st).1
unfolding pick
pick-Alike weights sample deployments exclude now st =
    let (found, once) = candidates-eq-eligible exclude now deployments st in
    let st' = (candidates exclude now deployments st).1 in
    let ds = (candidates exclude now deployments st).0 in
    let (probes, again) = half_open_among-eq now ds st' in trans-Alike now st st' _ once again
