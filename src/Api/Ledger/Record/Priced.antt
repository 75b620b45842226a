-- ===== src/Api/Ledger/Record/Priced.antt =====
-- What the ledger makes of the route of a deployment.
use tide_gate.Prelude.{
  ℕ, ◌≡◌, refl, true, false, List, [], ◌∷◌, ◌++◌, arith, inl, inr, contains, Bool-cases, ◌==◌,
  count_eq, Bool, Option, String, some, none, ap, ◌&&◌, ◌⊎◌, ◌∙◌,
}
use tide_gate.Prelude.Text.{codes, codes_eq}
use tide_gate.Config.{DeploymentConfig, ModelGroupConfig, GatewayConfig}
use tide_gate.Api.Ledger.Record.{
  slash, route_header, route_parts, split_at_slash, route_in_group, route_in_groups, ledger_record,
  deployment_for_route, cost_on,
}
use tide_gate.Prelude.Dict.{Dict}
use tide_gate.Core.{UnifiedRequest, Usage}
use tide_gate.Api.Ledger.{usage_cost_microusd}
use tide_gate.Routing.Selector.Choice.{Among}

contains-header : (before after : List ℕ) → contains slash (before ++ (slash ∷ after)) ≡ true
contains-header [] after = refl
contains-header (c ∷ cs) after = ground (arith, contains-header cs after)

split_at_slash-header :
    (before after : List ℕ)
    → contains slash before ≡ false
    → split_at_slash (before ++ (slash ∷ after)) ≡ (before, after)
unfolding split_at_slash
split_at_slash-header [] after h = refl
split_at_slash-header (c ∷ cs) after h = elim (Bool-cases (c == slash)) [
  | inl same ↦ let bad = (rw same at h) in cc
  | inr other ↦
      let rest : contains slash cs ≡ false = (rw other at h) in
      rw (split_at_slash-header cs after rest, other) refl
]

-- The route of a deployment is cut into its two names again, unless the provider's has a slash.
pub route_parts-route_header :
    (d : DeploymentConfig)
    → contains slash (codes d.provider) ≡ false
    → route_parts (route_header d) ≡ (codes d.provider, codes d.upstream_model)
unfolding route_parts route_header
route_parts-route_header d h =
    rw
      (
        contains-header (codes d.provider) (codes d.upstream_model),
        split_at_slash-header (codes d.provider) (codes d.upstream_model) h,
      )
      refl

-- a deployment of the configuration
abbrev pub Configured : DeploymentConfig → Dict String ModelGroupConfig → Type 0
Configured d [] = ⊥
Configured d ((name, group) ∷ groups) = Among d group.deployments ⊎ Configured d groups

-- the test of the loops
abbrev pub SameRoute : List ℕ → List ℕ → DeploymentConfig → Type 0
SameRoute provider upstream_model d =
    (codes d.provider ≡ provider) × (codes d.upstream_model ≡ upstream_model)

module _ (provider upstream_model : List ℕ) where
  abbrev matches : DeploymentConfig → Bool
  matches d = (codes d.provider == provider) && (codes d.upstream_model == upstream_model)

  matches_sound : (d : DeploymentConfig) → matches d ≡ true → SameRoute provider upstream_model d
  matches_sound d h = ground (
    arith,
    codes_eq.same_iff (codes d.provider) provider,
    codes_eq.same_iff (codes d.upstream_model) upstream_model,
  )

  matches_complete : (d : DeploymentConfig) → SameRoute provider upstream_model d → matches d ≡ true
  matches_complete d (p, m) = ground (
    arith,
    (codes_eq.same_iff (codes d.provider) provider).1 p,
    (codes_eq.same_iff (codes d.upstream_model) upstream_model).1 m,
  )

  -- what the search finds is there and has the route
  Found : List DeploymentConfig → Option DeploymentConfig → Type 0
  Found ds o =
      (d : DeploymentConfig) × (o ≡ some d) × Among d ds × SameRoute provider upstream_model d

  route_in_group-Found :
      (ds : List DeploymentConfig)
      → (route_in_group provider upstream_model ds ≡ none)
        ⊎ Found ds (route_in_group provider upstream_model ds)
  unfolding route_in_group Found
  route_in_group-Found [] = inl refl
  route_in_group-Found (d ∷ ds) = elim (Bool-cases (matches d)) [
    | inl same ↦ inr (d, rw (route_in_group, same) refl, inl refl, matches_sound d same)
    | inr other ↦ elim (route_in_group-Found ds) [
      | inl no_one ↦ inl (rw (route_in_group, other) no_one)
      | inr (e, found, among, has) ↦ inr (e, rw (route_in_group, other) found, inr among, has)
    ]
  ]

  route_in_group-finds :
      (ds : List DeploymentConfig) (d : DeploymentConfig)
      → Among d ds
      → SameRoute provider upstream_model d
      → ¬ (route_in_group provider upstream_model ds ≡ none)
  unfolding route_in_group
  route_in_group-finds [] d i has = absurd i
  route_in_group-finds (x ∷ ds) d i has = elim (Bool-cases (matches x)) [
    | inl same ↦ rw (route_in_group, same) (λ h. cc)
    | inr other ↦ elim i [
      | inl here ↦ let hit = (rw here at (matches_complete d has)) in absurd (cc)
      | inr there ↦ rw (route_in_group, other) (route_in_group-finds ds d there has)
    ]
  ]

  deployment-Configured :
      (groups : Dict String ModelGroupConfig) (d : DeploymentConfig)
      → Configured d groups
      → SameRoute provider upstream_model d
      → (e : DeploymentConfig) × (route_in_groups provider upstream_model groups ≡ some e)
        × Configured e groups
        × SameRoute provider upstream_model e
  unfolding route_in_groups Found
  deployment-Configured [] d i has = absurd i
  deployment-Configured ((name, group) ∷ groups) d i has =
      elim (route_in_group-Found group.deployments) [
        | inr (e, found, among, same) ↦ (e, rw (route_in_groups, found) refl, inl among, same)
        | inl no_one ↦ elim i [
          | inl here ↦ absurd (route_in_group-finds group.deployments d here has no_one)
          | inr there ↦
              let (e, found, among, same) = deployment-Configured groups d there has in
              (e, rw (route_in_groups, no_one) found, inr among, same)
        ]
      ]

-- The ledger prices a request that a configured deployment served, whose provider's name has no slash,
-- at the price of a configured deployment with the same provider and the same upstream model, and keeps
-- both names.
pub ledger_record-Priced :
    (unified : UnifiedRequest) (usage : Usage) (d : DeploymentConfig) (cache_header : String)
    (degraded : Option String) (outcome : String) (settings : GatewayConfig)
    → contains slash (codes d.provider) ≡ false
    → Configured d settings.model_groups
    → let r = ledger_record unified usage (route_header d) cache_header degraded outcome settings in
      (r.provider ≡ codes d.provider)
      × (r.upstream_model ≡ codes d.upstream_model)
      × ((e : DeploymentConfig) × Configured e settings.model_groups
          × SameRoute (codes d.provider) (codes d.upstream_model) e
          × (r.cost_microusd ≡ usage_cost_microusd usage e))
unfolding ledger_record deployment_for_route cost_on
ledger_record-Priced unified usage d cache_header degraded outcome settings plain there =
    let parts = route_parts-route_header d plain in
    let (e, found, among, same) =
      deployment-Configured (codes d.provider) (codes d.upstream_model) settings.model_groups d
        there (refl, refl) in
    (
      ap (λ (p : List ℕ × List ℕ). p.0) parts,
      ap (λ (p : List ℕ × List ℕ). p.1) parts,
      (
        e,
        among,
        same,
        ap (λ (p : List ℕ × List ℕ). cost_on usage (route_in_groups p.0 p.1 settings.model_groups))
              parts
            ∙ ap (cost_on usage) found,
      ),
    )
