-- ===== src/Routing/Cascade/Decision.antt =====
-- A cascade is decided exactly when its conditions hold.
use tide_gate.Prelude.{
  ◌≡◌, ◌↔◌, refl, String, string_eq, true, false, Option, none, some, arith, any, Option-cases, inl,
  inr,
}
use tide_gate.Prelude.Int.{ℤ, ◌≤ℤ◌}
use tide_gate.Prelude.Dict.{lookup}
use tide_gate.Core.{UnifiedRequest, UnifiedResponse}
use tide_gate.Config.{CascadeConfig, GatewayConfig, ModelGroupConfig, PolicyConfig}
use tide_gate.Routing.Cascade.{cascade_decision, decide_draft, draft_accepted, reaches}

-- What a cascade wants.
pub record Suits (req : UnifiedRequest) (policy : PolicyConfig) (settings : GatewayConfig)
    : Type 0 where
  pub wanted : policy.cascade.enabled ≡ true
  pub plain : (req.stream ≡ false) × (req.has_tools ≡ false)
  pub group :
      (name : String) × (g : ModelGroupConfig) × (policy.cascade.draft_model_group ≡ some name)
      × (lookup name settings.model_groups ≡ some g)
      × (any (λ d. d.supports_logprobs) g.deployments ≡ true)

suits_group :
    (cascade : CascadeConfig) (settings : GatewayConfig) (draft : Option String)
    → (decide_draft cascade settings draft).enabled ≡ true
    → (name : String) × (g : ModelGroupConfig) × (draft ≡ some name)
      × (lookup name settings.model_groups ≡ some g)
      × (any (λ d. d.supports_logprobs) g.deployments ≡ true)
unfolding decide_draft
suits_group cascade settings none h = absurd (cc)
suits_group cascade settings (some name) h =
    elim (Option-cases (lookup name settings.model_groups)) [
      | inl missing ↦ absurd (let bad = (rw missing at h) in cc)
      | inr (g, found) ↦ (name, g, refl, found, let ok_ = (rw found at h) in ground arith)
    ]

decided :
    (cascade : CascadeConfig) (settings : GatewayConfig) (draft : Option String) (name : String)
    (g : ModelGroupConfig)
    → draft ≡ some name
    → lookup name settings.model_groups ≡ some g
    → any (λ d. d.supports_logprobs) g.deployments ≡ true
    → (decide_draft cascade settings draft).enabled ≡ true
unfolding decide_draft
decided cascade settings draft name g e found able = rw (e, decide_draft, found, able) refl

-- A cascade is decided exactly if the policy wants it, the request neither streams nor brings tools,
-- and the draft group is configured with a deployment that returns log probabilities; the decision
-- then names that group and the policy's threshold.
pub cascade_decision_iff :
    (req : UnifiedRequest) (policy : PolicyConfig) (settings : GatewayConfig)
    → let d = cascade_decision req policy settings in
      ((d.enabled ≡ true) ↔ Suits req policy settings)
      × (d.enabled ≡ true
          → (d.draft_group ≡ policy.cascade.draft_model_group)
            × (d.threshold ≡ policy.cascade.threshold))
unfolding cascade_decision
cascade_decision_iff req policy settings = (
  (
    λ h. record {
      wanted = ground arith;
      plain = ground arith;
      group = suits_group policy.cascade settings policy.cascade.draft_model_group (ground arith);
    },
    λ s.
        let (name, g, e, found, able) = s.group in
        let enough =
          decided policy.cascade settings policy.cascade.draft_model_group name g e found able in
        ground (arith, s.wanted, s.plain.0, s.plain.1, enough),
  ),
  λ h. ground arith,
)

reaches_iff :
    (mean : Option ℤ) (t : ℤ) → (reaches mean t ≡ true) ↔ ((p : ℤ) × (mean ≡ some p) × (t ≤ℤ p))
unfolding reaches
reaches_iff none t = (λ h. absurd (cc), λ w. let (p, e, l) = w in cc)
reaches_iff (some p) t = (λ h. (p, refl, ground arith), λ w. let (q, e, l) = w in ground arith)

-- A draft is accepted exactly if the metric is the mean log probability, the provider returned one,
-- and it is at least the threshold.
pub draft_accepted_iff :
    (response : UnifiedResponse) (cascade : CascadeConfig)
    → (draft_accepted response cascade ≡ true) ↔ (
        (cascade.confidence_metric ≡ "mean_logprob")
        × ((p : ℤ) × (response.mean_logprob ≡ some p) × (cascade.threshold ≤ℤ p)))
unfolding draft_accepted
draft_accepted_iff response cascade = (
  λ h.
      let (p, e, l) = (reaches_iff response.mean_logprob cascade.threshold).0 (ground arith) in
      (ground (arith, string_eq.same_iff cascade.confidence_metric "mean_logprob"), (p, e, l)),
  λ w.
      let r = (reaches_iff response.mean_logprob cascade.threshold).1 w.1 in
      ground (arith, r, w.0, string_eq.same_iff cascade.confidence_metric "mean_logprob"),
)
