-- ===== src/Routing/Cascade.antt =====
-- routing/cascade.py: when a cheap draft is tried first, and when its answer is good enough.
pub mod Decision
use tide_gate.Prelude.{
  String, string_eq, Bool, true, false, not, ◌&&◌, Option, none, some, List, [], ◌∷◌, if◌then◌else◌,
  any, ◌==◌, is_some,
}
use tide_gate.Prelude.Int.{ℤ, pos, leb_ℤ}
use tide_gate.Prelude.Dict.{lookup}
use tide_gate.Core.{UnifiedRequest, UnifiedResponse}
use tide_gate.Config.{
  CascadeConfig, DeploymentConfig, GatewayConfig, ModelGroupConfig, PolicyConfig,
}

pub record CascadeDecision : Type 0 where
  pub enabled : Bool
  pub draft_group : Option String
  pub threshold : ℤ
  pub reason : Option String

-- `CascadeDecision(False, reason=…)`
abbrev pub declined : String → CascadeDecision
declined reason = record {
  enabled = false;
  draft_group = none;
  threshold = pos 0;
  reason = some reason;
}

-- the two tests on the draft group, whose name is known
unfoldable pub decide_group : CascadeConfig → String → Option ModelGroupConfig → CascadeDecision
decide_group cascade name none = declined "missing_draft_group"
decide_group cascade name (some group) =
    if not (any (λ d. d.supports_logprobs) group.deployments)
    then declined "draft_no_logprobs"
    else record {
      enabled = true;
      draft_group = some name;
      threshold = cascade.threshold;
      reason = none;
    }

unfoldable pub decide_draft : CascadeConfig → GatewayConfig → Option String → CascadeDecision
unfolding decide_group
decide_draft cascade settings none = declined "missing_draft_group"
decide_draft cascade settings (some name) =
    decide_group cascade name (lookup name settings.model_groups)

unfoldable pub cascade_decision : UnifiedRequest → PolicyConfig → GatewayConfig → CascadeDecision
unfolding decide_draft
cascade_decision req policy settings =
    if not policy.cascade.enabled
    then declined "disabled"
    else if req.stream
    then declined "stream"
    else if req.has_tools
    then declined "tools"
    else decide_draft policy.cascade settings policy.cascade.draft_model_group

-- The copy of the raw body, which gets the same field, is not modelled.
unfoldable pub force_logprobs : UnifiedRequest → UnifiedRequest
force_logprobs req = record req { logprobs = true }

-- `mean_logprob is not None and mean_logprob >= threshold`
unfoldable pub reaches : Option ℤ → ℤ → Bool
reaches none threshold = false
reaches (some p) threshold = leb_ℤ threshold p

unfoldable pub draft_accepted : UnifiedResponse → CascadeConfig → Bool
unfolding reaches
draft_accepted response cascade =
    if not (cascade.confidence_metric == "mean_logprob")
    then false
    else reaches response.mean_logprob cascade.threshold
