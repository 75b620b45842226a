-- ===== src/Routing/Ladder.antt =====
-- routing/ladder.py: the model groups that a request may be routed to, in order.
pub mod Order
pub mod Complete
mod Tests
use tide_gate.Prelude.{
  ℕ, String, string_eq, Bool, true, false, Option, none, some, List, [], ◌∷◌, ◌++◌, if◌then◌else◌,
  get_or, contains, ◌==◌,
}
use tide_gate.Prelude.Int.{negsuc}
use tide_gate.Prelude.Dict.{lookup}
use tide_gate.Config.{GatewayConfig, ModelGroupConfig, PolicyConfig, TenantConfig}

pub record RouteLevel : Type 0 where
  pub model_group_name : String
  pub group : ModelGroupConfig
  pub degraded : Option String

-- `PolicyConfig()`
abbrev pub default_policy : PolicyConfig
default_policy = record {
  fallback_chain = "chat-large" ∷ [];
  degradation = record { smaller_model_group = none; stale_cache = true };
  hedging = record {
    enabled = false;
    trigger_quantile = record { num = 95; den = 100 };
    trigger_floor_s = 2_000_000;
    max_hedge_ratio = record { num = 5; den = 100 };
  };
  cascade = record {
    enabled = false;
    draft_model_group = none;
    confidence_metric = "mean_logprob";
    threshold = negsuc 449_999;
  };
}

-- `policies.get(tenant.policy, PolicyConfig())`
unfoldable pub policy_of : GatewayConfig → TenantConfig → PolicyConfig
policy_of settings tenant = get_or (lookup tenant.policy settings.policies) default_policy

-- The lists `levels` and `seen` that `_append` extends.
pub record Ladder : Type 0 where
  pub levels : List RouteLevel
  pub seen : List String

-- `RoutingLadder._append`
unfoldable pub add_level : GatewayConfig → String → Option String → Ladder → Ladder
add_level settings name degraded l =
    if contains name l.seen then l else elim (lookup name settings.model_groups) [
      | none ↦ l
      | some group ↦ record {
        levels =
            l.levels ++ record { model_group_name = name; group = group; degraded = degraded } ∷ [];
        seen = l.seen ++ name ∷ [];
      }
    ]

unfoldable pub add_fallbacks : GatewayConfig → List String → Ladder → Ladder
unfolding add_level
add_fallbacks settings [] l = l
add_fallbacks settings (name ∷ names) l =
    add_fallbacks settings names (add_level settings name (some "fallback") l)

-- `chain[chain.index(name) + 1 :]`, for a name that is in the chain
unfoldable pub after : String → List String → List String
after name [] = []
after name (x ∷ xs) = if x == name then xs else after name xs

unfoldable pub fallback_names : String → List String → List String
unfolding after
fallback_names requested chain = if contains requested chain then after requested chain else chain

unfoldable pub add_smaller : GatewayConfig → Option String → Ladder → Ladder
unfolding add_level
add_smaller settings none l = l
add_smaller settings (some name) l = add_level settings name (some "smaller-model") l

-- `RoutingLadder.levels`
unfoldable pub levels : GatewayConfig → String → TenantConfig → List RouteLevel
unfolding add_level add_fallbacks fallback_names add_smaller policy_of
levels settings requested tenant =
    let policy = policy_of settings tenant in
    let first = add_level settings requested none (record { levels = []; seen = [] }) in
    let next = add_fallbacks settings (fallback_names requested policy.fallback_chain) first in
    let last = add_smaller settings policy.degradation.smaller_model_group next in last.levels
