-- ===== src/Cache/Gates.antt =====
-- cache/gates.py: what may be read from the cache, and what may be put there.
pub mod Agreement
use tide_gate.Prelude.{
  ℕ, String, Bool, true, false, not, ◌&&◌, ◌||◌, Option, none, some, List, [], ◌∷◌, leb, ltb,
  if◌then◌else◌, get_or, any, count_if, ◌==◌, count_eq, string_eq, length,
}
use tide_gate.Prelude.Text.{codes, occurs_in, strip, utf8_length}
use tide_gate.Core.{
  Role, ChatMessage, UnifiedRequest, UnifiedResponse, system, user, assistant, tool,
}
use tide_gate.Config.{GatewayConfig, TenantConfig}
use tide_gate.Quota.Estimator.{prompt_text}

pub record CacheReadDecision : Type 0 where
  pub l1 : Bool
  pub l2 : Bool
  pub bypass_reason : Option String

unfoldable pub is_user : Role → Bool
is_user user = true
is_user system = false
is_user assistant = false
is_user tool = false

unfoldable pub l2_context_allowed : UnifiedRequest → Bool
unfolding is_user
l2_context_allowed req = count_if (λ (m : ChatMessage). is_user m.role) req.messages == 1

unfoldable pub temperature_ok : UnifiedRequest → GatewayConfig → Bool
temperature_ok req settings = leb (get_or req.temperature 0) settings.cache.l2.max_temperature

-- `_is_volatile`; the text is joined as the estimator joins it
unfoldable pub is_volatile : UnifiedRequest → GatewayConfig → Bool
unfolding prompt_text
is_volatile req settings =
    any (λ p. occurs_in (codes p) (codes (prompt_text req.messages)))
      settings.cache.volatile_intent_patterns

-- the levels that a request may use
unfoldable pub usable_levels : UnifiedRequest → TenantConfig → GatewayConfig → Bool × Bool
unfolding temperature_ok l2_context_allowed
usable_levels req tenant settings =
    (tenant.cache.l1, tenant.cache.l2 && temperature_ok req settings && l2_context_allowed req)

unfoldable pub read_decision : UnifiedRequest → TenantConfig → GatewayConfig → CacheReadDecision
unfolding is_volatile usable_levels
read_decision req tenant settings =
    if is_volatile req settings
    then record { l1 = false; l2 = false; bypass_reason = some "volatile" }
    else if req.has_tools
    then record { l1 = false; l2 = false; bypass_reason = some "tools" }
    else (let (l1, l2) = usable_levels req tenant settings in
        record { l1 = l1; l2 = l2; bypass_reason = none })

unfoldable pub is_empty : List ℕ → Bool
is_empty [] = true
is_empty (c ∷ cs) = false

unfoldable pub can_store :
    UnifiedRequest → TenantConfig → UnifiedResponse → GatewayConfig → Bool → Bool × Bool
unfolding is_volatile usable_levels is_empty
can_store req tenant response settings degraded =
    let content = strip response.content in
    if degraded || req.has_tools || is_volatile req settings
    then (false, false)
    else if not (response.finish_reason == "stop")
    then (false, false)
    else if is_empty content
    then (false, false)
    else if ltb settings.cache.l1.max_value_bytes (utf8_length content)
    then (false, false)
    else if any (λ p. occurs_in (codes p) content) settings.cache.reject_patterns
    then (false, false)
    else usable_levels req tenant settings
