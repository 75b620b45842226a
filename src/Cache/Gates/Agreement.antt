-- ===== src/Cache/Gates/Agreement.antt =====
-- What is stored for a request can be read by it, and is a clean answer.
use tide_gate.Prelude.{
  ◌≡◌, ◌↔◌, ◌≤◌, Bool, true, false, not, ◌&&◌, arith, ltb, any, ◌==◌, string_eq,
}
use tide_gate.Prelude.Text.{codes, occurs_in, strip, utf8_length}
use tide_gate.Core.{UnifiedRequest, UnifiedResponse}
use tide_gate.Config.{GatewayConfig, TenantConfig}
use tide_gate.Cache.Gates.{can_store, read_decision, is_empty}

-- An answer worth keeping: not degraded, finished by itself, with some text that is not too long and
-- holds none of the patterns.
pub record Clean (response : UnifiedResponse) (settings : GatewayConfig) (degraded : Bool)
    : Type 0 where
  pub whole : degraded ≡ false
  pub finished : response.finish_reason ≡ "stop"
  pub some_text : is_empty (strip response.content) ≡ false
  pub fits : utf8_length (strip response.content) ≤ settings.cache.l1.max_value_bytes
  pub no_pattern :
      any (λ p. occurs_in (codes p) (strip response.content)) settings.cache.reject_patterns ≡ false

-- the tests of `can_store` on the response
abbrev clean_test : UnifiedResponse → GatewayConfig → Bool → Bool
clean_test response settings degraded =
    let content = strip response.content in
    not degraded
    && response.finish_reason == "stop"
    && not (is_empty content)
    && not (ltb settings.cache.l1.max_value_bytes (utf8_length content))
    && not (any (λ p. occurs_in (codes p) content) settings.cache.reject_patterns)

can_store-tests :
    (req : UnifiedRequest) (tenant : TenantConfig) (response : UnifiedResponse)
    (settings : GatewayConfig) (degraded : Bool)
    → let stored = can_store req tenant response settings degraded in
      let read = read_decision req tenant settings in
      (stored.0 ≡ (clean_test response settings degraded && read.l1))
      × (stored.1 ≡ (clean_test response settings degraded && read.l2))
unfolding can_store read_decision
can_store-tests req tenant response settings degraded = ground arith

clean_test_iff :
    (response : UnifiedResponse) (settings : GatewayConfig) (degraded : Bool)
    → (clean_test response settings degraded ≡ true) ↔ Clean response settings degraded
clean_test_iff response settings degraded = (
  λ h. record {
    whole = ground arith;
    finished = (string_eq.same_iff response.finish_reason "stop").0 (ground arith);
    some_text = ground arith;
    fits = ground arith;
    no_pattern = ground arith;
  },
  λ c. ground (
    arith,
    c.whole,
    (string_eq.same_iff response.finish_reason "stop").1 c.finished,
    c.some_text,
    c.fits,
    c.no_pattern,
  ),
)

both : (x y : Bool) → (x && y) ≡ true → (x ≡ true) × (y ≡ true)
both x y h = ground arith

both_iff :
    (response : UnifiedResponse) (settings : GatewayConfig) (degraded stored read : Bool)
    → stored ≡ (clean_test response settings degraded && read)
    → (stored ≡ true) ↔ ((read ≡ true) × Clean response settings degraded)
both_iff response settings degraded stored read e = (
  λ h.
      let (clean, readable) = both (clean_test response settings degraded) read (rw (← e) h) in
      (readable, (clean_test_iff response settings degraded).0 clean),
  λ w. rw (e, (clean_test_iff response settings degraded).1 w.1) w.0,
)

-- A response is stored at a level exactly if the request may read that level and the response is
-- clean.
pub can_store_iff :
    (req : UnifiedRequest) (tenant : TenantConfig) (response : UnifiedResponse)
    (settings : GatewayConfig) (degraded : Bool)
    → let stored = can_store req tenant response settings degraded in
      let read = read_decision req tenant settings in
      ((stored.0 ≡ true) ↔ ((read.l1 ≡ true) × Clean response settings degraded))
      × ((stored.1 ≡ true) ↔ ((read.l2 ≡ true) × Clean response settings degraded))
can_store_iff req tenant response settings degraded =
    let (l1, l2) = can_store-tests req tenant response settings degraded in
    (both_iff response settings degraded _ _ l1, both_iff response settings degraded _ _ l2)
