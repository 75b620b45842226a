-- ===== src/Quota/Estimator/Bounds.antt =====
-- What an estimate covers.
use tide_gate.Prelude.{
  ℕ, ◌+◌, ◌*◌, ◌≤◌, max, ◌≡◌, String, string_eq, Bool, Option, some, arith, get_or, ceil_div,
}
use tide_gate.Prelude.Dict.{Dict}
use tide_gate.Core.{UnifiedRequest}
use tide_gate.Config.{DeploymentConfig, GatewayConfig}
use tide_gate.Quota.Estimator.{
  Correction, correction_for, correction_key, safe_hget, estimate, output_estimate, budget_micro,
}

mul-le : (p p' c : ℕ) → p ≤ p' → p * c ≤ p' * c
mul-le p p' c h = grind arith

ceil_1000-le : (a b : ℕ) → a ≤ b → ceil_div a 1000 ≤ ceil_div b 1000
ceil_1000-le a b h = omega arith

pub budget_micro-le :
    (p o p' o' : ℕ) (d : DeploymentConfig)
    → p ≤ p'
    → o ≤ o'
    → budget_micro p o d ≤ budget_micro p' o' d
unfolding budget_micro
budget_micro-le p o p' o' d h k =
    ceil_1000-le _ _ (
      omega
        (arith, mul-le p p' d.price_per_1k_input_usd h, mul-le o o' d.price_per_1k_output_usd k))

output_estimate-bounds :
    (req : UnifiedRequest) (snapshot : GatewayConfig) (learned : Option ℕ)
    → (1 ≤ output_estimate req snapshot learned)
      × ((m : ℕ) → req.max_tokens ≡ some m → output_estimate req snapshot learned ≤ max 1 m)
unfolding output_estimate
output_estimate-bounds req snapshot learned =
    (omega arith, λ m h. rw (output_estimate, h) (omega arith))

tpm_covers :
    (tokens ratio : ℕ) → 1_000_000 ≤ ratio → tokens ≤ max 1 (ceil_div (tokens * ratio) 1_000_000)
tpm_covers tokens ratio h = omega (arith, scaled tokens ratio h)
  where
    scaled : (tokens ratio : ℕ) → 1_000_000 ≤ ratio → tokens * 1_000_000 ≤ tokens * ratio
    scaled tokens ratio h = grind arith

-- the learned ratio that an estimate uses
abbrev pub ratio_in_use : Bool → Dict String Correction → UnifiedRequest → ℕ
ratio_in_use up store req =
    get_or (safe_hget up (correction_for store (correction_key req.tenant_id req.model)).ewma_ratio)
      1_000_000

-- An estimate counts at least one prompt token, one output token and one token of cost, and no more
-- output than the request allows (or one); a usage within its tokens costs no more than its budget,
-- and with a ratio of one or more no more tokens than its cost.
pub estimate-covers :
    (count_tokens : String → ℕ) (output_up ratio_up : Bool) (store : Dict String Correction)
    (req : UnifiedRequest) (d : DeploymentConfig) (snapshot : GatewayConfig)
    → let e = estimate count_tokens output_up ratio_up store req d snapshot in
      (1 ≤ e.prompt_tokens)
      × (1 ≤ e.output_tokens)
      × (1 ≤ e.tpm_cost)
      × ((m : ℕ) → req.max_tokens ≡ some m → e.output_tokens ≤ max 1 m)
      × ((p o : ℕ)
          → p ≤ e.prompt_tokens
          → o ≤ e.output_tokens
          → (budget_micro p o d ≤ e.budget_cost_micro)
            × (1_000_000 ≤ ratio_in_use ratio_up store req → p + o ≤ e.tpm_cost))
unfolding estimate
estimate-covers count_tokens output_up ratio_up store req d snapshot =
    let e = estimate count_tokens output_up ratio_up store req d snapshot in
    let (least, most) = output_estimate-bounds req snapshot (
      safe_hget output_up
        (correction_for store (correction_key req.tenant_id req.model)).output_ewma) in
    (
      omega arith,
      least,
      omega arith,
      most,
      λ p o h k. (
        budget_micro-le p o e.prompt_tokens e.output_tokens d h k,
        λ r. omega (arith, tpm_covers (e.prompt_tokens + e.output_tokens) _ r),
      ),
    )
