-- ===== src/Quota/Estimator/Tests.antt =====
-- The estimate of a request with a stand-in for the tokenizer.
use Prim.Native.String.{len}
use tide_gate.Prelude.{ℕ, ◌+◌, ◌≤◌, max, ◌≡◌, refl, string_eq, true, some, []}
use tide_gate.Prelude.Dict.{lookup}
use tide_gate.Config.Samples.{sample_request, large_a, sample_settings}
use tide_gate.Quota.Estimator.{budget_micro, estimate}
use tide_gate.Quota.Estimator.Bounds.{ratio_in_use, estimate-covers}

-- 5 tokens in, 20 out, at half a cent for a thousand
estimate_run :
    (estimate len true true [] sample_request large_a sample_settings).budget_cost_micro ≡ 125
unfolding estimate lookup
estimate_run = refl

estimate-covers_example :
    let e = estimate len true true [] sample_request large_a sample_settings in
    (1 ≤ e.prompt_tokens)
    × (1 ≤ e.output_tokens)
    × (1 ≤ e.tpm_cost)
    × ((m : ℕ) → sample_request.max_tokens ≡ some m → e.output_tokens ≤ max 1 m)
    × ((p o : ℕ)
        → p ≤ e.prompt_tokens
        → o ≤ e.output_tokens
        → (budget_micro p o large_a ≤ e.budget_cost_micro)
          × (1_000_000 ≤ ratio_in_use true [] sample_request → p + o ≤ e.tpm_cost))
estimate-covers_example = estimate-covers len true true [] sample_request large_a sample_settings
