-- ===== src/Api/Ledger/Tests.antt =====
-- The settlement of a stream whose client goes away, and the two costs of a usage.
use tide_gate.Prelude.{◌≡◌, refl, true, false, none, some, List, [], ◌∷◌, inl, inr}
use tide_gate.Core.{Usage}
use tide_gate.Config.Samples.{large_a, large_b, sample_settings, sample_request}
use tide_gate.Quota.Scripts.{empty_quota}
use tide_gate.Quota.Service.{QuotaReservation, QuotaService, delivered, redis_error}
use tide_gate.Api.Ledger.{QuotaSettlement, usage_cost_microusd}
use tide_gate.Api.Ledger.Once.{
  Action, IsSettling, captures, uses, settles, refunds, acts, Once, acts-Once, act,
}
use tide_gate.Prelude.Text.{codes}
use tide_gate.Api.Ledger.Record.{ledger_record, route_header}
use tide_gate.Config.{DeploymentConfig}
use tide_gate.Api.Ledger.Record.Priced.{Configured, SameRoute, ledger_record-Priced}

abbrev usage : Usage
usage = record { prompt_tokens = 3; completion_tokens = 2; total_tokens = 5 }

abbrev held : QuotaReservation
held = record {
  tenant_id = "tenant-a";
  request_id = "r1";
  model = "chat-large";
  deployment = large_a;
  estimated = record {
    prompt_tokens = 5;
    output_tokens = 20;
    tpm_cost = 25;
    budget_cost_micro = 125;
  };
  snapshot = sample_settings;
  month = "2026-05";
  redis_reserved = true;
}

abbrev settlement : QuotaSettlement
settlement = record { reservation = held; settled = false; captured = none }

abbrev service : QuotaService
service = record {
  fallback = record { rpm = []; tpm = [] };
  fallback_active = false;
  quota_settle_failed = [];
  corrections = [];
}

abbrev calls : List Action
calls =
    uses large_b
    ∷ captures (some usage)
    ∷ settles (redis_error true) delivered none none 7
    ∷ refunds delivered delivered none
    ∷ []

acts-Once_example :
    Once held empty_quota (acts calls (settlement, service, empty_quota)).2
    × ((a : Action)
        → IsSettling a
        → let w = act a (settlement, service, empty_quota) in
          (w.0.settled ≡ true) × ((acts calls w).1 ≡ w.1) × ((acts calls w).2 ≡ w.2))
acts-Once_example = acts-Once calls settlement service empty_quota refl

-- 25000 and 20000 thousandths
costs_run : (usage_cost_microusd usage large_a ≡ 25) × (usage_cost_microusd usage large_b ≡ 20)
unfolding usage_cost_microusd
costs_run = (refl, refl)

ledger_record-Priced_example :
    let r =
      ledger_record sample_request usage (route_header large_b) "miss" none "ok" sample_settings in
    (r.provider ≡ codes "mock-b")
    × (r.upstream_model ≡ codes "large")
    × ((e : DeploymentConfig) × Configured e sample_settings.model_groups
        × SameRoute (codes "mock-b") (codes "large") e
        × (r.cost_microusd ≡ usage_cost_microusd usage e))
unfolding codes
ledger_record-Priced_example =
    ledger_record-Priced sample_request usage large_b "miss" none "ok" sample_settings refl
      (inl (inr (inl refl)))
