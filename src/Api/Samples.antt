-- ===== src/Api/Samples.antt =====
-- A request, the gateway that serves it, and what a provider answers.
use tide_gate.Prelude.Int.{negsuc}
use tide_gate.Prelude.{[], ◌∷◌, List, some, true, none, false}
use tide_gate.Api.Gateway.{Context, App, Settling}
use tide_gate.Core.{UnifiedResponse}
use tide_gate.Quota.Estimator.{Estimate}
use tide_gate.Quota.Service.{Moment, delivered}
use tide_gate.Cache.SingleFlight.{Flight, no_flights}
use tide_gate.Api.Ledger.{QuotaSettlement}
use tide_gate.Api.Attempts.{PickResult}
use tide_gate.Config.{DeploymentConfig}
use tide_gate.Config.Samples.{
  sample_settings, sample_routing, large_a, large_b, sample_tenant, chat_large, sample_request,
  chat_small, sample_weights,
}
use tide_gate.Routing.Ladder.{RouteLevel}
use tide_gate.Quota.Scripts.{empty_quota}
use tide_gate.Settlement.Batcher.{new_batcher}

abbrev pub first_two : List DeploymentConfig → DeploymentConfig × DeploymentConfig
first_two [] = (large_a, large_b)
first_two (d ∷ []) = (d, d)
first_two (d ∷ e ∷ ds) = (d, e)

abbrev pub context : Context
context = record {
  settings = sample_settings;
  tenant = sample_tenant;
  unified = sample_request;
  weights = sample_weights;
  sample = first_two;
  entry_capacity = 10;
}

abbrev pub app : App
app = record {
  routing = record { settings = sample_routing; stats = []; breakers = [] };
  flights = no_flights;
  entries = record { entries = []; deleted = [] };
  quota = record {
    fallback = record { rpm = []; tpm = [] };
    fallback_active = false;
    quota_settle_failed = [];
    corrections = [];
  };
  keys = empty_quota;
  ledger = new_batcher true sample_settings.settlement;
  attempt_ledger = new_batcher true sample_settings.settlement;
  stored = [];
  attempt_seq_next = 0;
  hedge_budget = record { window_s = 60_000_000; requests = []; hedges = [] };
}

abbrev pub reply : UnifiedResponse
reply = record {
  content = 104 ∷ 105 ∷ [];
  finish_reason = "stop";
  usage = record { prompt_tokens = 3; completion_tokens = 2; total_tokens = 5 };
  model = "large";
  mean_logprob = some (negsuc 899_999);
}

abbrev pub cost : Estimate
cost = record { prompt_tokens = 5; output_tokens = 20; tpm_cost = 25; budget_cost_micro = 125 }

abbrev pub arrives : Settling
arrives = record { first = delivered; second = delivered; learn = none }

abbrev pub moment : Moment
moment = record { instances = 1; monotonic = 10; now_ms = 1000; month = "2026-05" }

abbrev pub sample_levels : List RouteLevel
sample_levels =
    record { model_group_name = "chat-large"; group = chat_large; degraded = none }
    ∷ record {
      model_group_name = "chat-small";
      group = chat_small;
      degraded = some "smaller-model";
    }
    ∷ []

abbrev pub leader : Flight
leader = record { key = "key"; future = 0; leader = true }

abbrev pub sample_settlement : QuotaSettlement
sample_settlement = record {
  reservation = record {
    tenant_id = "tenant-a";
    request_id = "r1";
    model = "chat-large";
    deployment = large_a;
    estimated = cost;
    snapshot = sample_settings;
    month = "2026-05";
    redis_reserved = true;
  };
  settled = false;
  captured = none;
}

abbrev pub picked : PickResult
picked = record {
  deployment = large_a;
  level = record { model_group_name = "chat-large"; group = chat_large; degraded = none };
  level_index = 0;
}
