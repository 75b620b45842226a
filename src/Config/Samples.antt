-- ===== src/Config/Samples.antt =====
-- A configuration on which the theorems are tried: two providers, two groups, one tenant.
use tide_gate.Prelude.{ℕ, String, true, false, none, some, [], ◌∷◌, ◌*◌, ◌^◌, ◌/◌}
use tide_gate.Prelude.Int.{pos, negsuc}
use tide_gate.Core.{UnifiedRequest, user}
use tide_gate.Config.{
  BreakerConfig, CascadeConfig, DeploymentConfig, GatewayConfig, HedgingConfig, ModelGroupConfig,
  P2CWeights, PolicyConfig, QuotaPlanConfig, RoutingConfig, TenantConfig, fail_open,
}

abbrev pub deployment_of : String → String → ℕ → DeploymentConfig
deployment_of provider model price = record {
  provider = provider;
  upstream_model = model;
  weight = pos 1;
  price_per_1k_input_usd = price;
  price_per_1k_output_usd = price;
  supports_logprobs = true;
}

abbrev pub large_a : DeploymentConfig
large_a = deployment_of "mock-a" "large" 5000

abbrev pub large_b : DeploymentConfig
large_b = deployment_of "mock-b" "large" 4000

abbrev pub chat_large : ModelGroupConfig
chat_large = record { deployments = large_a ∷ large_b ∷ [] }

abbrev pub chat_small : ModelGroupConfig
chat_small = record { deployments = deployment_of "mock-a" "small" 500 ∷ [] }

abbrev pub sample_weights : P2CWeights
sample_weights = record { ttft = 4; error_rate = 3; inflight = 2; price = 1 }

abbrev pub sample_breaker : BreakerConfig
sample_breaker = record {
  window_size = 4;
  failure_rate_to_open = record { num = 1; den = 2 };
  min_samples = 2;
  open_cooldown_s = 10;
  cooldown_max_s = 300;
  half_open_probes = 1;
}

abbrev pub sample_routing : RoutingConfig
sample_routing = record {
  ewma_alpha = record { num = 1; den = 5 };
  slow_call_ttft_slo_s = 8_000_000;
  breaker = sample_breaker;
  p2c_weights = sample_weights;
  max_attempts_before_first_byte = 3;
  agg_report_interval_s = 5_000_000;
  agg_ttl_s = 60;
}

abbrev pub sample_hedging : HedgingConfig
sample_hedging = record {
  enabled = true;
  trigger_quantile = record { num = 95; den = 100 };
  trigger_floor_s = 2_000_000;
  max_hedge_ratio = record { num = 1; den = 2 };
}

abbrev pub sample_cascade : CascadeConfig
sample_cascade = record {
  enabled = true;
  draft_model_group = some "chat-small";
  confidence_metric = "mean_logprob";
  threshold = negsuc 449_999;
}

abbrev pub sample_policy : PolicyConfig
sample_policy = record {
  fallback_chain = "chat-large" ∷ "chat-lost" ∷ "chat-small" ∷ [];
  degradation = record { smaller_model_group = some "chat-small"; stale_cache = true };
  hedging = sample_hedging;
  cascade = sample_cascade;
}

abbrev pub sample_plan : QuotaPlanConfig
sample_plan = record {
  rpm = 60;
  tpm = 6000;
  concurrent_streams = 2;
  monthly_budget_usd = 10_000_000;
  fail_mode = fail_open;
}

abbrev pub sample_tenant : TenantConfig
sample_tenant = record {
  id = "tenant-a";
  api_key_sha256 = "0a";
  plan = "standard";
  policy = "default";
  cache = record { l1 = true; l2 = true; l2_operating_point = none };
}

abbrev pub sample_settings : GatewayConfig
sample_settings = record {
  server = record {
    host = "127.0.0.1";
    port = 8080;
    sse_heartbeat_interval_s = 15_000_000;
    auth_cache_size = 2;
    auth_cache_ttl_s = 60_000_000;
    loop_lag_interval_s = 500_000;
    config_poll_interval_s = 5_000_000;
    provider_pool_drain_s = 30_000_000;
    config_reload_backoff_initial_s = 1_000_000;
    config_reload_backoff_max_s = 30_000_000;
    cpu_pool_workers = 1;
  };
  timeouts = record {
    connect_s = 3_000_000;
    ttft_s = 15_000_000;
    inter_chunk_s = 10_000_000;
    total_s = 120_000_000;
  };
  providers = [];
  model_groups = ("chat-large", chat_large) ∷ ("chat-small", chat_small) ∷ [];
  routing = sample_routing;
  policies = ("default", sample_policy) ∷ [];
  quota_plans = ("standard", sample_plan) ∷ [];
  cache = record {
    l1 = record {
      ttl_s = 3600;
      ttl_jitter_ratio = record { num = 1; den = 10 };
      max_value_bytes = 64;
    };
    l2 = record {
      similarity_threshold = 920_000;
      operating_points =
          record {
            name = "strict";
            tau = 950_000;
            expected_fpr = 10_000;
            expected_recall = 400_000;
          }
          ∷ record {
            name = "wide";
            tau = 900_000;
            expected_fpr = 50_000;
            expected_recall = 700_000;
          }
          ∷ [];
      recall_top_k = 5;
      recall_threshold = 800_000;
      stale_threshold_delta = 50_000;
      max_temperature = 3 * 2 ^ 1074 / 10;
      index_capacity = 1000;
      query_timeout_ms = 50;
      store_timeout_ms = 500;
    };
    volatile_intent_patterns = "today" ∷ [];
    reject_patterns = "sorry" ∷ [];
    replay_chunk_chars = 2;
    replay_interval_ms = 0;
    singleflight_wait_timeout_ms = 30000;
    singleflight_fallback_margin_ms = 1000;
  };
  quota_estimator = record {
    output_p95_fallback = 512;
    correction_ewma_alpha = record { num = 1; den = 5 };
  };
  settlement = record { batch_size = 2; batch_interval_ms = 500; queue_max = 3 };
  sweeper = record {
    interval_s = 30_000_000;
    batch_limit = 100;
    reservation_ttl_s = 300_000_000;
    settle_timeout_s = 2_000_000;
  };
  tenants = sample_tenant ∷ [];
}

abbrev pub sample_request : UnifiedRequest
sample_request = record {
  request_id = "r1";
  tenant_id = "tenant-a";
  model = "chat-large";
  messages = record { role = user; content = some "hello" } ∷ [];
  stream = false;
  temperature = none;
  top_p = none;
  max_tokens = some 20;
  stop = none;
  logprobs = false;
  prompt_version = "";
  has_tools = false;
}
