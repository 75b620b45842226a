-- ===== src/Config.antt =====
-- config/models.py: the validated configuration. Durations and clock readings are whole
-- microseconds, prices are millionths of a dollar for a thousand tokens, scores and log
-- probabilities are millionths, and a rate is a fraction.
pub mod Samples
use tide_gate.Prelude.{
  ℕ, String, Bool, Option, none, List, [], ◌∷◌, if◌then◌else◌, ◌==◌, some, string_eq,
}
use tide_gate.Prelude.Int.{ℤ}
use tide_gate.Prelude.Dict.{Dict}

-- A float between two counts: `num / den`.
pub record Ratio : Type 0 where
  pub num : ℕ
  pub den : ℕ

pub record ServerConfig : Type 0 where
  pub host : String
  pub port : ℕ
  pub sse_heartbeat_interval_s : ℕ
  pub auth_cache_size : ℕ
  pub auth_cache_ttl_s : ℕ
  pub loop_lag_interval_s : ℕ
  pub config_poll_interval_s : ℕ
  pub provider_pool_drain_s : ℕ
  pub config_reload_backoff_initial_s : ℕ
  pub config_reload_backoff_max_s : ℕ
  pub cpu_pool_workers : ℕ

pub record TimeoutConfig : Type 0 where
  pub connect_s : ℕ
  pub ttft_s : ℕ
  pub inter_chunk_s : ℕ
  pub total_s : ℕ

pub record ProviderConfig : Type 0 where
  pub type : String
  pub base_url : String
  pub api_key_env : String
  pub max_connections : ℕ

pub record DeploymentConfig : Type 0 where
  pub provider : String
  pub upstream_model : String
  pub weight : ℤ
  pub price_per_1k_input_usd : ℕ
  pub price_per_1k_output_usd : ℕ
  pub supports_logprobs : Bool

pub record ModelGroupConfig : Type 0 where
  pub deployments : List DeploymentConfig

pub record CacheToggleConfig : Type 0 where
  pub l1 : Bool
  pub l2 : Bool
  pub l2_operating_point : Option String

pub record TenantConfig : Type 0 where
  pub id : String
  pub api_key_sha256 : String
  pub plan : String
  pub policy : String
  pub cache : CacheToggleConfig

pub record BreakerConfig : Type 0 where
  pub window_size : ℕ
  pub failure_rate_to_open : Ratio
  pub min_samples : ℕ
  pub open_cooldown_s : ℕ
  pub cooldown_max_s : ℕ
  pub half_open_probes : ℕ

pub record P2CWeights : Type 0 where
  pub ttft : ℕ
  pub error_rate : ℕ
  pub inflight : ℕ
  pub price : ℕ

pub record RoutingConfig : Type 0 where
  pub ewma_alpha : Ratio
  pub slow_call_ttft_slo_s : ℕ
  pub breaker : BreakerConfig
  pub p2c_weights : P2CWeights
  pub max_attempts_before_first_byte : ℕ
  pub agg_report_interval_s : ℕ
  pub agg_ttl_s : ℕ

pub record DegradationConfig : Type 0 where
  pub smaller_model_group : Option String
  pub stale_cache : Bool

pub record HedgingConfig : Type 0 where
  pub enabled : Bool
  pub trigger_quantile : Ratio
  pub trigger_floor_s : ℕ
  pub max_hedge_ratio : Ratio

pub record CascadeConfig : Type 0 where
  pub enabled : Bool
  pub draft_model_group : Option String
  pub confidence_metric : String
  pub threshold : ℤ

pub record PolicyConfig : Type 0 where
  pub fallback_chain : List String
  pub degradation : DegradationConfig
  pub hedging : HedgingConfig
  pub cascade : CascadeConfig

pub data FailMode : Type 0 where
  fail_open fail_closed : FailMode

pub record QuotaPlanConfig : Type 0 where
  pub rpm : ℕ
  pub tpm : ℕ
  pub concurrent_streams : ℕ
  pub monthly_budget_usd : ℕ
  pub fail_mode : FailMode

pub record L1CacheConfig : Type 0 where
  pub ttl_s : ℕ
  pub ttl_jitter_ratio : Ratio
  pub max_value_bytes : ℕ

pub record L2OperatingPointConfig : Type 0 where
  pub name : String
  pub tau : ℕ
  pub expected_fpr : ℕ
  pub expected_recall : ℕ

pub record L2CacheConfig : Type 0 where
  pub similarity_threshold : ℕ
  pub operating_points : List L2OperatingPointConfig
  pub recall_top_k : ℕ
  pub recall_threshold : ℕ
  pub stale_threshold_delta : ℕ
  -- in the unit of a request's temperature
  pub max_temperature : ℕ
  pub index_capacity : ℕ
  pub query_timeout_ms : ℕ
  pub store_timeout_ms : ℕ

pub record CacheConfig : Type 0 where
  pub l1 : L1CacheConfig
  pub l2 : L2CacheConfig
  pub volatile_intent_patterns : List String
  pub reject_patterns : List String
  pub replay_chunk_chars : ℕ
  pub replay_interval_ms : ℕ
  pub singleflight_wait_timeout_ms : ℕ
  pub singleflight_fallback_margin_ms : ℕ

pub record QuotaEstimatorConfig : Type 0 where
  pub output_p95_fallback : ℕ
  pub correction_ewma_alpha : Ratio

pub record SettlementConfig : Type 0 where
  pub batch_size : ℕ
  pub batch_interval_ms : ℕ
  pub queue_max : ℕ

pub record SweeperConfig : Type 0 where
  pub interval_s : ℕ
  pub batch_limit : ℕ
  pub reservation_ttl_s : ℕ
  pub settle_timeout_s : ℕ

-- The Redis, PostgreSQL and OpenTelemetry sections only name services, and are left out.
pub record GatewayConfig : Type 0 where
  pub server : ServerConfig
  pub timeouts : TimeoutConfig
  pub providers : Dict String ProviderConfig
  pub model_groups : Dict String ModelGroupConfig
  pub routing : RoutingConfig
  pub policies : Dict String PolicyConfig
  pub quota_plans : Dict String QuotaPlanConfig
  pub cache : CacheConfig
  pub quota_estimator : QuotaEstimatorConfig
  pub settlement : SettlementConfig
  pub sweeper : SweeperConfig
  pub tenants : List TenantConfig

-- `next((tenant for tenant in tenants if tenant.id == tenant_id), None)`
unfoldable pub find_tenant_by_id : String → List TenantConfig → Option TenantConfig
find_tenant_by_id tenant_id [] = none
find_tenant_by_id tenant_id (tenant ∷ rest) =
    if tenant.id == tenant_id then some tenant else find_tenant_by_id tenant_id rest

unfoldable pub tenant_by_id : GatewayConfig → String → Option TenantConfig
unfolding find_tenant_by_id
tenant_by_id settings tenant_id = find_tenant_by_id tenant_id settings.tenants
