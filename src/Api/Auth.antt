-- ===== src/Api/Auth.antt =====
-- api/middleware.py, `AuthMiddleware`: who a request comes from. The hash of the key is an argument,
-- and so is the current configuration with its version.
pub mod Fingerprints
pub mod Reset
pub mod Sound
mod Tests
use tide_gate.Prelude.{
  ℕ, string_eq, String, Bool, true, false, not, ◌&&◌, Option, none, some, List, [], ◌∷◌,
  if◌then◌else◌, ◌==◌, count_eq,
}
use tide_gate.Prelude.Dict.{Dict, lookup, insert}
use tide_gate.Core.{GatewayError, gateway_error, client_error, Result, ok, err}
use tide_gate.Config.{CacheToggleConfig, GatewayConfig, TenantConfig}
use tide_gate.Api.AuthCache.{AuthCache, new_auth_cache, get, put, invalidate_tenant}

pub record Fingerprint : Type 0 where
  pub api_key_sha256 : String
  pub plan : String
  pub policy : String
  pub cache : CacheToggleConfig

abbrev pub fingerprint : TenantConfig → Fingerprint
fingerprint t = record {
  api_key_sha256 = t.api_key_sha256;
  plan = t.plan;
  policy = t.policy;
  cache = t.cache;
}

pub record AuthMiddleware : Type 0 where
  pub cache : AuthCache
  pub cache_version : ℕ
  pub cache_settings : ℕ × ℕ
  pub tenant_fingerprints : Dict String Fingerprint

-- `_tenant_fingerprints`: the last tenant of an id counts
unfoldable pub tenant_fingerprints :
    List TenantConfig → Dict String Fingerprint → Dict String Fingerprint
tenant_fingerprints [] d = d
tenant_fingerprints (t ∷ ts) d = tenant_fingerprints ts (insert t.id (fingerprint t) d)

unfoldable pub same_flag : Bool → Bool → Bool
same_flag true b = b
same_flag false b = not b

unfoldable pub same_name : Option String → Option String → Bool
same_name none none = true
same_name none (some y) = false
same_name (some x) none = false
same_name (some x) (some y) = x == y

unfoldable pub same_toggle : CacheToggleConfig → CacheToggleConfig → Bool
unfolding same_flag same_name
same_toggle a b =
    same_flag a.l1 b.l1
    && same_flag a.l2 b.l2
    && same_name a.l2_operating_point b.l2_operating_point

-- the comparison of two fingerprints
unfoldable pub same_fingerprint : Fingerprint → Fingerprint → Bool
unfolding same_toggle
same_fingerprint a b =
    a.api_key_sha256 == b.api_key_sha256
    && a.plan == b.plan
    && a.policy == b.policy
    && same_toggle a.cache b.cache

-- `next_fingerprints.get(tenant_id) != fingerprint`
unfoldable pub changed : Fingerprint → Option Fingerprint → Bool
unfolding same_fingerprint
changed old none = true
changed old (some next) = not (same_fingerprint next old)

-- the loop over the changed tenants
unfoldable pub invalidate_changed :
    Dict String Fingerprint → Dict String Fingerprint → AuthCache → AuthCache
unfolding changed
invalidate_changed [] next c = c
invalidate_changed ((tenant_id, old) ∷ rest) next c =
    invalidate_changed rest next
      (if changed old (lookup tenant_id next) then invalidate_tenant tenant_id c else c)

abbrev pub auth_settings : GatewayConfig → ℕ × ℕ
auth_settings config = (config.server.auth_cache_size, config.server.auth_cache_ttl_s)

-- `AuthMiddleware.__init__`
abbrev pub new_auth_middleware : GatewayConfig → ℕ → AuthMiddleware
new_auth_middleware config version = record {
  cache = new_auth_cache config.server.auth_cache_size config.server.auth_cache_ttl_s;
  cache_version = version;
  cache_settings = auth_settings config;
  tenant_fingerprints = tenant_fingerprints config.tenants [];
}

-- the comparison of the capacity and the time to live
unfoldable pub same_settings : ℕ × ℕ → ℕ × ℕ → Bool
same_settings (a, b) (c, d) = a == c && b == d

-- `_reset_cache_if_config_changed`
unfoldable pub reset_cache_if_config_changed : GatewayConfig → ℕ → AuthMiddleware → AuthMiddleware
unfolding tenant_fingerprints same_settings invalidate_changed
reset_cache_if_config_changed config version m =
    let next = tenant_fingerprints config.tenants [] in
    let same = same_settings (auth_settings config) m.cache_settings in
    if m.cache_version == version then m else record {
      cache =
          if same
          then invalidate_changed m.tenant_fingerprints next m.cache
          else new_auth_cache config.server.auth_cache_size config.server.auth_cache_ttl_s;
      cache_version = version;
      cache_settings = auth_settings config;
      tenant_fingerprints = next;
    }

-- `_find_tenant`
unfoldable pub find_tenant : String → List TenantConfig → Option TenantConfig
find_tenant key_hash [] = none
find_tenant key_hash (t ∷ ts) =
    if key_hash == t.api_key_sha256 then some t else find_tenant key_hash ts

abbrev pub invalid_api_key : GatewayError
invalid_api_key = record (gateway_error "invalid api key" client_error) { http_status = some 401 }

-- what `__call__` makes of the tenant that was found
unfoldable pub admit_tenant :
    ℕ → String → Option TenantConfig → AuthMiddleware → Result TenantConfig × AuthMiddleware
admit_tenant now key_hash none m = (err invalid_api_key, m)
admit_tenant now key_hash (some tenant) m =
    (ok tenant, record m { cache = put now key_hash tenant m.cache })

unfoldable pub or_find : Option TenantConfig → String → List TenantConfig → Option TenantConfig
unfolding find_tenant
or_find (some tenant) key_hash tenants = some tenant
or_find none key_hash tenants = find_tenant key_hash tenants

-- `AuthMiddleware.__call__` for a data path and a bearer key
unfoldable pub authenticate :
    GatewayConfig → ℕ → ℕ → String → AuthMiddleware → Result TenantConfig × AuthMiddleware
unfolding reset_cache_if_config_changed admit_tenant or_find
authenticate config version now key_hash m =
    let m' = reset_cache_if_config_changed config version m in
    let (cached, cache) = get now key_hash m'.cache in
    admit_tenant now key_hash (or_find cached key_hash config.tenants) (record m' { cache = cache })
