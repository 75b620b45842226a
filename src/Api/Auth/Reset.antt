-- ===== src/Api/Auth/Reset.antt =====
-- A reset leaves only tenants of the new configuration in the cache.
use tide_gate.Prelude.{
  ℕ, ◌≡◌, sym, refl, String, string_eq, count_eq, Bool, true, false, some, List, [], if◌then◌else◌,
  ◌==◌, Bool-cases, inl, inr,
}
use mathlib.Core.Path.{subst}
use tide_gate.Prelude.Dict.{lookup}
use tide_gate.Config.{GatewayConfig, TenantConfig}
use tide_gate.Api.AuthCache.{AuthEntry, AuthCache, new_auth_cache}
use tide_gate.Api.AuthCache.Entries.{IsValid}
use tide_gate.Api.Auth.{
  AuthMiddleware, new_auth_middleware, tenant_fingerprints, same_settings, auth_settings,
  invalidate_changed, reset_cache_if_config_changed,
}
use tide_gate.Api.Auth.Fingerprints.{
  Member, DistinctIds, unchanged-Member, invalidate_changed-IsValid,
}

-- Every entry is a tenant of the configuration, under the hash of its key.
abbrev pub Genuine : List TenantConfig → AuthCache → Type 0
Genuine tenants c =
    (k : String) (e : AuthEntry)
    → lookup k c.entries ≡ some e
    → Member e.tenant tenants × (e.tenant.api_key_sha256 ≡ k)

-- What the middleware keeps true, where `tenants` are those of the configuration that it saw last.
pub record Knows (tenants : List TenantConfig) (m : AuthMiddleware) : Type 0 where
  pub cache_valid : IsValid m.cache
  pub genuine : Genuine tenants m.cache
  pub prints : m.tenant_fingerprints ≡ tenant_fingerprints tenants []

new_auth_cache-IsValid : (capacity ttl : ℕ) → IsValid (new_auth_cache capacity ttl)
new_auth_cache-IsValid capacity ttl = record {
  distinct = tt;
  indexed = record {
    by_key = λ k e h. absurd (unfold lookup in cc);
    by_tenant = λ k e h. absurd (unfold lookup in cc);
  };
}

new_auth_cache-Genuine :
    (capacity ttl : ℕ) (tenants : List TenantConfig) → Genuine tenants (new_auth_cache capacity ttl)
new_auth_cache-Genuine capacity ttl tenants k e h = absurd (unfold lookup in cc)

pub new_auth_middleware-Knows :
    (config : GatewayConfig) (version : ℕ)
    → Knows config.tenants (new_auth_middleware config version)
new_auth_middleware-Knows config version = record {
  cache_valid = new_auth_cache-IsValid config.server.auth_cache_size config.server.auth_cache_ttl_s;
  genuine =
      new_auth_cache-Genuine config.server.auth_cache_size config.server.auth_cache_ttl_s
        config.tenants;
  prints = refl;
}

-- The middleware after a reset for a new version.
reset_unchanged :
    (config : GatewayConfig) (version : ℕ) (m : AuthMiddleware)
    → m.cache_version ≡ version
    → reset_cache_if_config_changed config version m ≡ m
unfolding reset_cache_if_config_changed
reset_unchanged config version m h =
    rw (reset_cache_if_config_changed, (count_eq.same_iff m.cache_version version).1 h) refl

abbrev after_reset : GatewayConfig → ℕ → AuthCache → AuthMiddleware
after_reset config version cache = record {
  cache = cache;
  cache_version = version;
  cache_settings = auth_settings config;
  tenant_fingerprints = tenant_fingerprints config.tenants [];
}

reset_changed :
    (config : GatewayConfig) (version : ℕ) (m : AuthMiddleware) (same : Bool)
    → (m.cache_version == version) ≡ false
    → same_settings (auth_settings config) m.cache_settings ≡ same
    → reset_cache_if_config_changed config version m
      ≡ after_reset config version (
          if same
          then invalidate_changed m.tenant_fingerprints
              (tenant_fingerprints config.tenants [])
              m.cache
          else new_auth_cache config.server.auth_cache_size config.server.auth_cache_ttl_s)
unfolding reset_cache_if_config_changed
reset_changed config version m same h s = rw (reset_cache_if_config_changed, h, s) refl

invalidated-Knows :
    (old : List TenantConfig) (config : GatewayConfig) (version : ℕ) (m : AuthMiddleware)
    → DistinctIds old
    → Knows old m
    → Knows config.tenants (
        after_reset config version (
          invalidate_changed m.tenant_fingerprints (tenant_fingerprints config.tenants []) m.cache))
invalidated-Knows old config version m u w =
    let next = tenant_fingerprints config.tenants [] in
    let (valid, left) =
      invalidate_changed-IsValid m.tenant_fingerprints next m.cache w.cache_valid in
    record {
      cache_valid = valid;
      genuine = λ k e h.
          let (held, same) = left k e h in
          let (mine, key) = w.genuine k e held in
          (
            unchanged-Member e.tenant old config.tenants u mine (λ f g. same f (rw w.prints g)),
            key,
          );
      prints = refl;
    }

-- What a reset leaves: the middleware knows the tenants at the version.
abbrev pub KnowsAt : List TenantConfig → ℕ → AuthMiddleware → Type 0
KnowsAt tenants version m = Knows tenants m × (m.cache_version ≡ version)

pub reset-Knows :
    (old : List TenantConfig) (config : GatewayConfig) (version : ℕ) (m : AuthMiddleware)
    → DistinctIds old
    → (m.cache_version ≡ version → config.tenants ≡ old)
    → Knows old m
    → KnowsAt config.tenants version (reset_cache_if_config_changed config version m)
reset-Knows old config version m u v w = elim (Bool-cases (m.cache_version == version)) [
  | inl seen ↦
      let e = (count_eq.same_iff m.cache_version version).0 seen in
      subst (KnowsAt config.tenants version) (sym (reset_unchanged config version m e))
        (subst (λ (ts : List TenantConfig). Knows ts m) (sym (v e)) w, e)
  | inr new ↦ elim (Bool-cases (same_settings (auth_settings config) m.cache_settings)) [
    | inl same ↦
        subst (KnowsAt config.tenants version) (sym (reset_changed config version m true new same))
          (invalidated-Knows old config version m u w, refl)
    | inr other ↦
        let capacity : ℕ = config.server.auth_cache_size in
        let ttl : ℕ = config.server.auth_cache_ttl_s in
        subst (KnowsAt config.tenants version)
          (sym (reset_changed config version m false new other))
          (
            record {
              cache_valid = new_auth_cache-IsValid capacity ttl;
              genuine = new_auth_cache-Genuine capacity ttl config.tenants;
              prints = refl;
            },
            refl,
          )
  ]
]
