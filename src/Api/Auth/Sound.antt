-- ===== src/Api/Auth/Sound.antt =====
-- Who is authenticated is a tenant of the current configuration, by its own key.
use tide_gate.Prelude.{
  ℕ, ◌≡◌, ◌∙◌, ap, sym, refl, String, string_eq, count_eq, Option, none, some, List, [], ◌∷◌, arith,
  ◌==◌, Bool-cases, Option-cases, inl, inr, get_or,
}
use mathlib.Core.Path.{subst}
use tide_gate.Core.{Result, GatewayError, ok, err}
use tide_gate.Config.{GatewayConfig, TenantConfig}
use tide_gate.Api.AuthCache.{AuthCache, get}
use tide_gate.Api.AuthCache.Entries.{IsValid}
use tide_gate.Api.AuthCache.Update.{get-IsValid, put-IsValid}
use tide_gate.Api.Auth.{
  AuthMiddleware, new_auth_middleware, reset_cache_if_config_changed, find_tenant, admit_tenant,
  or_find, authenticate,
}
use tide_gate.Api.Auth.Reset.{Genuine, Knows, KnowsAt, reset-Knows, new_auth_middleware-Knows}
use tide_gate.Api.Auth.Fingerprints.{Member, DistinctIds}

-- a tenant of the configuration, by its own key
abbrev pub Authentic : String → List TenantConfig → TenantConfig → Type 0
Authentic key_hash tenants t = Member t tenants × (t.api_key_sha256 ≡ key_hash)

Authentic-same :
    (key_hash : String) (tenants : List TenantConfig) (t u : TenantConfig)
    → t ≡ u
    → Authentic key_hash tenants t
    → Authentic key_hash tenants u
Authentic-same key_hash tenants t u e a = subst (Authentic key_hash tenants) e a

some_same : (t u : TenantConfig) → some t ≡ some u → t ≡ u
some_same t u h = ap (λ (o : Option TenantConfig). get_or o t) h

find_tenant-Member :
    (key_hash : String) (t : TenantConfig) (ts : List TenantConfig)
    → find_tenant key_hash ts ≡ some t
    → Member t ts × (t.api_key_sha256 ≡ key_hash)
unfolding find_tenant
find_tenant-Member key_hash t [] h = absurd (cc)
find_tenant-Member key_hash t (x ∷ ts) h = elim (Bool-cases (key_hash == x.api_key_sha256)) [
  | inl same ↦
      let e = some_same x t (rw same at h) in
      (inl (sym e), rw (← e) (sym ((string_eq.same_iff key_hash x.api_key_sha256).0 same)))
  | inr other ↦ let (m, k) = find_tenant-Member key_hash t ts (rw other at h) in (inr m, k)
]

-- The tenant that the cache or the configuration has for the key.
found-Member :
    (now : ℕ) (key_hash : String) (t : TenantConfig) (tenants : List TenantConfig) (c : AuthCache)
    → IsValid c
    → Genuine tenants c
    → or_find (get now key_hash c).0 key_hash tenants ≡ some t
    → Member t tenants × (t.api_key_sha256 ≡ key_hash)
unfolding or_find
found-Member now key_hash t tenants c v g h = elim (Option-cases (get now key_hash c).0) [
  | inl missing ↦ find_tenant-Member key_hash t tenants (rw missing at h)
  | inr (t', found) ↦
      let (e, there, mine) = (get-IsValid now key_hash c v).2 t' found in
      Authentic-same key_hash tenants e.tenant t (mine ∙ some_same t' t (rw found at h))
        (g key_hash e there)
]

admit-Knows :
    (now : ℕ) (key_hash : String) (found : Option TenantConfig) (tenants : List TenantConfig)
    (version : ℕ) (m : AuthMiddleware)
    → KnowsAt tenants version m
    → ((t : TenantConfig) → found ≡ some t → Member t tenants × (t.api_key_sha256 ≡ key_hash))
    → KnowsAt tenants version (admit_tenant now key_hash found m).1
unfolding admit_tenant
admit-Knows now key_hash none tenants version m (w, e) h = (w, e)
admit-Knows now key_hash (some t) tenants version m (w, e) h =
    let (valid, cases) = put-IsValid now key_hash t m.cache w.cache_valid in
    (
      record {
        cache_valid = valid;
        genuine = λ j f g. elim (cases j f g) [
          | inl (same, mine) ↦
              Authentic-same j tenants t f.tenant (sym mine)
                (subst (λ (k : String). Authentic k tenants t) same (h t refl))
          | inr old ↦ w.genuine j f old
        ];
        prints = w.prints;
      },
      e,
    )

-- one request: the configuration and its version at that time, the clock, and the hash of its key
pub record Request : Type 0 where
  pub config : GatewayConfig
  pub version : ℕ
  pub now : ℕ
  pub key_hash : String

abbrev pub serve : Request → AuthMiddleware → Result TenantConfig × AuthMiddleware
serve r m = authenticate r.config r.version r.now r.key_hash m

-- The version changes whenever the tenants do, and no configuration has two tenants of one id.
abbrev pub Versioned : List TenantConfig → ℕ → List Request → Type 0
Versioned tenants version [] = Unit
Versioned tenants version (r ∷ rs) =
    DistinctIds r.config.tenants
    × (version ≡ r.version → r.config.tenants ≡ tenants)
    × Versioned r.config.tenants r.version rs

-- Who is admitted is a tenant of the configuration of that time, by its own key; and who is refused
-- has the key of none.
abbrev pub Right : List Request → AuthMiddleware → Type 0
Right [] m = Unit
Right (r ∷ rs) m =
    ((t : TenantConfig)
      → (serve r m).0 ≡ ok t
      → Member t r.config.tenants × (t.api_key_sha256 ≡ r.key_hash))
    × ((e : GatewayError) → (serve r m).0 ≡ err e → find_tenant r.key_hash r.config.tenants ≡ none)
    × Right rs (serve r m).1

admitted_found :
    (now : ℕ) (key_hash : String) (found : Option TenantConfig) (m : AuthMiddleware)
    (t : TenantConfig)
    → (admit_tenant now key_hash found m).0 ≡ ok t
    → found ≡ some t
unfolding admit_tenant
admitted_found now key_hash none m t h = absurd (cc)
admitted_found now key_hash (some u) m t h = ground arith

refused :
    (now : ℕ) (key_hash : String) (found : Option TenantConfig) (m : AuthMiddleware)
    (e : GatewayError)
    → (admit_tenant now key_hash found m).0 ≡ err e
    → found ≡ none
unfolding admit_tenant
refused now key_hash none m e h = refl
refused now key_hash (some u) m e h = absurd (cc)

-- The middleware that has read its cache.
read-Knows :
    (now version : ℕ) (key_hash : String) (tenants : List TenantConfig) (m : AuthMiddleware)
    → KnowsAt tenants version m
    → KnowsAt tenants version (record m { cache = (get now key_hash m.cache).1 })
read-Knows now version key_hash tenants m (w, e) =
    let (valid, shrinks, mine) = get-IsValid now key_hash m.cache w.cache_valid in
    (
      record {
        cache_valid = valid;
        genuine = λ j f g. w.genuine j f (shrinks j f g);
        prints = w.prints;
      },
      e,
    )

refused_none :
    (now : ℕ) (key_hash : String) (cached : Option TenantConfig) (tenants : List TenantConfig)
    (m : AuthMiddleware) (e : GatewayError)
    → (admit_tenant now key_hash (or_find cached key_hash tenants) m).0 ≡ err e
    → find_tenant key_hash tenants ≡ none
unfolding admit_tenant or_find
refused_none now key_hash none tenants m e h =
    refused now key_hash (find_tenant key_hash tenants) m e h
refused_none now key_hash (some u) tenants m e h = absurd (cc)

step-Right :
    (old : List TenantConfig) (r : Request) (m : AuthMiddleware)
    → DistinctIds old
    → (m.cache_version ≡ r.version → r.config.tenants ≡ old)
    → Knows old m
    → ((t : TenantConfig)
        → (serve r m).0 ≡ ok t
        → Member t r.config.tenants × (t.api_key_sha256 ≡ r.key_hash))
      × ((e : GatewayError)
          → (serve r m).0 ≡ err e
          → find_tenant r.key_hash r.config.tenants ≡ none)
      × KnowsAt r.config.tenants r.version (serve r m).1
unfolding authenticate
step-Right old r m u v w =
    let m' = reset_cache_if_config_changed r.config r.version m in
    let (w', at_version) = reset-Knows old r.config r.version m u v w in
    let read = read-Knows r.now r.version r.key_hash r.config.tenants m' (w', at_version) in
    let found = or_find (get r.now r.key_hash m'.cache).0 r.key_hash r.config.tenants in
    let mine = λ (t : TenantConfig) (h : found ≡ some t).
      found-Member r.now r.key_hash t r.config.tenants m'.cache w'.cache_valid w'.genuine h in
    (
      λ t h. mine t (admitted_found r.now r.key_hash found _ t h),
      λ e h. refused_none r.now r.key_hash _ r.config.tenants _ e h,
      admit-Knows r.now r.key_hash found r.config.tenants r.version
          (record m' { cache = (get r.now r.key_hash m'.cache).1 }) read mine,
    )

requests-Right :
    (rs : List Request) (tenants : List TenantConfig) (version : ℕ) (m : AuthMiddleware)
    → DistinctIds tenants
    → Versioned tenants version rs
    → KnowsAt tenants version m
    → Right rs m
requests-Right [] tenants version m u v w = tt
requests-Right (r ∷ rs) tenants version m u (u', same, v) (w, e) =
    let (admits, refuses, after) = step-Right tenants r m u (λ h. same (sym e ∙ h)) w in
    (admits, refuses, requests-Right rs r.config.tenants r.version (serve r m).1 u' v after)

-- From the start of the middleware on, over any requests at any times, if the version changes whenever
-- the tenants do and no configuration has two tenants of one id: who is admitted is a tenant of the
-- configuration of that time, by its own key, whatever the cache holds; and who is refused has the key
-- of none.
pub authenticate-Right :
    (config : GatewayConfig) (version : ℕ) (rs : List Request)
    → DistinctIds config.tenants
    → Versioned config.tenants version rs
    → Right rs (new_auth_middleware config version)
authenticate-Right config version rs u v =
    requests-Right rs config.tenants version (new_auth_middleware config version) u v
      (new_auth_middleware-Knows config version, refl)
