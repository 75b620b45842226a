-- ===== src/Api/Auth/Fingerprints.antt =====
-- The fingerprints tell which tenants a new configuration leaves as they are.
use tide_gate.Prelude.{
  ◌≡◌, ◌≢◌, ◌⊎◌, ◌∙◌, ap, sym, refl, String, string_eq, Bool, true, false, Option, none, some, List,
  [], ◌∷◌, arith, if◌then◌else◌, Bool-cases, inl, inr,
}
use tide_gate.Prelude.Dict.{
  Dict, lookup, insert, lookup-insert_self, lookup-insert_ne, lookup-insert_cases,
}
use mathlib.Core.Path.{subst}
use tide_gate.Config.{CacheToggleConfig, TenantConfig}
use tide_gate.Api.AuthCache.{AuthEntry, AuthCache, invalidate_tenant}
use tide_gate.Api.AuthCache.Entries.{IsValid, invalidate_tenant-lookup, invalidate_tenant-IsValid}
use tide_gate.Api.Auth.{
  Fingerprint, fingerprint, tenant_fingerprints, same_flag, same_name, same_toggle,
  same_fingerprint, changed, invalidate_changed,
}

abbrev pub Member : TenantConfig → List TenantConfig → Type 0
Member t [] = ⊥
Member t (x ∷ xs) = (t ≡ x) ⊎ Member t xs

abbrev pub NoId : String → List TenantConfig → Type 0
NoId id [] = Unit
NoId id (t ∷ ts) = (t.id ≢ id) × NoId id ts

-- No two tenants have one id.
abbrev pub DistinctIds : List TenantConfig → Type 0
DistinctIds [] = Unit
DistinctIds (t ∷ ts) = NoId t.id ts × DistinctIds ts

same_flag_eq : (a b : Bool) → same_flag a b ≡ true → a ≡ b
unfolding same_flag
same_flag_eq a b h = ground arith

same_name_eq : (x y : Option String) → same_name x y ≡ true → x ≡ y
unfolding same_name
same_name_eq none none h = refl
same_name_eq none (some y) h = absurd (cc)
same_name_eq (some x) none h = absurd (cc)
same_name_eq (some x) (some y) h = ap some ((string_eq.same_iff x y).0 h)

same_toggle_eq : (a b : CacheToggleConfig) → same_toggle a b ≡ true → a ≡ b
unfolding same_toggle
same_toggle_eq a b h = ground (
  arith,
  same_flag_eq a.l1 b.l1,
  same_flag_eq a.l2 b.l2,
  same_name_eq a.l2_operating_point b.l2_operating_point,
)

same_fingerprint_eq : (a b : Fingerprint) → same_fingerprint a b ≡ true → a ≡ b
unfolding same_fingerprint
same_fingerprint_eq a b h = ground (
  arith,
  string_eq.same_iff a.api_key_sha256 b.api_key_sha256,
  string_eq.same_iff a.plan b.plan,
  string_eq.same_iff a.policy b.policy,
  same_toggle_eq a.cache b.cache,
)

unchanged : (f : Fingerprint) (next : Option Fingerprint) → changed f next ≡ false → next ≡ some f
unfolding changed
unchanged f none h = absurd (cc)
unchanged f (some g) h = ap some (same_fingerprint_eq g f (ground arith))

lookup-tenant_fingerprints_other :
    (id : String) (ts : List TenantConfig) (d : Dict String Fingerprint)
    → NoId id ts
    → lookup id (tenant_fingerprints ts d) ≡ lookup id d
unfolding tenant_fingerprints
lookup-tenant_fingerprints_other id [] d n = refl
lookup-tenant_fingerprints_other id (t ∷ ts) d n =
    lookup-tenant_fingerprints_other id ts (insert t.id (fingerprint t) d) n.1
    ∙ lookup-insert_ne t.id id (fingerprint t) d n.0

own_fingerprint :
    (t : TenantConfig) (ts : List TenantConfig) (d : Dict String Fingerprint)
    → DistinctIds ts
    → Member t ts
    → lookup t.id (tenant_fingerprints ts d) ≡ some (fingerprint t)
unfolding tenant_fingerprints
own_fingerprint t [] d u m = absurd m
own_fingerprint t (x ∷ ts) d u (inl same) = rw same (
    lookup-tenant_fingerprints_other x.id ts (insert x.id (fingerprint x) d) u.0
    ∙ lookup-insert_self x.id (fingerprint x) d)
own_fingerprint t (x ∷ ts) d u (inr m) = own_fingerprint t ts (insert x.id (fingerprint x) d) u.1 m

whose_fingerprint :
    (id : String) (f : Fingerprint) (ts : List TenantConfig) (d : Dict String Fingerprint)
    → lookup id (tenant_fingerprints ts d) ≡ some f
    → (lookup id d ≡ some f)
      ⊎ ((t : TenantConfig) × Member t ts × (t.id ≡ id) × (fingerprint t ≡ f))
unfolding tenant_fingerprints
whose_fingerprint id f [] d h = inl h
whose_fingerprint id f (x ∷ ts) d h =
    elim (whose_fingerprint id f ts (insert x.id (fingerprint x) d) h) [
      | inl old ↦ elim (lookup-insert_cases x.id id (fingerprint x) f d old) [
        | inl (same, held) ↦ inr (x, inl refl, same, held)
        | inr older ↦ inl older
      ]
      | inr (t, m, i, e) ↦ inr (t, inr m, i, e)
    ]

-- a tenant of an id and a fingerprint
abbrev tenant_of : String → Fingerprint → TenantConfig
tenant_of id f = record {
  id = id;
  api_key_sha256 = f.api_key_sha256;
  plan = f.plan;
  policy = f.policy;
  cache = f.cache;
}

same_tenant : (t u : TenantConfig) → t.id ≡ u.id → fingerprint t ≡ fingerprint u → t ≡ u
same_tenant t u i f = ap (λ (id : String). tenant_of id (fingerprint t)) i ∙ ap (tenant_of u.id) f

-- A tenant whose fingerprint the new configuration has is a tenant of it.
pub unchanged-Member :
    (t : TenantConfig) (old next : List TenantConfig)
    → DistinctIds old
    → Member t old
    → ((f : Fingerprint)
        → lookup t.id (tenant_fingerprints old []) ≡ some f
        → changed f (lookup t.id (tenant_fingerprints next [])) ≡ false)
    → Member t next
unchanged-Member t old next u m h =
    let same =
      unchanged (fingerprint t) (lookup t.id (tenant_fingerprints next []))
        (h (fingerprint t) (own_fingerprint t old [] u m)) in
    elim (whose_fingerprint t.id (fingerprint t) next [] same) [
      | inl nothing ↦ absurd (unfold lookup in cc)
      | inr (t', m', i, e) ↦ rw (← same_tenant t' t i e) m'
    ]

lookup_first :
    (id k : String) (o f : Fingerprint) (rest : Dict String Fingerprint)
    → lookup k ((id, o) ∷ rest) ≡ some f
    → ((id ≡ k) × (o ≡ f)) ⊎ (lookup k rest ≡ some f)
unfolding lookup
lookup_first id k o f rest h = ground (arith, string_eq.same_iff id k)

-- The entries of `c'` are entries of `c`, and their tenants have not changed from `old` to `next`.
abbrev Unchanged :
    Dict String Fingerprint → Dict String Fingerprint → AuthCache → AuthCache → Type 0
Unchanged old next c c' =
    (k : String) (e : AuthEntry)
    → lookup k c'.entries ≡ some e
    → (lookup k c.entries ≡ some e)
      × ((f : Fingerprint)
          → lookup e.tenant.id old ≡ some f
          → changed f (lookup e.tenant.id next) ≡ false)

first-Unchanged :
    (id : String) (o : Fingerprint) (rest next : Dict String Fingerprint) (c c1 c' : AuthCache)
    → ((k : String) (e : AuthEntry)
        → lookup k c1.entries ≡ some e
        → (lookup k c.entries ≡ some e) × (id ≡ e.tenant.id → changed o (lookup id next) ≡ false))
    → Unchanged rest next c1 c'
    → Unchanged ((id, o) ∷ rest) next c c'
first-Unchanged id o rest next c c1 c' first others k e h =
    let (there, later) = others k e h in
    let (held, here) = first k e there in
    (
      held,
      λ f g. elim (lookup_first id e.tenant.id o f rest g) [
        | inl (same, mine) ↦ rw (← mine, ← same) (here same)
        | inr behind ↦ later f behind
      ],
    )

invalidate_changed_next :
    (id : String) (o : Fingerprint) (rest next : Dict String Fingerprint) (c : AuthCache) (b : Bool)
    → changed o (lookup id next) ≡ b
    → invalidate_changed ((id, o) ∷ rest) next c
      ≡ invalidate_changed rest next (if b then invalidate_tenant id c else c)
unfolding invalidate_changed
invalidate_changed_next id o rest next c b h = rw (invalidate_changed, h) refl

-- The cache is valid with entries of `c` whose tenants have not changed.
abbrev Leaves : Dict String Fingerprint → Dict String Fingerprint → AuthCache → AuthCache → Type 0
Leaves old next c c' = IsValid c' × Unchanged old next c c'

-- What is left after the changed tenants are invalidated is of tenants that have not changed.
pub invalidate_changed-IsValid :
    (old next : Dict String Fingerprint) (c : AuthCache)
    → IsValid c
    → IsValid (invalidate_changed old next c)
      × ((k : String) (e : AuthEntry)
          → lookup k (invalidate_changed old next c).entries ≡ some e
          → (lookup k c.entries ≡ some e)
            × ((f : Fingerprint)
                → lookup e.tenant.id old ≡ some f
                → changed f (lookup e.tenant.id next) ≡ false))
unfolding invalidate_changed
invalidate_changed-IsValid [] next c v = (v, λ k e h. (h, λ f g. absurd (unfold lookup in cc)))
invalidate_changed-IsValid ((id, o) ∷ rest) next c v =
    elim (Bool-cases (changed o (lookup id next))) [
      | inl differs ↦
          let c1 = invalidate_tenant id c in
          let (valid, others) =
            invalidate_changed-IsValid rest next c1 (invalidate_tenant-IsValid id c v) in
          subst (Leaves ((id, o) ∷ rest) next c)
            (sym (invalidate_changed_next id o rest next c true differs))
            (
              valid,
              first-Unchanged id o rest next c c1 (invalidate_changed rest next c1)
                  (λ k e h.
                    let (ne, held) = invalidate_tenant-lookup id k e c v h in
                    (held, λ same. absurd (ne (sym same))))
                  others,
            )
      | inr same ↦
          let (valid, others) = invalidate_changed-IsValid rest next c v in
          subst (Leaves ((id, o) ∷ rest) next c)
            (sym (invalidate_changed_next id o rest next c false same))
            (
              valid,
              first-Unchanged id o rest next c c (invalidate_changed rest next c)
                  (λ k e h. (h, λ i. same)) others,
            )
    ]
