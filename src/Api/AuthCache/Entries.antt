-- ===== src/Api/AuthCache/Entries.antt =====
-- What each operation leaves of the entries, and that the indexes follow.
use tide_gate.Prelude.{
  ◌≡◌, ◌≢◌, sym, refl, String, string_eq, false, some, List, [], ◌∷◌, arith, contains, Option-cases,
  inl, inr, get_or,
}
use tide_gate.Prelude.Dict.{
  Dict, lookup, erase, lookup-erase_self, lookup-erase_cases, Distinct, erase-Distinct,
}
use mathlib.Core.Path.{subst}
use tide_gate.Api.AuthCache.{
  AuthEntry, AuthCache, remove_index, remove, remove_all, invalidate_tenant,
}
use tide_gate.Api.AuthCache.Index.{
  Indexed, remove_index-Indexed, remove_index_absent, remove_index_found,
}

pub record IsValid (c : AuthCache) : Type 0 where
  pub distinct : Distinct c.entries
  pub indexed : Indexed c.entries c

-- The entries of `c'` are entries of `c`.
abbrev pub Shrinks : AuthCache → AuthCache → Type 0
Shrinks c c' =
    (k : String) (e : AuthEntry) → lookup k c'.entries ≡ some e → lookup k c.entries ≡ some e

remove_index-entries : (j : String) (c : AuthCache) → (remove_index j c).entries ≡ c.entries
remove_index-entries j c = elim (Option-cases (lookup j c.tenant_by_key)) [
  | inl absent ↦ rw (remove_index_absent j c absent) refl
  | inr (u, found) ↦ rw (remove_index_found j u c found) refl
]

pub remove-entries : (j : String) (c : AuthCache) → (remove j c).entries ≡ erase j c.entries
unfolding remove
remove-entries j c = remove_index-entries j (record c { entries = erase j c.entries })

remove-Indexed : (j : String) (c : AuthCache) → IsValid c → Indexed (erase j c.entries) (remove j c)
unfolding remove
remove-Indexed j c v =
    remove_index-Indexed j (erase j c.entries) (record c { entries = erase j c.entries })
      (lookup-erase_self j c.entries)
      (λ k e h.
        let old = (lookup-erase_cases j k e c.entries h).1 in
        (v.indexed.by_key k e old, v.indexed.by_tenant k e old))

pub remove-IsValid : (j : String) (c : AuthCache) → IsValid c → IsValid (remove j c)
remove-IsValid j c v = record {
  distinct = rw (remove-entries j c) (erase-Distinct j c.entries v.distinct);
  indexed =
      subst (λ (es : Dict String AuthEntry). Indexed es (remove j c)) (sym (remove-entries j c))
        (remove-Indexed j c v);
}

pub remove-keeps_others :
    (j k : String) (e : AuthEntry) (c : AuthCache)
    → lookup k (remove j c).entries ≡ some e
    → (j ≢ k) × (lookup k c.entries ≡ some e)
remove-keeps_others j k e c h = lookup-erase_cases j k e c.entries (rw (remove-entries j c) at h)

pub remove_all-IsValid : (ks : List String) (c : AuthCache) → IsValid c → IsValid (remove_all ks c)
unfolding remove_all
remove_all-IsValid [] c v = v
remove_all-IsValid (k ∷ ks) c v = remove_all-IsValid ks (remove k c) (remove-IsValid k c v)

remove_all-lookup :
    (ks : List String) (k : String) (e : AuthEntry) (c : AuthCache)
    → lookup k (remove_all ks c).entries ≡ some e
    → (contains k ks ≡ false) × (lookup k c.entries ≡ some e)
unfolding remove_all
remove_all-lookup [] k e c h = (refl, h)
remove_all-lookup (j ∷ ks) k e c h =
    let (later, there) = remove_all-lookup ks k e (remove j c) h in
    let (other, held) = remove-keeps_others j k e c there in
    (ground (arith, later, string_eq.same_iff j k, other), held)

-- No entry of the tenant is left, and no other is new.
pub invalidate_tenant-lookup :
    (t k : String) (e : AuthEntry) (c : AuthCache)
    → IsValid c
    → lookup k (invalidate_tenant t c).entries ≡ some e
    → (e.tenant.id ≢ t) × (lookup k c.entries ≡ some e)
unfolding invalidate_tenant
invalidate_tenant-lookup t k e c v h =
    let (unlisted, held) = remove_all-lookup (get_or (lookup t c.keys_by_tenant) []) k e c h in
    let (keys, found, has) = v.indexed.by_tenant k e held in
    (λ same. absurd (let at_t = (rw same at found) in let bad = (rw at_t at unlisted) in cc), held)

pub invalidate_tenant-IsValid :
    (t : String) (c : AuthCache) → IsValid c → IsValid (invalidate_tenant t c)
unfolding invalidate_tenant
invalidate_tenant-IsValid t c v = remove_all-IsValid (get_or (lookup t c.keys_by_tenant) []) c v
