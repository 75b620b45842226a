-- ===== src/Api/AuthCache/Index.antt =====
-- The index knows every entry, also after a removal.
use tide_gate.Prelude.{
  ◌≡◌, ◌≢◌, ◌∙◌, refl, String, string_eq, true, false, none, some, List, [], ◌∷◌, arith, contains,
  ◌==◌, Bool-cases, Option-cases, inl, inr,
}
use tide_gate.Prelude.Dict.{
  Dict, lookup, erase, lookup-insert_self, lookup-insert_ne, lookup-erase_ne,
}
use tide_gate.Api.AuthCache.{AuthEntry, AuthCache, discard_key, keep_keys, unlist, remove_index}

-- The set of the tenant is there and holds the key.
abbrev pub Listed : String → String → Dict String (List String) → Type 0
Listed tenant_id k index =
    (keys : List String) × (lookup tenant_id index ≡ some keys) × (contains k keys ≡ true)

-- Both indexes know every one of the entries.
pub record Indexed (entries : Dict String AuthEntry) (c : AuthCache) : Type 0 where
  pub by_key :
      (k : String) (e : AuthEntry)
      → lookup k entries ≡ some e
      → lookup k c.tenant_by_key ≡ some e.tenant.id
  pub by_tenant :
      (k : String) (e : AuthEntry)
      → lookup k entries ≡ some e
      → Listed e.tenant.id k c.keys_by_tenant

pub differ : (x y : String) → (x == y) ≡ false → x ≢ y
differ x y h e = absurd (let yes_ = (string_eq.same_iff x y).1 e in cc)

pub remove_index_absent :
    (j : String) (c : AuthCache) → lookup j c.tenant_by_key ≡ none → remove_index j c ≡ c
unfolding remove_index
remove_index_absent j c h = rw (remove_index, h) refl

pub remove_index_found :
    (j u : String) (c : AuthCache)
    → lookup j c.tenant_by_key ≡ some u
    → remove_index j c ≡ record c {
      tenant_by_key = erase j c.tenant_by_key;
      keys_by_tenant = unlist u j c.keys_by_tenant;
    }
unfolding remove_index
remove_index_found j u c h = rw (remove_index, h) refl

apart_from :
    (j k : String) (es : Dict String AuthEntry) {e : AuthEntry}
    → lookup j es ≡ none
    → lookup k es ≡ some e
    → j ≢ k
apart_from j k es gone h e = absurd (let there = (rw e at gone) in cc)

contains-discard_key :
    (k j : String) (keys : List String)
    → j ≢ k
    → contains k keys ≡ true
    → contains k (discard_key j keys) ≡ true
unfolding discard_key
contains-discard_key k j [] ne h = h
contains-discard_key k j (i ∷ keys) ne h =
    ground (arith, contains-discard_key k j keys ne, string_eq.same_iff i j, string_eq.same_iff i k)

lookup-keep_keys_ne :
    (t u : String) (keys : List String) (index : Dict String (List String))
    → u ≢ t
    → lookup t (keep_keys u keys index) ≡ lookup t index
unfolding keep_keys
lookup-keep_keys_ne t u [] index ne = lookup-erase_ne u t index ne
lookup-keep_keys_ne t u (k ∷ keys) index ne = lookup-insert_ne u t (k ∷ keys) index ne

keep_keys-Listed :
    (t k : String) (keys : List String) (index : Dict String (List String))
    → contains k keys ≡ true
    → Listed t k (keep_keys t keys index)
unfolding keep_keys
keep_keys-Listed t k [] index h = absurd (cc)
keep_keys-Listed t k (j ∷ keys) index h = (j ∷ keys, lookup-insert_self t (j ∷ keys) index, h)

unlist_found :
    (t j : String) (index : Dict String (List String)) (keys : List String)
    → lookup t index ≡ some keys
    → unlist t j index ≡ keep_keys t (discard_key j keys) index
unfolding unlist
unlist_found t j index keys h = rw (unlist, h) refl

lookup-unlist_ne :
    (t u j : String) (index : Dict String (List String))
    → u ≢ t
    → lookup t (unlist u j index) ≡ lookup t index
unfolding unlist
lookup-unlist_ne t u j index ne = elim (Option-cases (lookup u index)) [
  | inl absent ↦ rw (unlist, absent) refl
  | inr (keys, found) ↦
      rw (unlist_found u j index keys found) (lookup-keep_keys_ne t u (discard_key j keys) index ne)
]

unlist_same-Listed :
    (t k j : String) (index : Dict String (List String))
    → j ≢ k
    → Listed t k index
    → Listed t k (unlist t j index)
unlist_same-Listed t k j index ne (keys, found, has) =
    rw (unlist_found t j index keys found)
      (keep_keys-Listed t k (discard_key j keys) index (contains-discard_key k j keys ne has))

unlist-Listed :
    (t k u j : String) (index : Dict String (List String))
    → j ≢ k
    → Listed t k index
    → Listed t k (unlist u j index)
unlist-Listed t k u j index ne listed = elim (Bool-cases (u == t)) [
  | inl same ↦ rw ((string_eq.same_iff u t).0 same) (unlist_same-Listed t k j index ne listed)
  | inr other ↦
      let apart = differ u t other in
      (listed.0, lookup-unlist_ne t u j index apart ∙ listed.1, listed.2)
]

-- the entries of a removal are the others
pub remove_index-Indexed :
    (j : String) (es : Dict String AuthEntry) (c : AuthCache)
    → lookup j es ≡ none
    → ((k : String) (e : AuthEntry)
        → lookup k es ≡ some e
        → (lookup k c.tenant_by_key ≡ some e.tenant.id) × Listed e.tenant.id k c.keys_by_tenant)
    → Indexed es (remove_index j c)
remove_index-Indexed j es c gone known = elim (Option-cases (lookup j c.tenant_by_key)) [
  | inl absent ↦
      rw (remove_index_absent j c absent)
        (record { by_key = λ k e h. (known k e h).0; by_tenant = λ k e h. (known k e h).1 })
  | inr (u, found) ↦ rw (remove_index_found j u c found) (record {
    by_key =
        λ k e h. lookup-erase_ne j k c.tenant_by_key (apart_from j k es gone h) ∙ (known k e h).0;
    by_tenant = λ k e h.
        unlist-Listed e.tenant.id k u j c.keys_by_tenant (apart_from j k es gone h) (known k e h).1;
  })
]
