-- ===== src/Api/AuthCache.antt =====
-- api/middleware.py, `_AuthCache`: tenants by the hash of their key, with an index of the keys of each
-- tenant. The entries stand oldest first. A reading of the monotonic clock is an argument.
pub mod Entries
pub mod Index
pub mod Update
use tide_gate.Prelude.{
  ℕ, ◌+◌, String, string_eq, Bool, true, false, Option, none, some, List, [], ◌∷◌, ltb, leb,
  if◌then◌else◌, get_or, length, contains, ◌==◌,
}
use tide_gate.Prelude.Dict.{Dict, lookup, insert, erase}
use tide_gate.Config.{TenantConfig}

pub record AuthEntry : Type 0 where
  pub tenant : TenantConfig
  pub expires_at : ℕ

-- A set of keys is a list without repetition.
pub record AuthCache : Type 0 where
  pub capacity : ℕ
  pub ttl_s : ℕ
  pub entries : Dict String AuthEntry
  pub keys_by_tenant : Dict String (List String)
  pub tenant_by_key : Dict String String

abbrev pub new_auth_cache : ℕ → ℕ → AuthCache
new_auth_cache capacity ttl_s = record {
  capacity = capacity;
  ttl_s = ttl_s;
  entries = [];
  keys_by_tenant = [];
  tenant_by_key = [];
}

-- `keys.add(key_hash)`
unfoldable pub add_key : String → List String → List String
add_key k keys = if contains k keys then keys else k ∷ keys

-- `keys.discard(key_hash)`
unfoldable pub discard_key : String → List String → List String
discard_key k [] = []
discard_key k (j ∷ keys) = let rest = discard_key k keys in if j == k then rest else j ∷ rest

-- what is left of a tenant's set; an empty one is dropped
unfoldable pub keep_keys :
    String → List String → Dict String (List String) → Dict String (List String)
keep_keys tenant_id [] index = erase tenant_id index
keep_keys tenant_id (k ∷ keys) index = insert tenant_id (k ∷ keys) index

-- `keys_by_tenant` without the key
unfoldable pub unlist : String → String → Dict String (List String) → Dict String (List String)
unfolding discard_key keep_keys
unlist tenant_id key_hash index = elim (lookup tenant_id index) [
  | none ↦ index
  | some keys ↦ keep_keys tenant_id (discard_key key_hash keys) index
]

-- `_remove_index`
unfoldable pub remove_index : String → AuthCache → AuthCache
unfolding unlist
remove_index key_hash c = elim (lookup key_hash c.tenant_by_key) [
  | none ↦ c
  | some tenant_id ↦ record c {
    tenant_by_key = erase key_hash c.tenant_by_key;
    keys_by_tenant = unlist tenant_id key_hash c.keys_by_tenant;
  }
]

-- `_remove`
unfoldable pub remove : String → AuthCache → AuthCache
unfolding remove_index
remove key_hash c = remove_index key_hash (record c { entries = erase key_hash c.entries })

-- `_AuthCache.get`
unfoldable pub get : ℕ → String → AuthCache → Option TenantConfig × AuthCache
unfolding remove
get now key_hash c = elim (lookup key_hash c.entries) [
  | none ↦ (none, c)
  | some entry ↦ if leb entry.expires_at now then (none, remove key_hash c) else (
    some entry.tenant,
    record c { entries = insert key_hash entry (erase key_hash c.entries) },
  )
]

-- the loop of `put`, over the entries from the oldest on
unfoldable pub trim_entries : Dict String AuthEntry → AuthCache → AuthCache
unfolding remove_index
trim_entries [] c = record c { entries = [] }
trim_entries ((key_hash, entry) ∷ rest) c =
    if ltb c.capacity (length ((key_hash, entry) ∷ rest))
    then trim_entries rest (remove_index key_hash c)
    else record c { entries = (key_hash, entry) ∷ rest }

-- the assignments of `put`; the key has just been removed, so that the new entry is the last
unfoldable pub register : ℕ → String → TenantConfig → AuthCache → AuthCache
unfolding add_key
register now key_hash tenant c = record c {
  entries = insert key_hash (record { tenant = tenant; expires_at = now + c.ttl_s }) c.entries;
  keys_by_tenant =
      insert tenant.id (add_key key_hash (get_or (lookup tenant.id c.keys_by_tenant) []))
        c.keys_by_tenant;
  tenant_by_key = insert key_hash tenant.id c.tenant_by_key;
}

-- `_AuthCache.put`
unfoldable pub put : ℕ → String → TenantConfig → AuthCache → AuthCache
unfolding remove register trim_entries
put now key_hash tenant c =
    let c' = register now key_hash tenant (remove key_hash c) in trim_entries c'.entries c'

unfoldable pub remove_all : List String → AuthCache → AuthCache
unfolding remove
remove_all [] c = c
remove_all (key_hash ∷ keys) c = remove_all keys (remove key_hash c)

unfoldable pub invalidate_tenant : String → AuthCache → AuthCache
unfolding remove_all
invalidate_tenant tenant_id c = remove_all (get_or (lookup tenant_id c.keys_by_tenant) []) c
