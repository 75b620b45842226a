-- ===== src/Api/AuthCache/Update.antt =====
-- A read and a write keep the cache valid, and change the entry of their key only.
use tide_gate.Prelude.{
  ℕ, ◌≡◌, ◌≢◌, ◌⊎◌, ◌∙◌, ap, sym, refl, String, string_eq, true, false, Option, none, some, List,
  [], ◌∷◌, arith, ltb, leb, contains, ◌==◌, Bool-cases, Option-cases, inl, inr, get_or, length,
}
use tide_gate.Prelude.Dict.{
  Dict, lookup, insert, erase, lookup-insert, lookup-insert_self, lookup-insert_ne,
  lookup-insert_cases, lookup-erase_cases, Distinct, erase-Distinct, insert-Distinct,
}
use mathlib.Core.Path.{subst}
use tide_gate.Config.{TenantConfig}
use tide_gate.Api.AuthCache.{
  AuthEntry, AuthCache, add_key, remove_index, remove, get, put, register, trim_entries,
}
use tide_gate.Api.AuthCache.Index.{Indexed, Listed, remove_index-Indexed, differ}
use tide_gate.Api.AuthCache.Entries.{IsValid, Shrinks, remove-IsValid, remove-keeps_others}

-- the entry that a read moves to the end
moved-IsValid :
    (k : String) (e : AuthEntry) (c : AuthCache)
    → lookup k c.entries ≡ some e
    → IsValid c
    → let c' = record c { entries = insert k e (erase k c.entries) } in IsValid c' × Shrinks c c'
moved-IsValid k e c h v =
    let c' : AuthCache = record c { entries = insert k e (erase k c.entries) } in
    let back : Shrinks c c' = λ j f g. elim (lookup-insert_cases k j e f (erase k c.entries) g) [
      | inl (same, held) ↦ rw (← same, ← held) h
      | inr old ↦ (lookup-erase_cases k j f c.entries old).1
    ] in
    (
      record {
        distinct = insert-Distinct k e (erase k c.entries) (erase-Distinct k c.entries v.distinct);
        indexed = record {
          by_key = λ j f g. v.indexed.by_key j f (back j f g);
          by_tenant = λ j f g. v.indexed.by_tenant j f (back j f g);
        };
      },
      back,
    )

-- What a read returns is the tenant of an entry, and it adds none.
pub get-IsValid :
    (now : ℕ) (k : String) (c : AuthCache)
    → IsValid c
    → let (found, c') = get now k c in
      IsValid c'
      × Shrinks c c'
      × ((t : TenantConfig)
          → found ≡ some t
          → (e : AuthEntry) × (lookup k c.entries ≡ some e) × (e.tenant ≡ t))
unfolding get
get-IsValid now k c v = elim (Option-cases (lookup k c.entries)) [
  | inl absent ↦ rw (get, absent) (v, λ j f g. g, λ t h. absurd (cc))
  | inr (e, there) ↦ elim (Bool-cases (leb e.expires_at now)) [
    | inl expired ↦
        rw (get, there, expired)
          (remove-IsValid k c v, λ j f g. (remove-keeps_others k j f c g).1, λ t h. absurd (cc))
    | inr fresh ↦
        let (valid, shrinks) = moved-IsValid k e c there v in
        rw (get, there, fresh)
          (valid, shrinks, λ t h. (e, refl, ap (λ (o : Option TenantConfig). get_or o e.tenant) h))
  ]
]

trim_more :
    (j : String) (f : AuthEntry) (rest : Dict String AuthEntry) (c : AuthCache)
    → ltb c.capacity (length ((j, f) ∷ rest)) ≡ true
    → trim_entries ((j, f) ∷ rest) c ≡ trim_entries rest (remove_index j c)
unfolding trim_entries
trim_more j f rest c h = rw (trim_entries, h) refl

trim_stop :
    (j : String) (f : AuthEntry) (rest : Dict String AuthEntry) (c : AuthCache)
    → ltb c.capacity (length ((j, f) ∷ rest)) ≡ false
    → trim_entries ((j, f) ∷ rest) c ≡ record c { entries = (j, f) ∷ rest }
unfolding trim_entries
trim_stop j f rest c h = rw (trim_entries, h) refl

-- What stands behind the first entry is an entry.
lookup_later :
    (j k : String) (f e : AuthEntry) (rest : Dict String AuthEntry)
    → lookup j rest ≡ none
    → lookup k rest ≡ some e
    → lookup k ((j, f) ∷ rest) ≡ some e
unfolding lookup
lookup_later j k f e rest gone h = elim (Bool-cases (j == k)) [
  | inl same ↦ absurd (let there = (rw (← (string_eq.same_iff j k).0 same, gone) at h) in cc)
  | inr other ↦ rw other h
]

-- The cache is valid with some of the entries `es`.
abbrev Keeps : Dict String AuthEntry → AuthCache → Type 0
Keeps es c' =
    IsValid c'
    × ((k : String) (e : AuthEntry) → lookup k c'.entries ≡ some e → lookup k es ≡ some e)

exact-Keeps :
    (es : Dict String AuthEntry) (c : AuthCache)
    → Distinct es
    → Indexed es c
    → Keeps es (record c { entries = es })
exact-Keeps es c d i = (
  record { distinct = d; indexed = record { by_key = i.by_key; by_tenant = i.by_tenant } },
  λ k e h. h,
)

rest-Indexed :
    (j : String) (f : AuthEntry) (rest : Dict String AuthEntry) (c : AuthCache)
    → lookup j rest ≡ none
    → Indexed ((j, f) ∷ rest) c
    → Indexed rest (remove_index j c)
rest-Indexed j f rest c gone i = remove_index-Indexed j rest c gone (λ k e h.
    let there = lookup_later j k f e rest gone h in (i.by_key k e there, i.by_tenant k e there))

-- The trimmed entries are some of the last.
trim_entries-Keeps :
    (es : Dict String AuthEntry) (c : AuthCache)
    → Distinct es
    → Indexed es c
    → Keeps es (trim_entries es c)
unfolding trim_entries
trim_entries-Keeps [] c d i = exact-Keeps [] c d i
trim_entries-Keeps ((j, f) ∷ rest) c d i =
    elim (Bool-cases (ltb c.capacity (length ((j, f) ∷ rest)))) [
      | inl over ↦
          let (valid, kept) =
            trim_entries-Keeps rest (remove_index j c) d.1 (rest-Indexed j f rest c d.0 i) in
          subst (Keeps ((j, f) ∷ rest)) (sym (trim_more j f rest c over))
            (valid, λ k e h. lookup_later j k f e rest d.0 (kept k e h))
      | inr fits ↦
          subst (Keeps ((j, f) ∷ rest)) (sym (trim_stop j f rest c fits))
            (exact-Keeps ((j, f) ∷ rest) c d i)
    ]

contains-add_key : (k : String) (keys : List String) → contains k (add_key k keys) ≡ true
unfolding add_key
contains-add_key k keys = ground (arith, string_eq.same_iff k k)

add_key-keeps :
    (k j : String) (keys : List String)
    → contains j keys ≡ true
    → contains j (add_key k keys) ≡ true
unfolding add_key
add_key-keeps k j keys h = ground arith

-- The entry that a write adds, and the others.
register-cases :
    (now : ℕ) (k j : String) (t : TenantConfig) (e : AuthEntry) (c : AuthCache)
    → lookup j (register now k t c).entries ≡ some e
    → ((k ≡ j) × (e.tenant ≡ t)) ⊎ ((k ≢ j) × (lookup j c.entries ≡ some e))
unfolding register
register-cases now k j t e c h = elim (Bool-cases (k == j)) [
  | inl same ↦
      let there = (rw (lookup-insert, same) at h) in
      inl (
        (string_eq.same_iff k j).0 same,
        sym (ap (λ (o : Option AuthEntry). (get_or o e).tenant) there),
      )
  | inr other ↦ let there = (rw (lookup-insert, other) at h) in inr (differ k j other, there)
]

add-Listed :
    (t u j k : String) (index : Dict String (List String))
    → Listed u j index
    → Listed u j (insert t (add_key k (get_or (lookup t index) [])) index)
add-Listed t u j k index (keys, found, has) = elim (Bool-cases (t == u)) [
  | inl same ↦
      let e = (string_eq.same_iff t u).0 same in
      rw e (
        add_key k keys,
        rw found (lookup-insert_self u (add_key k keys) index),
        add_key-keeps k j keys has,
      )
  | inr other ↦ (keys, lookup-insert_ne t u _ index (differ t u other) ∙ found, has)
]

register-by_key :
    (now : ℕ) (k j : String) (t : TenantConfig) (e : AuthEntry) (c : AuthCache)
    → IsValid c
    → lookup j (register now k t c).entries ≡ some e
    → lookup j (register now k t c).tenant_by_key ≡ some e.tenant.id
unfolding register
register-by_key now k j t e c v h = elim (register-cases now k j t e c h) [
  | inl (same, held) ↦ rw (← same, held) (lookup-insert_self k t.id c.tenant_by_key)
  | inr (other, old) ↦ lookup-insert_ne k j t.id c.tenant_by_key other ∙ v.indexed.by_key j e old
]

register-by_tenant :
    (now : ℕ) (k j : String) (t : TenantConfig) (e : AuthEntry) (c : AuthCache)
    → IsValid c
    → lookup j (register now k t c).entries ≡ some e
    → Listed e.tenant.id j (register now k t c).keys_by_tenant
unfolding register
register-by_tenant now k j t e c v h =
    let keys = get_or (lookup t.id c.keys_by_tenant) [] in
    elim (register-cases now k j t e c h) [
      | inl (same, held) ↦
          rw (← same, held)
            (
              add_key k keys,
              lookup-insert_self t.id (add_key k keys) c.keys_by_tenant,
              contains-add_key k keys,
            )
      | inr (other, old) ↦
          add-Listed t.id e.tenant.id j k c.keys_by_tenant (v.indexed.by_tenant j e old)
    ]

register-Distinct :
    (now : ℕ) (k : String) (t : TenantConfig) (c : AuthCache)
    → IsValid c
    → Distinct (register now k t c).entries
unfolding register
register-Distinct now k t c v = insert-Distinct k _ c.entries v.distinct

-- A write keeps the cache valid, and adds no entry but the tenant's under the key.
pub put-IsValid :
    (now : ℕ) (k : String) (t : TenantConfig) (c : AuthCache)
    → IsValid c
    → IsValid (put now k t c)
      × ((j : String) (e : AuthEntry)
          → lookup j (put now k t c).entries ≡ some e
          → ((k ≡ j) × (e.tenant ≡ t)) ⊎ (lookup j c.entries ≡ some e))
unfolding put
put-IsValid now k t c v =
    let c1 = remove k c in
    let v1 = remove-IsValid k c v in
    let c2 = register now k t c1 in
    let (valid, kept) = trim_entries-Keeps c2.entries c2 (register-Distinct now k t c1 v1) (record {
      by_key = λ j e h. register-by_key now k j t e c1 v1 h;
      by_tenant = λ j e h. register-by_tenant now k j t e c1 v1 h;
    }) in
    (
      valid,
      λ j e h. elim (register-cases now k j t e c1 (kept j e h)) [
        | inl new ↦ inl new
        | inr (other, old) ↦ inr (remove-keeps_others k j e c old).1
      ],
    )
