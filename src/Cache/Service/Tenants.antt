-- ===== src/Cache/Service/Tenants.antt =====
-- Whatever is done to the cache, a tenant is answered with what was given to it for that tenant.
use mathlib.Core.Path.{subst}
use tide_gate.Prelude.{
  ℕ, String, string_eq, ◌≡◌, refl, sym, ap, ◌∙◌, Bool, ◌&&◌, some, List, [], ◌∷◌, inl, inr,
  Bool-cases,
}
use tide_gate.Prelude.Text.{codes, codes_eq}
use tide_gate.Prelude.Dict.{lookup, lookup-insert_cases, insert}
use tide_gate.Cache.Levels.{
  broken, Levels, SemcacheDocument, l1_set, l2_store, intact, drop_l1, CallOutcome, put_l1,
  put_document, l2_delete, carried_out, SemcacheHash, is_answered, no_levels,
}
use tide_gate.Core.{UnifiedRequest, UnifiedResponse}
use tide_gate.Cache.Service.Own.{Log, Own, KeyOf, Within-Own, OnSome, Given}
use tide_gate.Cache.Keys.{CanonicalForm, NoColon, exact_key-tenant, canonical_form, semantic_text}
use tide_gate.Config.{TenantConfig, GatewayConfig}
use tide_gate.Cache.Levels.Shrinks.{Within, drop_l1-Within, l2_delete-Within}
use tide_gate.Cache.Service.{cache_lookup, cache_store, LookupCalls, StoreCalls, key_of, CacheHit}
use tide_gate.Cache.Service.Found.{RowsOf, cache_lookup-Given}
use tide_gate.Cache.Gates.{can_store}

-- What can befall the cache: a lookup, a storing, a key that Redis lets expire, a value that becomes
-- unreadable, and an entry that is deleted, for the feedback or for the capacity.
pub data CacheAct : Type 0 where
  looks : UnifiedRequest → TenantConfig → GatewayConfig → Bool → LookupCalls → CacheAct
  stores :
      UnifiedRequest → TenantConfig → UnifiedResponse → GatewayConfig → Bool → StoreCalls → CacheAct
  expires : List ℕ → CacheAct
  spoils : List ℕ → CacheAct
  deletes : CallOutcome → String → CacheAct

spoil-Within : (key : List ℕ) (s : Levels) → Within (record s { l1 = insert key broken s.l1 }) s
spoil-Within key s = (
  λ k r h. elim (lookup-insert_cases key k broken (intact r) s.l1 h) [
    | inl (same, no_) ↦ absurd (cc)
    | inr before ↦ before
  ],
  λ id doc h. h,
)

Own-more : (log : Log) (g : List ℕ × UnifiedResponse) (s : Levels) → Own log s → Own (g ∷ log) s
Own-more log g s own = (λ t k r key there. inr (own.0 t k r key there), own.1)

put_l1-Own :
    (log : Log) (t key : List ℕ) (r : UnifiedResponse) (s : Levels)
    → Own log s
    → KeyOf t key
    → Own ((t, r) ∷ log) (put_l1 key r s)
put_l1-Own log t key r s own (d, hex, is) = (
  λ t' k r' (d', hex', is') there.
      elim (lookup-insert_cases key k (intact r) (intact r') s.l1 there) [
        | inl (same, value_) ↦
            inl (exact_key-tenant t t' d d' hex hex' (sym is ∙ same ∙ is'), response_of value_)
        | inr before ↦ inr (own.0 t' k r' (d', hex', is') before)
      ],
  own.1,
)
  where
    response_of : {x y : UnifiedResponse} → intact x ≡ intact y → x ≡ y
    response_of e = cc

put_document-Own :
    (log : Log) (id : String) (doc : SemcacheDocument) (now : ℕ) (s : Levels)
    → Own log s
    → KeyOf (codes doc.tenant) doc.l1_key
    → Own log (put_document id doc now s)
put_document-Own log id doc now s own key = (
  own.0,
  λ j doc' (h, there, is).
      elim (lookup-insert_cases id j (record { document = some doc; last_hit_at = now }) h
        s.semcache there) [
          | inr before ↦ own.1 j doc' (h, before, is)
          | inl (same, new) ↦
              subst (λ (x : SemcacheDocument). KeyOf (codes x.tenant) x.l1_key)
                (document_of (ap (λ (x : SemcacheHash). x.document) new ∙ is)) key
        ],
)
  where
    document_of : {x y : SemcacheDocument} → some x ≡ some y → x ≡ y
    document_of e = cc

module _ (hash : CanonicalForm → List ℕ) (has_embedding : Bool)
    (hex : (f : CanonicalForm) → NoColon (hash f)) where
  -- the cache after an act
  unfoldable pub act : CacheAct → Levels → Levels
  act (looks req tenant settings stale calls) s =
      (cache_lookup hash has_embedding req tenant settings stale calls s).1
  act (stores req tenant response settings degraded calls) s =
      cache_store hash has_embedding req tenant response settings degraded calls s
  act (expires key) s = drop_l1 key s
  act (spoils key) s = record s { l1 = insert key broken s.l1 }
  act (deletes call entry_id) s = l2_delete call entry_id s

  -- what the act gives to the cache
  abbrev pub note_given : CacheAct → Log → Log
  note_given (looks req tenant settings stale calls) log = log
  note_given (stores req tenant response settings degraded calls) log =
      (codes tenant.id, response) ∷ log
  note_given (expires key) log = log
  note_given (spoils key) log = log
  note_given (deletes call entry_id) log = log

  abbrev pub acts : List CacheAct → Log × Levels → Log × Levels
  acts [] s = s
  acts (x ∷ xs) s = acts xs (note_given x s.0, act x s.1)

  -- the rows of a lookup are the tenant's
  abbrev pub Asks : CacheAct → Levels → Type 0
  Asks (looks req tenant settings stale calls) s = RowsOf tenant.id s calls.search.rows
  Asks (stores req tenant response settings degraded calls) s = Unit
  Asks (expires key) s = Unit
  Asks (spoils key) s = Unit
  Asks (deletes call entry_id) s = Unit

  abbrev pub AllAsk : List CacheAct → Levels → Type 0
  AllAsk [] s = Unit
  AllAsk (x ∷ xs) s = Asks x s × AllAsk xs (act x s)

  l1_set-Own :
      (log : Log) (call : CallOutcome) (t key : List ℕ) (r : UnifiedResponse) (s : Levels)
      → Own log s
      → KeyOf t key
      → Own ((t, r) ∷ log) (l1_set call key r s)
  unfolding l1_set
  l1_set-Own log call t key r s own k = elim (Bool-cases (carried_out call)) [
    | inl done_ ↦ rw (l1_set, done_) (put_l1-Own log t key r s own k)
    | inr lost_ ↦ rw (l1_set, lost_) (Own-more log (t, r) s own)
  ]

  l2_store-Own :
      (log : Log) (call : CallOutcome) (id : String) (doc : SemcacheDocument) (now : ℕ) (s : Levels)
      → Own log s
      → KeyOf (codes doc.tenant) doc.l1_key
      → Own log (l2_store call id doc now s)
  unfolding l2_store
  l2_store-Own log call id doc now s own k = elim (Bool-cases (carried_out call)) [
    | inl done_ ↦ rw (l2_store, done_) (put_document-Own log id doc now s own k)
    | inr lost_ ↦ rw (l2_store, lost_) own
  ]

  cache_store-Own :
      (log : Log) (req : UnifiedRequest) (tenant : TenantConfig) (response : UnifiedResponse)
      (settings : GatewayConfig) (degraded : Bool) (calls : StoreCalls) (s : Levels)
      → Own log s
      → Own
          ((codes tenant.id, response) ∷ log)
          (cache_store hash has_embedding req tenant response settings degraded calls s)
  unfolding cache_store
  cache_store-Own log req tenant response settings degraded calls s own =
      let key = key_of hash has_embedding req tenant in
      let mine : KeyOf (codes tenant.id) key =
        (hash (canonical_form req), hex (canonical_form req), refl) in
      let log' = (codes tenant.id, response) ∷ log in
      let s' = l1_set calls.set key response s in
      let own' = l1_set-Own log calls.set (codes tenant.id) key response s own mine in
      let doc : SemcacheDocument = record {
        tenant = tenant.id;
        prompt_version = req.prompt_version;
        l1_key = key;
        text = semantic_text req;
      } in
      let stored = can_store req tenant response settings degraded in
      elim (Bool-cases stored.0) [
        | inr refused ↦ rw (cache_store, refused) (Own-more log (codes tenant.id, response) s own)
        | inl kept ↦ elim (Bool-cases (is_answered calls.set)) [
          | inr raised_ ↦ rw (cache_store, kept, raised_) own'
          | inl set_ ↦ elim (Bool-cases (stored.1 && has_embedding && calls.embedded)) [
            | inr first_only ↦ rw (cache_store, kept, set_, first_only) own'
            | inl both_ ↦
                rw (cache_store, kept, set_, both_)
                  (l2_store-Own log' calls.hset calls.entry_id doc calls.now s' own' mine)
          ]
        ]
      ]

  act-Own :
      (x : CacheAct) (log : Log) (s : Levels)
      → Own log s
      → Asks x s
      → Own (note_given x log) (act x s)
  unfolding act
  act-Own (looks req tenant settings stale calls) log s own rows =
      let s' = (cache_lookup hash has_embedding req tenant settings stale calls s).1 in
      Within-Own log s' s
        (cache_lookup-Given hash has_embedding hex log req tenant settings stale calls s own rows).1
        own
  act-Own (stores req tenant response settings degraded calls) log s own rows =
      cache_store-Own log req tenant response settings degraded calls s own
  act-Own (expires key) log s own rows = Within-Own log (drop_l1 key s) s (drop_l1-Within key s) own
  act-Own (spoils key) log s own rows =
      Within-Own log (record s { l1 = insert key broken s.l1 }) s (spoil-Within key s) own
  act-Own (deletes call entry_id) log s own rows =
      Within-Own log (l2_delete call entry_id s) s (l2_delete-Within call entry_id s) own

  acts-Own :
      (xs : List CacheAct) (log : Log) (s : Levels)
      → Own log s
      → AllAsk xs s
      → Own (acts xs (log, s)).0 (acts xs (log, s)).1
  acts-Own [] log s own asks = own
  acts-Own (x ∷ xs) log s own asks =
      acts-Own xs (note_given x log) (act x s) (act-Own x log s own asks.0) asks.1

  -- From an empty cache on, whatever is looked up, stored, let expire, made unreadable or deleted, if the
  -- digests have no colon and the index finds only entries of the tenant that asks, then what a lookup
  -- answers a tenant with, at either level, has been given to the cache for that tenant.
  pub acts-cache_lookup :
      (xs : List CacheAct) (req : UnifiedRequest) (tenant : TenantConfig) (settings : GatewayConfig)
      (stale : Bool) (calls : LookupCalls)
      → AllAsk xs no_levels
      → RowsOf tenant.id (acts xs ([], no_levels)).1 calls.search.rows
      → let (log, s) = acts xs ([], no_levels) in
        OnSome
          (λ (h : CacheHit). Given (codes tenant.id) h.response log)
          (cache_lookup hash has_embedding req tenant settings stale calls s).0
  unfolding lookup
  acts-cache_lookup xs req tenant settings stale calls asks rows =
      let o = acts xs ([], no_levels) in
      (cache_lookup-Given hash has_embedding hex o.0 req tenant settings stale calls o.1
        (acts-Own xs [] no_levels
          (λ t k r key there. absurd (cc), λ id doc (h, there, is). absurd (cc)) asks)
        rows).0
