-- ===== src/Cache/Service/Found.antt =====
-- What a lookup finds for a tenant has been given to the cache for that tenant.
use mathlib.Core.Path.{subst}
use tide_gate.Prelude.{
  ℕ, String, string_eq, ◌≡◌, refl, sym, Bool, ◌&&◌, Option, none, some, List, [], ◌∷◌, inl, inr,
  Bool-cases, Option-cases, ◌==◌, count_eq, length, ◌-◌, arith,
}
use tide_gate.Prelude.Text.{codes, codes_eq, within}
use tide_gate.Prelude.Int.{ℤ, pos, ◌-ℤ◌, ltb_ℤ}
use tide_gate.Cache.Levels.{Levels, SearchRow, SemcacheDocument, l2_lookup, is_answered, l1_get}
use tide_gate.Core.{UnifiedRequest, UnifiedResponse}
use tide_gate.Cache.Service.Own.{
  Log, Own, AllKeys, AllGiven, KeyOf, OnSome, Given, responses_for_candidates-Given, OnAnswer,
  l1_get-OnAnswer, Within-Own,
}
use tide_gate.Cache.Ranking.{SemanticHit, Candidate, scored, best_reranked_hit, rerank_threshold}
use tide_gate.Config.{TenantConfig, GatewayConfig}
use tide_gate.Cache.Levels.Shrinks.{
  Within, HasDocument, Within-refl, mark_hit-Within, Within-trans, l1_get-Within,
}
use tide_gate.Cache.Service.{
  first_hits, LookupCalls, lookup_l2, semantic_hit, Search, CacheHit, after_l1, cache_lookup,
  responses_for_candidates, key_of,
}
use tide_gate.Cache.Ranking.Best.{Among, Ranked, best, best_reranked_hit-Ranked}
use tide_gate.Cache.Keys.{CanonicalForm, NoColon, canonical_form}
use tide_gate.Cache.Gates.{read_decision}

-- the rows are of entries of the tenant, as the index's filter asks for
abbrev pub RowsOf : String → Levels → List SearchRow → Type 0
RowsOf t s [] = Unit
RowsOf t s (row ∷ rows) =
    ((doc : SemcacheDocument) × HasDocument s row.entry_id doc
      × (doc.tenant ≡ t)
      × (doc.l1_key ≡ row.l1_key))
    × RowsOf t s rows

module _ (log : Log) (s : Levels) (own : Own log s) where
  l2_lookup-AllKeys :
      (t : String) (threshold : ℕ) (rows : List SearchRow)
      → RowsOf t s rows
      → AllKeys (codes t) (l2_lookup threshold rows)
  unfolding l2_lookup
  l2_lookup-AllKeys t threshold [] h = tt
  l2_lookup-AllKeys t threshold (row ∷ rows) ((doc, there, mine, same), h) =
      let rest = l2_lookup-AllKeys t threshold rows h in
      let key : KeyOf (codes t) row.l1_key =
        subst (KeyOf (codes t)) same (
          subst (λ (x : String). KeyOf (codes x) doc.l1_key) mine (own.1 row.entry_id doc there)) in
      elim (Bool-cases (ltb_ℤ (pos 1_000_000 -ℤ row.distance) (pos threshold))) [
        | inl far ↦ rw (l2_lookup, far) rest
        | inr near ↦ rw (l2_lookup, near) (key, rest)
      ]

first_hits-AllKeys :
    (t : List ℕ) (n : ℕ) (hits : List SemanticHit) → AllKeys t hits → AllKeys t (first_hits n hits)
first_hits-AllKeys t n [] h = tt
first_hits-AllKeys t n (x ∷ xs) h = elim (Bool-cases (n == 0)) [
  | inl over_ ↦ rw over_ tt
  | inr more ↦ rw more (h.0, first_hits-AllKeys t (n - 1) xs h.1)
]

module _ (log : Log) (t : List ℕ) where
  Among-Given :
      (candidates : List Candidate) (scores : List ℤ) (x : ℤ × Candidate)
      → AllGiven t log candidates
      → Among x (scored candidates scores)
      → Given t x.1.1 log
  Among-Given [] scores x h m = absurd m
  Among-Given (c ∷ cs) [] x h m = absurd m
  Among-Given (c ∷ cs) (s ∷ ss) x h (inl e) =
      subst (λ (y : ℤ × Candidate). Given t y.1.1 log) (sym e) h.0
  Among-Given (c ∷ cs) (s ∷ ss) x h (inr m) = Among-Given cs ss x h.1 m

  Ranked-Given :
      (candidates : List Candidate) (scores : List ℤ) (threshold : ℤ) (o : Option Candidate)
      → AllGiven t log candidates
      → Ranked threshold (scored candidates scores) o
      → OnSome (λ (c : Candidate). Given t c.1 log) o
  Ranked-Given candidates scores threshold none h r = tt
  Ranked-Given candidates scores threshold (some c) h (best score hit response m top reached) =
      Among-Given candidates scores (score, (hit, response)) h m

  best_reranked_hit-Given :
      (candidates : List Candidate) (scores : List ℤ) (threshold : ℤ)
      → AllGiven t log candidates
      → OnSome (λ (c : Candidate). Given t c.1 log) (best_reranked_hit candidates scores threshold)
  best_reranked_hit-Given candidates scores threshold h =
      let (ranked, none_) = best_reranked_hit-Ranked candidates scores threshold in
      elim (Bool-cases (length candidates == length scores)) [
        | inl same ↦
            Ranked-Given candidates scores threshold (best_reranked_hit candidates scores threshold)
              h (ranked ((count_eq.same_iff (length candidates) (length scores)).0 same))
        | inr differ ↦
            rw (none_ (ground (arith, count_eq.same_iff (length candidates) (length scores)))) tt
      ]

  lookup_l2-Given :
      (tenant : TenantConfig) (settings : GatewayConfig) (stale : Bool) (search : Search)
      (s : Levels)
      → Own log s
      → AllKeys t (l2_lookup settings.cache.l2.recall_threshold search.rows)
      → let (found, s') = lookup_l2 tenant settings stale search s in
        OnSome (λ (c : Candidate). Given t c.1 log) found × Within s' s
  unfolding lookup_l2
  lookup_l2-Given tenant settings stale search s own keys =
      let hits = l2_lookup settings.cache.l2.recall_threshold search.rows in
      elim (Option-cases search.time_out) [
        | inr (n, late) ↦
            rw (lookup_l2, late)
              (
                tt,
                (responses_for_candidates-Given log t search.calls 0 (first_hits n hits) s own
                    (first_hits-AllKeys t n hits keys)).1,
              )
        | inl in_time ↦
            let (given, within) =
              responses_for_candidates-Given log t search.calls 0 hits s own keys in
            rw (lookup_l2, in_time)
              (
                best_reranked_hit-Given (responses_for_candidates search.calls 0 hits s).0
                    search.scores (rerank_threshold tenant settings stale) given,
                within,
              )
      ]

  semantic_hit-Given :
      (calls : LookupCalls) (o : Option Candidate) (s : Levels)
      → OnSome (λ (c : Candidate). Given t c.1 log) o
      → let (hit, s') = semantic_hit calls (o, s) in
        OnSome (λ (h : CacheHit). Given t h.response log) hit × Within s' s
  unfolding semantic_hit
  semantic_hit-Given calls none s h = (tt, Within-refl s)
  semantic_hit-Given calls (some (hit, response)) s h =
      let within = mark_hit-Within calls.mark calls.now hit.entry_id s in
      elim (Bool-cases (is_answered calls.mark)) [
        | inl marked ↦ rw (semantic_hit, marked) (h, within)
        | inr lost_ ↦ rw (semantic_hit, lost_) (tt, within)
      ]

module _ (hash : CanonicalForm → List ℕ) (has_embedding : Bool) (log : Log) (t : List ℕ) where
  after_l1-Given :
      (tenant : TenantConfig) (settings : GatewayConfig) (stale : Bool) (calls : LookupCalls)
      (use_l2 : Bool) (x : Option (Option UnifiedResponse)) (s : Levels)
      → Own log s
      → AllKeys t (l2_lookup settings.cache.l2.recall_threshold calls.search.rows)
      → OnAnswer (λ r. Given t r log) x
      → let (hit, s') = after_l1 hash has_embedding tenant settings stale calls use_l2 x s in
        OnSome (λ (h : CacheHit). Given t h.response log) hit × Within s' s
  unfolding after_l1
  after_l1-Given tenant settings stale calls use_l2 none s own keys h = (tt, Within-refl s)
  after_l1-Given tenant settings stale calls use_l2 (some (some r)) s own keys h =
      (h, Within-refl s)
  after_l1-Given tenant settings stale calls use_l2 (some none) s own keys h =
      let o = lookup_l2 tenant settings stale calls.search s in
      let (given, within) = lookup_l2-Given log t tenant settings stale calls.search s own keys in
      let (answer, marked) = semantic_hit-Given log t calls o.0 o.1 given in
      elim (Bool-cases (use_l2 && has_embedding)) [
        | inl both_ ↦
            rw (after_l1, both_) (answer, Within-trans (semantic_hit calls o).1 o.1 s marked within)
        | inr without ↦ rw (after_l1, without) (tt, Within-refl s)
      ]

module _ (hash : CanonicalForm → List ℕ) (has_embedding : Bool)
    (hex : (f : CanonicalForm) → NoColon (hash f)) where
  pub cache_lookup-Given :
      (log : Log) (req : UnifiedRequest) (tenant : TenantConfig) (settings : GatewayConfig)
      (stale : Bool) (calls : LookupCalls) (s : Levels)
      → Own log s
      → RowsOf tenant.id s calls.search.rows
      → let (hit, s') = cache_lookup hash has_embedding req tenant settings stale calls s in
        OnSome (λ (h : CacheHit). Given (codes tenant.id) h.response log) hit × Within s' s
  unfolding cache_lookup
  cache_lookup-Given log req tenant settings stale calls s own rows =
      let t = codes tenant.id in
      let key = key_of hash has_embedding req tenant in
      let o = l1_get calls.get calls.drop key s in
      let within = l1_get-Within calls.get calls.drop key s in
      let given =
        l1_get-OnAnswer (λ r. Given t r log) calls.get calls.drop key s
          (λ r there.
            own.0 t key r (hash (canonical_form req), hex (canonical_form req), refl) there) in
      let r =
        after_l1 hash has_embedding tenant settings stale calls
          (read_decision req tenant settings).l2 o.0 o.1 in
      let (answer, deeper) =
        after_l1-Given hash has_embedding log t tenant settings stale calls
          (read_decision req tenant settings).l2 o.0 o.1 (Within-Own log o.1 s within own)
          (l2_lookup-AllKeys log s own tenant.id settings.cache.l2.recall_threshold
            calls.search.rows rows)
          given in
      elim (Bool-cases (read_decision req tenant settings).l1) [
        | inr bypassed ↦ rw (cache_lookup, bypassed) (tt, Within-refl s)
        | inl readable ↦ rw (cache_lookup, readable) (answer, Within-trans r.1 o.1 s deeper within)
      ]
