-- ===== src/Cache/Service.antt =====
-- cache/service.py: the lookup and the storing over the two levels. The metrics are left out, as are
-- the exceptions that the embedding itself may raise.
pub mod Found
pub mod Own
pub mod Stored
pub mod Tenants
mod Tests
use tide_gate.Prelude.{
  count_eq, ℕ, ◌+◌, ◌-◌, String, Bool, true, false, not, ◌&&◌, Option, none, some, List, [], ◌∷◌,
  if◌then◌else◌, ◌==◌,
}
use tide_gate.Prelude.Int.{ℤ}
use tide_gate.Prelude.Text.{codes}
use tide_gate.Core.{UnifiedRequest, UnifiedResponse}
use tide_gate.Cache.Levels.{
  CallOutcome, SearchRow, l1_get, mark_hit, l2_delete, Levels, l2_lookup, is_answered, l1_set,
  l2_store,
}
use tide_gate.Cache.Ranking.{SemanticHit, best_reranked_hit, rerank_threshold, Candidate}
use tide_gate.Cache.Keys.{CanonicalForm, canonical_form, exact_key, semantic_text}
use tide_gate.Config.{TenantConfig, GatewayConfig}
use tide_gate.Cache.Gates.{read_decision, can_store}

-- What `CacheService.lookup` finds.
pub record CacheHit : Type 0 where
  pub response : UnifiedResponse
  pub cache_header : String
  pub semcache_entry_id : Option String

-- what becomes of the calls for one candidate
pub record CandidateCalls : Type 0 where
  pub get : CallOutcome
  pub drop : CallOutcome
  pub delete : CallOutcome

-- What the outside does in a search of the second level: the rows of the index, the calls for the
-- candidates, the scores of the reranker, and where the time runs out, if it does: after so many of the
-- candidates. A time-out inside of an awaited call is one after that candidate: whether the call was
-- carried out by then is its outcome, which `calls` gives.
pub record Search : Type 0 where
  pub rows : List SearchRow
  pub calls : ℕ → CandidateCalls
  pub scores : List ℤ
  pub time_out : Option ℕ

-- `_candidate_response`
unfoldable pub candidate_response :
    CandidateCalls → SemanticHit → Levels → Option UnifiedResponse × Levels
unfolding l1_get l2_delete
candidate_response calls hit s =
    let (found, s') = l1_get calls.get calls.drop hit.l1_key s in
    elim found [
      | none ↦ (none, s')
      | some answer ↦ elim answer [
        | some response ↦ (some response, s')
        | none ↦ (none, l2_delete calls.delete hit.entry_id s')
      ]
    ]

-- `_responses_for_candidates`
unfoldable pub responses_for_candidates :
    (ℕ → CandidateCalls) → ℕ → List SemanticHit → Levels → List Candidate × Levels
unfolding candidate_response
responses_for_candidates calls i [] s = ([], s)
responses_for_candidates calls i (hit ∷ hits) s =
    let (found, s') = candidate_response (calls i) hit s in
    let (usable, s'') = responses_for_candidates calls (i + 1) hits s' in
    elim found [ none ↦ (usable, s'') | some response ↦ ((hit, response) ∷ usable, s'') ]

-- the candidates that are looked at before the time runs out
abbrev pub first_hits : ℕ → List SemanticHit → List SemanticHit
first_hits n [] = []
first_hits n (h ∷ hs) = if n == 0 then [] else h ∷ first_hits (n - 1) hs

-- `_lookup_l2`, with an embedding
unfoldable pub lookup_l2 :
    TenantConfig → GatewayConfig → Bool → Search → Levels → Option Candidate × Levels
unfolding responses_for_candidates best_reranked_hit rerank_threshold l2_lookup
lookup_l2 tenant settings stale search s =
    let candidates = l2_lookup settings.cache.l2.recall_threshold search.rows in
    elim search.time_out [
      | some n ↦ (none, (responses_for_candidates search.calls 0 (first_hits n candidates) s).1)
      | none ↦
          let (usable, s') = responses_for_candidates search.calls 0 candidates s in
          (best_reranked_hit usable search.scores (rerank_threshold tenant settings stale), s')
    ]

-- What the outside does in one lookup.
pub record LookupCalls : Type 0 where
  pub get : CallOutcome
  pub drop : CallOutcome
  pub search : Search
  pub mark : CallOutcome
  pub now : ℕ

-- from the answer of the second level on
unfoldable pub semantic_hit : LookupCalls → Option Candidate × Levels → Option CacheHit × Levels
unfolding mark_hit
semantic_hit calls (none, s) = (none, s)
semantic_hit calls (some (hit, response), s) = (
  if is_answered calls.mark
      then some (record {
        response = response;
        cache_header = "hit-semantic";
        semcache_entry_id = some hit.entry_id;
      })
      else none,
  mark_hit calls.mark calls.now hit.entry_id s,
)

-- What the outside does in one storing: `embedded` says that the embedding comes in time.
pub record StoreCalls : Type 0 where
  pub set : CallOutcome
  pub embedded : Bool
  pub hset : CallOutcome
  pub entry_id : String
  pub now : ℕ

-- `hash` is as in Cache.Keys; `has_embedding` is `self._embedding is not None`
module _ (hash : CanonicalForm → List ℕ) (has_embedding : Bool) where
  -- `l1_digest`
  abbrev pub l1_digest : UnifiedRequest → List ℕ
  l1_digest req = hash (canonical_form req)

  abbrev pub key_of : UnifiedRequest → TenantConfig → List ℕ
  key_of req tenant = exact_key (codes tenant.id) (l1_digest req)

  -- from the answer of the first level on
  unfoldable pub after_l1 :
      TenantConfig
      → GatewayConfig
      → Bool
      → LookupCalls
      → Bool
      → Option (Option UnifiedResponse)
      → Levels
      → Option CacheHit × Levels
  unfolding lookup_l2 semantic_hit
  after_l1 tenant settings stale calls use_l2 none s = (none, s)
  after_l1 tenant settings stale calls use_l2 (some (some response)) s = (
    some (record { response = response; cache_header = "hit-exact"; semcache_entry_id = none }),
    s,
  )
  after_l1 tenant settings stale calls use_l2 (some none) s =
      if use_l2 && has_embedding
      then semantic_hit calls (lookup_l2 tenant settings stale calls.search s)
      else (none, s)

  -- `CacheService.lookup`
  unfoldable pub cache_lookup :
      UnifiedRequest
      → TenantConfig
      → GatewayConfig
      → Bool
      → LookupCalls
      → Levels
      → Option CacheHit × Levels
  unfolding after_l1 l1_get read_decision
  cache_lookup req tenant settings stale calls s =
      let decision = read_decision req tenant settings in
      let (answer, s') = l1_get calls.get calls.drop (key_of req tenant) s in
      if not decision.l1
      then (none, s)
      else after_l1 tenant settings stale calls decision.l2 answer s'

  -- `CacheService.store`
  unfoldable pub cache_store :
      UnifiedRequest
      → TenantConfig
      → UnifiedResponse
      → GatewayConfig
      → Bool
      → StoreCalls
      → Levels
      → Levels
  unfolding can_store l1_set l2_store semantic_text
  cache_store req tenant response settings degraded calls s =
      let (store_l1, store_l2) = can_store req tenant response settings degraded in
      let key = key_of req tenant in
      let s' = l1_set calls.set key response s in
      if not store_l1
      then s
      else if not (is_answered calls.set)
      then s'
      else if store_l2 && has_embedding && calls.embedded
      then l2_store calls.hset calls.entry_id
          (record {
            tenant = tenant.id;
            prompt_version = req.prompt_version;
            l1_key = key;
            text = semantic_text req;
          })
          calls.now s'
      else s'
