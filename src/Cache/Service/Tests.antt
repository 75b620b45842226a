-- ===== src/Cache/Service/Tests.antt =====
-- A stored answer, found at the first level by its own request, and at the second by another.
use tide_gate.Prelude.{
  arith, ℕ, ◌≡◌, refl, true, false, none, some, List, [], ◌∷◌, string_eq, ◌==◌, if◌then◌else◌,
  Bool-cases, inl, inr,
}
use tide_gate.Prelude.Int.{pos}
use tide_gate.Prelude.Text.{codes_eq, codes}
use tide_gate.Config.Samples.{sample_request, sample_settings, sample_tenant}
use tide_gate.Core.{UnifiedResponse, UnifiedRequest}
use tide_gate.Cache.Keys.{CanonicalForm, NoColon, exact_key, semantic_text, canonical_form}
use tide_gate.Cache.Service.{
  StoreCalls, CandidateCalls, LookupCalls, cache_store, cache_lookup, CacheHit, key_of,
}
use tide_gate.Cache.Gates.{
  can_store, read_decision, is_volatile, usable_levels, temperature_ok, l2_context_allowed, is_user,
  is_empty,
}
use tide_gate.Cache.Service.Tenants.{CacheAct, act, stores, acts, acts-cache_lookup}
use tide_gate.Cache.Levels.{l1_set, answered, l2_store, no_levels}
use tide_gate.Quota.Estimator.{prompt_text}
use tide_gate.Prelude.Dict.{lookup, insert}
use tide_gate.Cache.Service.Stored.{SameRequest, cache_lookup-cache_store}
use tide_gate.Cache.Service.Own.{OnSome, Given}

abbrev answer : UnifiedResponse
answer = record {
  content = 104 ∷ 105 ∷ [];
  finish_reason = "stop";
  usage = record { prompt_tokens = 3; completion_tokens = 2; total_tokens = 5 };
  model = "large";
  mean_logprob = none;
}

-- a digest that tells the models apart
abbrev digest_of : CanonicalForm → List ℕ
digest_of f = if f.model == "chat-large" then 97 ∷ [] else 98 ∷ []

digest_of-NoColon : (f : CanonicalForm) → NoColon (digest_of f)
digest_of-NoColon f = elim (Bool-cases (f.model == "chat-large")) [
  | inl large_ ↦ rw large_ refl
  | inr other_ ↦ rw other_ refl
]

abbrev storing : StoreCalls
storing = record { set = answered; embedded = true; hset = answered; entry_id = "e1"; now = 7 }

abbrev all_answered : ℕ → CandidateCalls
all_answered i = record { get = answered; drop = answered; delete = answered }

abbrev looking : LookupCalls
looking = record {
  get = answered;
  drop = answered;
  search = record {
    rows =
        record {
          entry_id = "e1";
          l1_key = exact_key (codes "tenant-a") (97 ∷ []);
          text = codes "hello";
          distance = pos 100_000;
        }
        ∷ [];
    calls = all_answered;
    scores = pos 990_000 ∷ [];
    time_out = none;
  };
  mark = answered;
  now = 9;
}

abbrev other_request : UnifiedRequest
other_request = record sample_request { model = "chat-small" }

digests_apart : ◌≡◌ {A = ℕ} 98 97 → ⊥
digests_apart e = ground arith

head_same : {x y : ℕ} {xs ys : List ℕ} → (x ∷ xs) ≡ (y ∷ ys) → x ≡ y
head_same e = cc

cache_lookup-cache_store_example :
    let s' =
      cache_store digest_of true sample_request sample_tenant answer sample_settings false storing
        no_levels in
    (SameRequest other_request sample_request
      → cache_lookup digest_of true other_request sample_tenant sample_settings false looking s' ≡ (
        some (record { response = answer; cache_header = "hit-exact"; semcache_entry_id = none }),
        s',
      ))
    × ((SameRequest other_request sample_request → ⊥)
        → lookup (key_of digest_of true other_request sample_tenant) s'.l1
          ≡ lookup (key_of digest_of true other_request sample_tenant) no_levels.l1)
unfolding can_store read_decision is_volatile usable_levels temperature_ok l2_context_allowed
    is_user prompt_text is_empty codes canonical_form
cache_lookup-cache_store_example =
    cache_lookup-cache_store digest_of true sample_request other_request sample_tenant answer
      sample_settings false false storing looking no_levels
      (λ e. absurd (digests_apart (head_same e))) refl refl refl refl

abbrev one_store : List CacheAct
one_store = stores sample_request sample_tenant answer sample_settings false storing ∷ []

acts-cache_lookup_example :
    let (log, s) = acts digest_of true digest_of-NoColon one_store ([], no_levels) in
    OnSome
      (λ (h : CacheHit). Given (codes "tenant-a") h.response log)
      (cache_lookup digest_of true other_request sample_tenant sample_settings false looking s).0
unfolding act cache_store l1_set l2_store can_store is_volatile usable_levels temperature_ok
    l2_context_allowed is_user prompt_text is_empty codes lookup insert exact_key canonical_form
acts-cache_lookup_example =
    acts-cache_lookup digest_of true digest_of-NoColon one_store other_request sample_tenant
      sample_settings false looking (tt, tt)
      (
        (
          record {
            tenant = "tenant-a";
            prompt_version = "";
            l1_key = exact_key (codes "tenant-a") (97 ∷ []);
            text = semantic_text sample_request;
          },
          (_, refl, refl),
          refl,
          refl,
        ),
        tt,
      )
