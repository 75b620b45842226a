-- ===== src/Cache/Service/Own.antt =====
-- Every tenant's own: what the levels hold for a tenant has been given to the cache for that tenant, and a
-- lookup keeps it so.
use mathlib.Core.Path.{subst}
use tide_gate.Prelude.{
  if◌then◌else◌, ℕ, String, ◌≡◌, refl, ◌⊎◌, Bool, true, false, Option, none, some, List, [], ◌∷◌,
  inl, inr, Bool-cases, Option-cases, ◌+◌, count_eq,
}
use tide_gate.Prelude.Text.{codes, codes_eq, within}
use tide_gate.Prelude.Dict.{lookup}
use tide_gate.Cache.Levels.{
  broken, Levels, intact, l1_get, SemcacheDocument, CallOutcome, StoredValue, is_answered,
  l2_delete,
}
use tide_gate.Core.{UnifiedResponse}
use tide_gate.Cache.Keys.{NoColon, exact_key}
use tide_gate.Cache.Service.{candidate_response, CandidateCalls, responses_for_candidates}
use tide_gate.Cache.Ranking.{SemanticHit, Candidate}
use tide_gate.Cache.Levels.Shrinks.{
  Within, l1_get-Within, Within-refl, HasDocument, Within-trans, l2_delete-Within,
}

-- what was given to the cache, and for whom
abbrev pub Log : Type 0
Log = List (List ℕ × UnifiedResponse)

abbrev pub Given : List ℕ → UnifiedResponse → Log → Type 0
Given t r [] = ⊥
Given t r (g ∷ log) = ((g.0 ≡ t) × (g.1 ≡ r)) ⊎ Given t r log

-- a key of the tenant, of any request
abbrev pub KeyOf : List ℕ → List ℕ → Type 0
KeyOf t k = (d : List ℕ) × NoColon d × (k ≡ exact_key t d)

abbrev pub Own : Log → Levels → Type 0
Own log s =
    ((t k : List ℕ) (r : UnifiedResponse)
      → KeyOf t k
      → lookup k s.l1 ≡ some (intact r)
      → Given t r log)
    × ((id : String) (doc : SemcacheDocument)
        → HasDocument s id doc
        → KeyOf (codes doc.tenant) doc.l1_key)

pub Within-Own : (log : Log) (s s' : Levels) → Within s s' → Own log s' → Own log s
Within-Own log s s' within own = (
  λ t k r key there. own.0 t k r key (within.0 k r there),
  λ id doc there. own.1 id doc (within.1 id doc there),
)

-- what a reading has found
abbrev pub OnAnswer : (UnifiedResponse → Type 0) → Option (Option UnifiedResponse) → Type 0
OnAnswer P none = Unit
OnAnswer P (some none) = Unit
OnAnswer P (some (some r)) = P r

abbrev pub OnSome {ℓ} : {A : Type ℓ} → (A → Type 0) → Option A → Type 0
OnSome P none = Unit
OnSome P (some x) = P x

module _ (P : UnifiedResponse → Type 0) where
  no_answer : (b : Bool) → OnAnswer P (if b then some none else none)
  no_answer true = tt
  no_answer false = tt

  pub l1_get-OnAnswer :
      (get drop : CallOutcome) (key : List ℕ) (s : Levels)
      → ((r : UnifiedResponse) → lookup key s.l1 ≡ some (intact r) → P r)
      → OnAnswer P (l1_get get drop key s).0
  unfolding l1_get
  l1_get-OnAnswer get drop key s h = elim (Bool-cases (is_answered get)) [
    | inr no_ ↦ rw (l1_get, no_) tt
    | inl yes_ ↦ elim (Option-cases (lookup key s.l1)) [
      | inl absent ↦ rw (l1_get, yes_, absent) tt
      | inr (v, present) ↦ value_cases v yes_ present
    ]
  ]
    where
      value_cases :
          (v : StoredValue)
          → is_answered get ≡ true
          → lookup key s.l1 ≡ some v
          → OnAnswer P (l1_get get drop key s).0
      value_cases (intact r) yes_ present = rw (l1_get, yes_, present) (h r present)
      value_cases broken yes_ present = rw (l1_get, yes_, present) (no_answer (is_answered drop))

  from_answer :
      (calls : CandidateCalls) (hit : SemanticHit) (s : Levels)
      (x : Option (Option UnifiedResponse))
      → (l1_get calls.get calls.drop hit.l1_key s).0 ≡ x
      → OnAnswer P x
      → OnSome P (candidate_response calls hit s).0
  unfolding candidate_response
  from_answer calls hit s none e h = rw (candidate_response, e) tt
  from_answer calls hit s (some none) e h = rw (candidate_response, e) tt
  from_answer calls hit s (some (some r)) e h = rw (candidate_response, e) h

candidate_response-Within :
    (calls : CandidateCalls) (hit : SemanticHit) (s : Levels)
    → Within (candidate_response calls hit s).1 s
unfolding candidate_response
candidate_response-Within calls hit s = for_answer (l1_get calls.get calls.drop hit.l1_key s).0 refl
  where
    for_answer :
        (x : Option (Option UnifiedResponse))
        → (l1_get calls.get calls.drop hit.l1_key s).0 ≡ x
        → Within (candidate_response calls hit s).1 s
    for_answer none e = rw (candidate_response, e) (l1_get-Within calls.get calls.drop hit.l1_key s)
    for_answer (some (some r)) e =
        rw (candidate_response, e) (l1_get-Within calls.get calls.drop hit.l1_key s)
    for_answer (some none) e =
        let s' = (l1_get calls.get calls.drop hit.l1_key s).1 in
        rw (candidate_response, e)
          (Within-trans (l2_delete calls.delete hit.entry_id s') s' s
            (l2_delete-Within calls.delete hit.entry_id s')
            (l1_get-Within calls.get calls.drop hit.l1_key s))

-- the candidates are the tenant's, and so are their responses
abbrev pub AllKeys : List ℕ → List SemanticHit → Type 0
AllKeys t [] = Unit
AllKeys t (h ∷ hs) = KeyOf t h.l1_key × AllKeys t hs

abbrev pub AllGiven : List ℕ → Log → List Candidate → Type 0
AllGiven t log [] = Unit
AllGiven t log (c ∷ cs) = Given t c.1 log × AllGiven t log cs

module _ (log : Log) (t : List ℕ) where
  candidate_response-Given :
      (calls : CandidateCalls) (hit : SemanticHit) (s : Levels)
      → Own log s
      → KeyOf t hit.l1_key
      → OnSome (λ r. Given t r log) (candidate_response calls hit s).0
  candidate_response-Given calls hit s own key =
      from_answer (λ r. Given t r log) calls hit s (l1_get calls.get calls.drop hit.l1_key s).0 refl
        (l1_get-OnAnswer (λ r. Given t r log) calls.get calls.drop hit.l1_key s
          (λ r there. own.0 t hit.l1_key r key there))

  -- What the candidates come to is the tenant's, and nothing is written.
  pub responses_for_candidates-Given :
      (calls : ℕ → CandidateCalls) (i : ℕ) (hits : List SemanticHit) (s : Levels)
      → Own log s
      → AllKeys t hits
      → let (usable, s') = responses_for_candidates calls i hits s in
        AllGiven t log usable × Within s' s
  unfolding responses_for_candidates
  responses_for_candidates-Given calls i [] s own keys = (tt, Within-refl s)
  responses_for_candidates-Given calls i (hit ∷ hits) s own keys =
      let s' = (candidate_response (calls i) hit s).1 in
      let within = candidate_response-Within (calls i) hit s in
      let given = candidate_response-Given (calls i) hit s own keys.0 in
      let (rest, deeper) =
        responses_for_candidates-Given calls (i + 1) hits s' (Within-Own log s' s within own)
          keys.1 in
      let all_ =
        Within-trans (responses_for_candidates calls (i + 1) hits s').1 s' s deeper within in
      elim (Option-cases (candidate_response (calls i) hit s).0) [
        | inl nothing ↦ rw (responses_for_candidates, nothing) (rest, all_)
        | inr (r, something) ↦
            rw (responses_for_candidates, something)
              (
                (subst (OnSome (λ (x : UnifiedResponse). Given t x log)) something given, rest),
                all_,
              )
      ]
