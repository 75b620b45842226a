-- ===== src/Cache/Ranking/Tests.antt =====
-- The ranking of two candidates, and the threshold of a tenant.
use tide_gate.Prelude.{◌≡◌, ◌≢◌, none, List, [], ◌∷◌, length}
use tide_gate.Prelude.Int.{ℤ, pos, negsuc}
use tide_gate.Core.{UnifiedResponse}
use tide_gate.Cache.Ranking.{Candidate, scored, best_reranked_hit}
use tide_gate.Cache.Ranking.Best.{Ranked, best_reranked_hit-Ranked}

abbrev answer : UnifiedResponse
answer = record {
  content = 104 ∷ 105 ∷ [];
  finish_reason = "stop";
  usage = record { prompt_tokens = 3; completion_tokens = 2; total_tokens = 5 };
  model = "large";
  mean_logprob = none;
}

abbrev candidates : List Candidate
candidates =
    (record { entry_id = "e1"; l1_key = 1 ∷ []; score = pos 900_000; text = 97 ∷ [] }, answer)
    ∷ (record { entry_id = "e2"; l1_key = 2 ∷ []; score = pos 850_000; text = 98 ∷ [] }, answer)
    ∷ []

abbrev scores : List ℤ
scores = negsuc 10 ∷ pos 930_000 ∷ []

best_reranked_hit-Ranked_example :
    let hit = best_reranked_hit candidates scores (pos 920_000) in
    (length candidates ≡ length scores → Ranked (pos 920_000) (scored candidates scores) hit)
    × (length candidates ≢ length scores → hit ≡ none)
best_reranked_hit-Ranked_example = best_reranked_hit-Ranked candidates scores (pos 920_000)
