-- ===== src/Cache/Replay.antt =====
-- cache/replay.py: a cached response as a stream of deltas. The pause between two deltas is not
-- modelled. A chunk has at least one character: with none, `range` raises.
pub mod Whole
mod Tests
use tide_gate.Prelude.{
  ℕ, zero, suc, ◌+◌, Option, none, some, List, [], ◌∷◌, ◌++◌, length, take, drop,
}
use tide_gate.Core.{UnifiedDelta, UnifiedResponse}

abbrev pub content_delta : List ℕ → UnifiedDelta
content_delta chunk = record { content = some chunk; finish_reason = none; usage = none }

-- the slices of the loop, on fuel: as many rounds as there are characters are enough
unfoldable pub chunks : ℕ → ℕ → List ℕ → List (List ℕ)
chunks zero n cs = []
chunks (suc fuel) n [] = []
chunks (suc fuel) n (c ∷ cs) = take n (c ∷ cs) ∷ chunks fuel n (drop n (c ∷ cs))

abbrev pub content_deltas : List (List ℕ) → List UnifiedDelta
content_deltas [] = []
content_deltas (chunk ∷ rest) = content_delta chunk ∷ content_deltas rest

-- `replay_as_stream`
unfoldable pub replay_as_stream : ℕ → UnifiedResponse → List UnifiedDelta
unfolding chunks
replay_as_stream chunk_chars response =
    content_deltas (chunks (length response.content) chunk_chars response.content)
    ++ record { content = none; finish_reason = some response.finish_reason; usage = none }
      ∷ record { content = none; finish_reason = none; usage = some response.usage }
      ∷ []
