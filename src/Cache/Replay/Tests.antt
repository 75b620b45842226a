-- ===== src/Cache/Replay/Tests.antt =====
-- A response of three characters, two to a chunk.
use tide_gate.Prelude.{◌≡◌, refl, none, some, [], ◌∷◌, arith}
use tide_gate.Core.{UnifiedResponse}
use tide_gate.Cache.Replay.{replay_as_stream}
use tide_gate.Cache.Replay.Whole.{text_of, finish_of, usage_of, Sized, replay_as_stream-whole}

abbrev response : UnifiedResponse
response = record {
  content = 97 ∷ 98 ∷ 99 ∷ [];
  finish_reason = "stop";
  usage = record { prompt_tokens = 3; completion_tokens = 2; total_tokens = 5 };
  model = "large";
  mean_logprob = none;
}

replay_as_stream_run :
    replay_as_stream 2 response
    ≡ record { content = some (97 ∷ 98 ∷ []); finish_reason = none; usage = none }
      ∷ record { content = some (99 ∷ []); finish_reason = none; usage = none }
      ∷ record { content = none; finish_reason = some "stop"; usage = none }
      ∷ record { content = none; finish_reason = none; usage = some response.usage }
      ∷ []
unfolding replay_as_stream
replay_as_stream_run = refl

replay_as_stream-whole_example :
    let stream = replay_as_stream 2 response in
    (text_of stream ≡ response.content)
    × (finish_of stream ≡ some response.finish_reason)
    × (usage_of stream ≡ some response.usage)
    × Sized 2 stream
replay_as_stream-whole_example = replay_as_stream-whole 2 response (omega arith)
