-- ===== src/Api/Sse/Tests.antt =====
-- A delta of two characters, and the answer from the cache.
use tide_gate.Prelude.{◌≡◌, refl, false, none, some, [], ◌∷◌}
use tide_gate.Core.{UnifiedDelta}
use tide_gate.Api.Sse.{stream_chunk_payload, finish_chunk}

abbrev last_words : UnifiedDelta
last_words = record { content = some (104 ∷ 105 ∷ []); finish_reason = some "stop"; usage = none }

-- the content of the delta that ends the stream is not sent
last_words_run : stream_chunk_payload false last_words ≡ some (finish_chunk "stop")
unfolding stream_chunk_payload
last_words_run = refl
