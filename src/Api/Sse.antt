-- ===== src/Api/Sse.antt =====
-- api/sse.py, and of api/routes.py `_render_stream_delta` and `_stream_cached_response`: the events of a
-- stream. An event stands for its payload; the request's id, the model and the time of creation, which
-- every payload carries, are left out, as is the JSON.
mod Tests
use tide_gate.Prelude.{
  ℕ, ◌+◌, Bool, true, false, not, Option, none, some, List, [], ◌∷◌, ◌++◌, if◌then◌else◌, length,
  get_or, String,
}
use tide_gate.Core.{Usage, UnifiedDelta, UnifiedResponse}
use tide_gate.Cache.Replay.{replay_as_stream}
use tide_gate.Cache.Gates.{is_empty}

pub data Event : Type 0 where
  usage_chunk : Usage → Event
  finish_chunk : String → Event
  content_chunk : List ℕ → Event
  error_finish : Event
  done : Event
  ping : Event

-- `chunk.startswith(b"data:")`: all but the comments
unfoldable pub is_data : Event → Bool
is_data (usage_chunk u) = true
is_data (finish_chunk f) = true
is_data (content_chunk c) = true
is_data error_finish = true
is_data done = true
is_data ping = false

-- what a delta without usage becomes
abbrev pub text_payload : Option String → Option (List ℕ) → Event
text_payload (some reason) content = finish_chunk reason
text_payload none content = content_chunk (get_or content [])

-- `stream_chunk_payload`
unfoldable pub stream_chunk_payload : Bool → UnifiedDelta → Option Event
stream_chunk_payload include_usage delta = elim delta.usage [
  | some usage ↦ if not include_usage then none else some (usage_chunk usage)
  | none ↦ some (text_payload delta.finish_reason delta.content)
]

-- `if payload is not None: yield sse_event(payload)`
abbrev pub events_of : Option Event → List Event
events_of none = []
events_of (some e) = e ∷ []

-- `error_chunk`
abbrev pub error_events : List Event
error_events = error_finish ∷ done ∷ []

-- the payloads of the deltas, in order
unfoldable pub payloads : Bool → List UnifiedDelta → List Event
unfolding stream_chunk_payload
payloads include_usage [] = []
payloads include_usage (d ∷ ds) =
    events_of (stream_chunk_payload include_usage d) ++ payloads include_usage ds

-- `_stream_cached_response`
unfoldable pub stream_cached_response : Bool → ℕ → UnifiedResponse → List Event
unfolding payloads
stream_cached_response include_usage chunk_chars response =
    payloads include_usage (replay_as_stream chunk_chars response) ++ done ∷ []

-- `StreamAccounting`, without the time of its start
pub record StreamAccounting : Type 0 where
  pub content_chars : ℕ
  pub delta_count : ℕ
  pub ttft_ms : Option ℕ
  pub usage : Option Usage

abbrev pub no_accounting : StreamAccounting
no_accounting = record { content_chars = 0; delta_count = 0; ttft_ms = none; usage = none }

-- `_StreamAttemptState`; the contents are joined at once
pub record StreamAttemptState : Type 0 where
  pub cacheable_content : List ℕ
  pub finish_reason : Option String

-- the content of a delta, empty where Python's truth value of it is false
abbrev pub content_of : UnifiedDelta → List ℕ
content_of d = get_or d.content []

-- `_accumulate`
unfoldable pub accumulate : StreamAccounting → UnifiedDelta → StreamAccounting
accumulate acc d = record acc {
  content_chars = acc.content_chars + length (content_of d);
  delta_count = if is_empty (content_of d) then acc.delta_count else acc.delta_count + 1;
  usage = elim d.usage [ none ↦ acc.usage | some u ↦ some u ];
}

-- the time to the first content, `elapsed` after the attempt has started
unfoldable pub note_ttft : ℕ → UnifiedDelta → StreamAccounting → StreamAccounting
note_ttft elapsed d acc = record acc {
  ttft_ms = elim acc.ttft_ms [
    | some t ↦ some t
    | none ↦ if is_empty (content_of d) then none else some elapsed
  ];
}

unfoldable pub note_delta : UnifiedDelta → StreamAttemptState → StreamAttemptState
note_delta d s = record {
  cacheable_content = s.cacheable_content ++ content_of d;
  finish_reason = elim d.finish_reason [ none ↦ s.finish_reason | some reason ↦ some reason ];
}

-- What `with_heartbeats` yields: a delta, some time after the attempt has started, or an idle interval.
pub data Item : Type 0 where
  delta : UnifiedDelta → ℕ → Item
  idle : Item

pub record Rendered : Type 0 where
  pub accounting : StreamAccounting
  pub state : StreamAttemptState
  pub events : List Event

-- `_render_stream_delta`, for a client that is still there
unfoldable pub render_item : Bool → Item → Rendered → Rendered
unfolding accumulate note_ttft note_delta stream_chunk_payload
render_item include_usage idle r = record r { events = r.events ++ ping ∷ [] }
render_item include_usage (delta d elapsed) r = record {
  accounting = accumulate (note_ttft elapsed d r.accounting) d;
  state = note_delta d r.state;
  events = r.events ++ events_of (stream_chunk_payload include_usage d);
}

-- the loop of `_render_stream` over what the upstream sends before it ends
unfoldable pub render_items : Bool → List Item → Rendered → Rendered
unfolding render_item
render_items include_usage [] r = r
render_items include_usage (x ∷ xs) r =
    render_items include_usage xs (render_item include_usage x r)
