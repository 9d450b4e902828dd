-- ===== src/Server/Sse.antt =====
-- `sse` of ft-model/src/bin/serve.rs: a generation as a stream of server-sent events.
pub mod Whole
pub mod Agreement
use free_token_rs.Prelude.{
  ℕ, zero, suc, Bool, true, false, Option, none, some, List, [], ◌∷◌, ◌++◌, ◌+◌, if◌then◌else◌,
  length,
}
use free_token_rs.Text.{Text, codes}
use free_token_rs.Worker.{FinishReason}
use free_token_rs.Worker.Gen.{unwrap_or}
use free_token_rs.Server.Relay.{Out, text, finished, failed}
use free_token_rs.Server.Response.{Usage, new_usage, ErrorBody, error_body}

pub data Kind : Type 0 where
  chat_kind : Kind
  completion_kind : Kind

-- The arguments of `sse`, and the time that it reads.
pub record Reply : Type 0 where
  pub kind : Kind
  pub id : Text
  pub model : Text
  pub prompt_tokens : ℕ
  pub include_usage : Bool
  pub prefix : Option Text
  pub created : ℕ

-- An element of `choices`: a message's delta, which has a role or not, or a text.
pub data Choice : Type 0 where
  delta : Bool → Option Text → Option FinishReason → Choice
  whole_text : Text → Option FinishReason → Choice

-- The field `usage` of a chunk.
pub data UsageField : Type 0 where
  absent : UsageField
  null : UsageField
  used : Usage → UsageField

pub record Chunk : Type 0 where
  pub id : Text
  pub object : Text
  pub created : ℕ
  pub model : Text
  pub choices : List Choice
  pub usage : UsageField

pub data Event : Type 0 where
  chunk_event : Chunk → Event
  error_event : ErrorBody → Event
  -- The last event of every stream.
  done_event : Event

unfoldable pub choice : Kind → Option Text → Bool → Option FinishReason → Choice
choice chat_kind t role finish = delta role t finish
choice completion_kind t role finish = whole_text (unwrap_or t []) finish

unfoldable pub object_name : Kind → Text
object_name chat_kind = codes "chat.completion.chunk"
object_name completion_kind = codes "text_completion"

-- The closure `chunk`.
unfoldable pub chunk : Reply → Option Text → Bool → Option FinishReason → Chunk
chunk r t role finish = record {
  id = r.id;
  object = object_name r.kind;
  created = r.created;
  model = r.model;
  choices = choice r.kind t role finish ∷ [];
  usage = if r.include_usage then null else absent;
}

-- The closure `usage_chunk`.
unfoldable pub usage_chunk : Reply → ℕ → Chunk
usage_chunk r completion_tokens = record (chunk r none false none) {
  choices = [];
  usage = used (new_usage r.prompt_tokens completion_tokens);
}

pub data Phase : Type 0 where
  opening_phase : Phase
  body_phase : Phase
  end_phase : Phase

-- What is queued in the first phase.
unfoldable pub opening : Reply → Kind → Option Text → List Event
opening r chat_kind prefix = chunk_event (chunk r (some []) true none) ∷ []
opening r completion_kind none = []
opening r completion_kind (some p) = chunk_event (chunk r (some p) false none) ∷ []

-- The text of the last choice.
unfoldable pub last_text : Kind → Option Text
last_text chat_kind = none
last_text completion_kind = some []

-- What is queued at the end of a generation.
unfoldable pub closing : Reply → FinishReason → ℕ → List Event
closing r finish completion_tokens =
    chunk_event (chunk r (last_text r.kind) false (some finish))
      ∷ (if r.include_usage then chunk_event (usage_chunk r completion_tokens) ∷ [] else [])
    ++ done_event ∷ []

-- What is queued when it failed.
unfoldable pub failure : List Event
failure =
    error_event (error_body (codes "generation failed") (codes "server_error") none none)
    ∷ done_event
    ∷ []

-- The state of the stream: the messages to come, the phase and the queue.
abbrev pub Sse : Type 0
Sse = List Out × Phase × List Event

-- The loop that finds the next event, on fuel: `some none` is the end of the stream.
unfoldable pub poll : ℕ → Reply → Sse → Option (Option (Event × Sse))
poll zero r s = none
poll (suc fuel) r (rx, phase, ev ∷ queue) = some (some (ev, (rx, phase, queue)))
poll (suc fuel) r (rx, end_phase, []) = some none
poll (suc fuel) r (rx, opening_phase, []) = poll fuel r (rx, body_phase, opening r r.kind r.prefix)
poll (suc fuel) r (text t ∷ rx, body_phase, []) =
    poll fuel r (rx, body_phase, chunk_event (chunk r (some t) false none) ∷ [])
poll (suc fuel) r (finished finish n ∷ rx, body_phase, []) =
    poll fuel r (rx, end_phase, closing r finish n)
poll (suc fuel) r (failed ∷ rx, body_phase, []) = poll fuel r (rx, end_phase, failure)
poll (suc fuel) r ([], body_phase, []) = poll fuel r ([], end_phase, failure)

-- `futures::stream::unfold`, to its end. A poll goes round the loop three times at most.
unfoldable pub events_of : ℕ → Reply → Sse → Option (List Event)
events_of zero r s = none
events_of (suc fuel) r s = elim (poll 3 r s) [
  | none ↦ none
  | some none ↦ some []
  | some (some (ev, s')) ↦ elim (events_of fuel r s') [
    | none ↦ none
    | some events ↦ some (ev ∷ events)
  ]
]

-- The events for these messages. There are at most four more of them than there are messages.
unfoldable pub sse : Reply → List Out → Option (List Event)
sse r outs = events_of (length outs + 5) r (outs, opening_phase, [])
