-- ===== src/Server/Endpoint.antt =====
-- The handlers of ft-model/src/bin/serve.rs for the two endpoints that generate.
pub mod Streamed
pub mod Delivered
use free_token_rs.Prelude.{
  ℕ, suc, Bool, true, false, not, Option, none, some, List, [], ◌∷◌, ◌++◌, ◌==◌, if◌then◌else◌,
  length, Result, err, ok,
}
use free_token_rs.Text.{Text, codes}
use free_token_rs.Openai.Request.{
  into_vec, check_common, StreamOptions, ChatRequest, CompletionRequest,
}
use free_token_rs.Openai.Chat.{render_chat}
use free_token_rs.Tokenizer.{Tokenizer}
use free_token_rs.Tokenizer.Specials.{encode_with_specials}
use free_token_rs.Worker.{FinishReason, WorkerEvent, GenJob}
use free_token_rs.Worker.Gen.{
  Gen, Rejection, context_length_exceeded, bad_temperature, unwrap_or, job_of,
}
use free_token_rs.Worker.Gen
use free_token_rs.Server.Relay.{Out, Gone, relay_all}
use free_token_rs.Server.Response.{
  Usage, new_usage, Refusal, bad_request_status, internal_server_error, api_error, bad_request,
  collect,
}
use free_token_rs.Server.Sse.{Kind, chat_kind, completion_kind, Reply, Event, sse}
use free_token_rs.Server.Numerals.{decimal, new_id}

-- The queue of jobs is in `Outside`.
pub record AppState : Type 0 where
  pub tok : Tokenizer
  pub model_name : Text
  pub max_seq : ℕ
  pub api_key : Option Text
  pub created : ℕ

-- What a handler meets: which temperatures are in `0.0..=2.0`, the events that the worker sends for
-- a job, none if the worker is gone, the channel of the job, the moments at which the client has
-- gone away, and the readings of the clock.
pub record Outside : Type 0 where
  pub in_range : ℕ → Bool
  pub submit : GenJob → Option (List WorkerEvent)
  pub tx : ℕ
  pub gone : Gone
  pub clock : ℕ → ℕ

unfoldable pub refusal_of : Rejection → Refusal
refusal_of (context_length_exceeded max_seq prompt) =
    api_error bad_request_status
      (codes "This model's maximum context length is "
        ++ decimal max_seq
        ++ codes " tokens. However, your prompt is "
        ++ decimal prompt
        ++ codes " tokens.")
      (some (codes "messages")) (some (codes "context_length_exceeded"))
refusal_of bad_temperature =
    bad_request (codes "temperature must be between 0 and 2") (some (codes "temperature"))

-- `Gen::start`
unfoldable pub start : Outside → AppState → Gen → Result Refusal (List Out)
start o st g = elim (o.submit (job_of g o.tx)) [
  | none ↦ err (api_error internal_server_error (codes "inference worker is gone") none none)
  | some events ↦ ok (relay_all st.tok o.gone g.stops events)
]

-- `Gen::new` and `Gen::start`, as both handlers call them.
unfoldable pub generate :
    Outside → AppState → List ℕ → Option ℕ → ℕ → Option ℕ → List Text → Result Refusal (List Out)
generate o st prompt_ids max_tokens default_max temperature stops =
    elim (Gen.new o.in_range st.max_seq prompt_ids max_tokens default_max temperature stops) [
      | err r ↦ err (refusal_of r)
      | ok g ↦ start o st g
    ]

-- `vec![st.tok.bos]` and the tokens of the text
unfoldable pub prompt_of : AppState → Text → List ℕ
prompt_of st text = st.tok.bos ∷ encode_with_specials st.tok text

-- `Option::or`
abbrev pub or_else {ℓ} : {A : Type ℓ} → Option A → Option A → Option A
or_else none b = b
or_else (some a) b = some a

-- `usize::MAX`
abbrev pub usize_max : ℕ
usize_max = 18446744073709551615

-- The element of `choices` of an answer: a message of the assistant or a text.
pub data Content : Type 0 where
  message : Text → Content
  plain : Text → Content

pub record Answer : Type 0 where
  pub id : Text
  pub object : Text
  pub created : ℕ
  pub model : Text
  pub content : Content
  pub finish_reason : FinishReason
  pub usage : Usage

-- A response: an error, an answer in one piece, or a stream of events.
pub data Response : Type 0 where
  refused : Refusal → Response
  answered : Answer → Response
  streamed : Option (List Event) → Response

unfoldable pub include_usage : Option StreamOptions → Bool
include_usage none = false
include_usage (some o) = o.include_usage

-- The end of a handler whose request does not ask for a stream.
unfoldable pub collected : List Out → (Text → FinishReason → ℕ → Answer) → Response
collected outs answer = elim (collect outs) [
  | err r ↦ refused r
  | ok (text, finish, completion_tokens) ↦ answered (answer text finish completion_tokens)
]

-- `chat` until the generation is started: the prompt and the messages.
unfoldable pub chat_start : Outside → AppState → ChatRequest → Result Refusal (List ℕ × List Out)
chat_start o st req = elim (check_common req.n req.stop) [
  | err (msg, param) ↦ err (bad_request msg (some param))
  | ok stops ↦ elim (render_chat req.messages) [
    | err msg ↦ err (bad_request msg (some (codes "messages")))
    | ok text ↦
        let prompt_ids = prompt_of st text in
        elim (generate o st prompt_ids (or_else req.max_completion_tokens req.max_tokens) usize_max
          req.temperature stops) [ err r ↦ err r | ok outs ↦ ok (prompt_ids, outs) ]
  ]
]

unfoldable pub chat_reply : Outside → AppState → ChatRequest → Text → ℕ → Reply
chat_reply o st req id prompt_tokens = record {
  kind = chat_kind;
  id = id;
  model = st.model_name;
  prompt_tokens = prompt_tokens;
  include_usage = include_usage req.stream_options;
  prefix = none;
  created = o.clock 1;
}

unfoldable pub chat_answer : Outside → AppState → Text → ℕ → Text → FinishReason → ℕ → Answer
chat_answer o st id prompt_tokens text finish completion_tokens = record {
  id = id;
  object = codes "chat.completion";
  created = o.clock 1;
  model = st.model_name;
  content = message text;
  finish_reason = finish;
  usage = new_usage prompt_tokens completion_tokens;
}

-- The handler, given `SEQ`: its response and what `SEQ` is then. The payload is what the extractor
-- of JSON returns, or the text of its error.
unfoldable pub chat : Outside → AppState → ℕ → Result Text ChatRequest → Response × ℕ
chat o st seq (err e) = (refused (bad_request e none), seq)
chat o st seq (ok req) = elim (chat_start o st req) [
  | err r ↦ (refused r, seq)
  | ok (prompt_ids, outs) ↦
      let (id, seq') = new_id (codes "chatcmpl") (o.clock 0) seq in
      let prompt_tokens = length prompt_ids in
      (
        if req.stream
            then streamed (sse (chat_reply o st req id prompt_tokens) outs)
            else collected outs (chat_answer o st id prompt_tokens),
        seq',
      )
]

-- `completions` until the generation is started: the prompt's text, the prompt and the messages.
unfoldable pub completion_start :
    Outside → AppState → CompletionRequest → Result Refusal (Text × List ℕ × List Out)
completion_start o st req = elim (check_common req.n req.stop) [
  | err (msg, param) ↦ err (bad_request msg (some param))
  | ok stops ↦ elim (into_vec req.prompt) [
    | prompt ∷ [] ↦
        let prompt_ids = prompt_of st prompt in
        elim (generate o st prompt_ids req.max_tokens 16 req.temperature stops) [
          | err r ↦ err r
          | ok outs ↦ ok (prompt, prompt_ids, outs)
        ]
    | other ↦
        err (bad_request (codes "exactly one prompt string is supported") (some (codes "prompt")))
  ]
]

unfoldable pub completion_reply :
    Outside → AppState → CompletionRequest → Text → Option Text → ℕ → Reply
completion_reply o st req id prefix prompt_tokens = record {
  kind = completion_kind;
  id = id;
  model = st.model_name;
  prompt_tokens = prompt_tokens;
  include_usage = include_usage req.stream_options;
  prefix = prefix;
  created = o.clock 1;
}

unfoldable pub completion_answer :
    Outside → AppState → Text → Option Text → ℕ → Text → FinishReason → ℕ → Answer
completion_answer o st id prefix prompt_tokens text finish completion_tokens = record {
  id = id;
  object = codes "text_completion";
  created = o.clock 1;
  model = st.model_name;
  content = plain (unwrap_or prefix [] ++ text);
  finish_reason = finish;
  usage = new_usage prompt_tokens completion_tokens;
}

unfoldable pub completions : Outside → AppState → ℕ → Result Text CompletionRequest → Response × ℕ
completions o st seq (err e) = (refused (bad_request e none), seq)
completions o st seq (ok req) = elim (completion_start o st req) [
  | err r ↦ (refused r, seq)
  | ok (prompt, prompt_ids, outs) ↦
      let (id, seq') = new_id (codes "cmpl") (o.clock 0) seq in
      let prompt_tokens = length prompt_ids in
      let prefix = if req.echo then some prompt else none in
      (
        if req.stream
            then streamed (sse (completion_reply o st req id prefix prompt_tokens) outs)
            else collected outs (completion_answer o st id prefix prompt_tokens),
        seq',
      )
]
