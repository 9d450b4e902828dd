-- ===== src/Server/Tests.antt =====
-- Runs of the server on a small vocabulary.
use free_token_rs.Prelude.{
  ℕ, ◌+◌, ◌≡◌, ◌≢◌, refl, inl, inr, true, false, Option, none, some, List, [], ◌∷◌, ◌++◌, arith,
  ◌==◌, leb, Bool-cases, ok, All, if◌then◌else◌,
}
use free_token_rs.Text.{
  Text, codes, text_eq, text_eq_refl, eq_of_text_eq, starts_with, find, ends_with,
}
use free_token_rs.Chars.{char_bytes, bytes, more_of, bits_of, chars_from, chars}
use free_token_rs.Gguf.Utf8.{lead, next_state, is_utf8}
use free_token_rs.Openai.Request.{one, Content, ChatRequest, CompletionRequest}
use free_token_rs.Openai.Utf8.{check_from, lossy, unwrap_utf8, split_valid, emit}
use free_token_rs.Openai.Utf8
use free_token_rs.Openai.Stop.{first_stop, hold_back, hold_prefixes, emit_safe}
use free_token_rs.Openai.Stop
use free_token_rs.Openai.Stop.Find.{AllNonempty}
use free_token_rs.Tokenizer.{Tokenizer}
use free_token_rs.Tokenizer.Decode.{
  hex_value, parse_hex, byte_of_piece, unmark_space, piece_bytes, decode_bytes,
}
use free_token_rs.Worker.{stop, limit}
use free_token_rs.Server.Relay.{
  Out, text, finished, send_end, end_with, after_push, relay, relay_all,
}
use free_token_rs.Server.Relay
use free_token_rs.Server.Relay.Texts.{never, token_events}
use free_token_rs.Server.Relay.Delivery.{Relayed, relay_all-Relayed}
use free_token_rs.Server.Response.{
  new_usage, error_body, kind_of, api_error, bad_request, collect_from, collect,
}
use free_token_rs.Server.Sse.{
  completion_kind, Reply, Event, done_event, choice, object_name, chunk, usage_chunk, opening,
  last_text, closing, failure, poll, events_of, sse,
}
use free_token_rs.Server.Sse.Whole.{sse-Ended}
use free_token_rs.Server.Sse.Agreement.{reading, sse-Agrees}
use free_token_rs.Server.Numerals.{digit, digits, decimal, hex, hex_6, new_id}
use free_token_rs.Server.Endpoint.{Outside, AppState, include_usage, chat}
use free_token_rs.Server.Endpoint.Streamed.{Streams, chat-Streams}
use free_token_rs.Server.Gate.{
  Headers, Request, Response, nothing, is_text, bearer, authorized, error_response, with_cors, gate,
}
use free_token_rs.Server.Gate.Guard.{Guards, Allows, gate-Guards}

abbrev small : Tokenizer
small = record {
  vocab = codes "he" ∷ codes "llo" ∷ codes "END" ∷ codes "x" ∷ codes "<0xC3>" ∷ codes "<0xA9>" ∷ [];
  id_of = [];
  merge_rank = [];
  bos = 0;
  eos = 1;
  eot = none;
}

program : Unit {0}
unfolding decode_bytes piece_bytes byte_of_piece unmark_space parse_hex hex_value starts_with
    ends_with find text_eq bytes char_bytes more_of bits_of chars_from chars lead next_state is_utf8
    check_from lossy unwrap_utf8 split_valid emit Utf8.push Utf8.finish Stop.new first_stop
    hold_back hold_prefixes emit_safe Stop.push Stop.finish send_end Relay.emit end_with after_push
    relay relay_all
program = tt

abbrev ids : List ℕ
ids = 0 ∷ 4 ∷ 5 ∷ 1 ∷ 2 ∷ 3 ∷ []

abbrev total : List ℕ
total = codes "he" ++ 0xC3 ∷ 0xA9 ∷ codes "lloENDx"

abbrev stops : List Text
stops = codes "END" ∷ []

decoded : decode_bytes small ids ≡ some total
unfolding program
decoded = refl

well_formed : is_utf8 total ≡ true
unfolding program
well_formed = refl

-- A character in two tokens, and a stop sequence.
cut_off :
    relay_all small never stops (token_events ids limit)
    ≡ text (codes "he") ∷ text (0xE9 ∷ []) ∷ text (codes "llo") ∷ finished stop 5 ∷ []
unfolding program
cut_off = refl

stops-AllNonempty : AllNonempty stops
stops-AllNonempty = ((λ e. ground (arith, e)), tt)

relay_all-Relayed_example :
    Relayed stops (chars total) limit 6 (relay_all small never stops (token_events ids limit))
relay_all-Relayed_example =
    relay_all-Relayed small stops ids total limit stops-AllNonempty decoded well_formed

-- The client goes away after a message.
gone_away : relay_all small (leb 1) stops (token_events ids limit) ≡ text (codes "he") ∷ []
unfolding program
gone_away = refl

replies : Unit {0}
unfolding new_usage error_body kind_of api_error bad_request collect_from collect choice object_name
    chunk usage_chunk opening last_text closing failure poll events_of sse
replies = tt

abbrev reply : Reply
reply = record {
  kind = completion_kind;
  id = codes "cmpl-1";
  model = codes "m";
  prompt_tokens = 3;
  include_usage = true;
  prefix = some (codes "say: ");
  created = 9;
}

abbrev outs : List Out
outs = text (codes "a") ∷ text (codes "b") ∷ finished limit 2 ∷ []

sse-Ended_example :
    (events : List Event) × (sse reply outs ≡ some (events ++ done_event ∷ []))
    × All (λ ev. ev ≢ done_event) events
sse-Ended_example = sse-Ended reply outs

read_back :
    (events : List Event) × (sse reply outs ≡ some events)
    × (((reading events).content ≡ codes "say: ab")
        × ((reading events).finishes ≡ limit ∷ [])
        × ((reading events).usages
            ≡ record { prompt_tokens = 3; completion_tokens = 2; total_tokens = 5 } ∷ [])
        × ((reading events).errors ≡ []))
unfolding replies
read_back = sse-Agrees reply outs

numbers : Unit {0}
unfolding digit digits decimal hex hex_6 new_id
numbers = tt

-- The time 0x65 and the first identifier.
first_id : new_id (codes "cmpl") 0x65A 0 ≡ (codes "cmpl-65a000000", 1)
unfolding numbers
first_id = refl

too_long : decimal 131072 ≡ codes "131072"
unfolding numbers
too_long = refl

-- The handlers.
abbrev outside : Outside
outside = record {
  in_range = λ t. t == 0;
  submit = λ j. some (token_events ids limit);
  tx = 0;
  gone = never;
  clock = λ n. 0x65A + n;
}

abbrev state : AppState
state = record {
  tok = small;
  model_name = codes "m";
  max_seq = 100;
  api_key = some (codes "k");
  created = 0x65A;
}

abbrev chat_request : ChatRequest
chat_request = record {
  model = none;
  messages = record { role = codes "user"; content = some (Content.text (codes "hi")) } ∷ [];
  stream = false;
  stream_options = some (record { include_usage = true });
  max_tokens = some 6;
  max_completion_tokens = none;
  temperature = none;
  n = none;
  stop = some (one (codes "END"));
}

abbrev completion_request : CompletionRequest
completion_request = record {
  model = none;
  prompt = one (codes "hex");
  stream = true;
  stream_options = none;
  max_tokens = none;
  temperature = none;
  n = some 1;
  stop = none;
  echo = true;
}

chat-Streams_example :
    Streams true
      (chat outside state 7 (ok (record chat_request { stream = true })))
      (chat outside state 7 (ok chat_request))
unfolding include_usage
chat-Streams_example = chat-Streams outside state 7 chat_request

abbrev Map : Type 0
Map = Text → Option (List ℕ)

abbrev put : Map → Text → List ℕ → Map
put h name v other = if text_eq other name then some v else h other

put_other : (h : Map) (name other : Text) (v : List ℕ) → name ≢ other → put h other v name ≡ h name
put_other h name other v differ = elim (Bool-cases (text_eq name other)) [
  | inl same ↦ absurd (differ (eq_of_text_eq name other same))
  | inr miss ↦ rw miss refl
]

-- Header maps as functions.
abbrev headers : Headers Map
headers = record {
  get = λ h name. h name;
  insert = put;
  empty = λ name. none;
  json = λ name. none;
  get_same = λ h name v. rw (text_eq_refl name) refl;
  get_other = put_other;
}

abbrev with_key : Request Map
with_key = record {
  is_options = false;
  path = codes "/v1/models";
  headers = put (λ name. none) (codes "authorization") (codes "Bearer k");
}

abbrev served : Request Map → Response Map ℕ
served req = record { status = 200; headers = λ name. none; body = nothing }

-- Without the key it is refused.
keyless : (gate headers some state (record with_key { headers = λ name. none }) served).status ≡ 401
unfolding gate authorized bearer is_text with_cors error_response text_eq starts_with api_error
keyless = refl

gate-Guards_example :
    Guards headers some state with_key served (gate headers some state with_key served)
    × Allows headers (gate headers some state with_key served)
gate-Guards_example = gate-Guards headers some state with_key served
