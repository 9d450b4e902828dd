-- ===== src/Server/Endpoint/Streamed.antt =====
-- A request that asks for a stream is answered as the same request that does not.
use free_token_rs.Prelude.{
  ℕ, ◌≡◌, refl, sym, ap, ◌∙◌, Bool, true, false, some, List, [], ◌∷◌, ◌++◌, if◌then◌else◌, length,
  Result, err, ok,
}
use free_token_rs.Text.{Text, codes}
use free_token_rs.Openai.Request.{ChatRequest}
use free_token_rs.Worker.{FinishReason}
use free_token_rs.Server.Relay.{Out}
use free_token_rs.Server.Response.{new_usage, Refusal, collect}
use free_token_rs.Server.Sse.{Reply, Event, sse}
use free_token_rs.Server.Sse.Agreement.{Reading, reading, echoed, Agrees, sse-Agrees}
use free_token_rs.Server.Endpoint.{
  Outside, AppState, Content, message, plain, Answer, Response, refused, answered, streamed,
  include_usage, collected, chat_start, chat_reply, chat_answer, chat,
}
use free_token_rs.Server.Numerals.{new_id}

abbrev pub content_text : Content → Text
content_text (message t) = t
content_text (plain t) = t

-- What is read from a stream is what the response in one piece says.
abbrev pub Says : Bool → Reading → Response → Type 0
Says usage read (refused (status, body)) =
    (read.finishes ≡ []) × (read.usages ≡ []) × (read.errors ≡ body ∷ [])
Says usage read (answered a) =
    (read.content ≡ content_text a.content)
    × (read.finishes ≡ a.finish_reason ∷ [])
    × (read.usages ≡ (if usage then a.usage ∷ [] else []))
    × (read.errors ≡ [])
Says usage read (streamed events) = ⊥

-- Two responses, and what `SEQ` is after each: both are the same refusal, or the one is a stream
-- that says what the other says.
pub data Streams (usage : Bool) (one whole : Response × ℕ) : Type 0 where
  same_refusal : (r : Refusal) → one.0 ≡ refused r → one ≡ whole → Streams usage one whole
  same_answer :
      (events : List Event)
      → one.0 ≡ streamed (some events)
      → one.1 ≡ whole.1
      → Says usage (reading events) whole.0
      → Streams usage one whole

Says-collected :
    (r : Reply) (outs : List Out) (answer : Text → FinishReason → ℕ → Answer) (read : Reading)
    → ((t : Text) (finish : FinishReason) (n : ℕ)
        → (echoed r.kind r.prefix ++ t ≡ content_text (answer t finish n).content)
          × ((answer t finish n).finish_reason ≡ finish)
          × ((answer t finish n).usage ≡ new_usage r.prompt_tokens n))
    → Agrees r (echoed r.kind r.prefix) (collect outs) read
    → Says r.include_usage read (collected outs answer)
unfolding collected
Says-collected r outs answer read fits h = from (collect outs) h
  where
    from :
        (result : Result Refusal (Text × FinishReason × ℕ))
        → Agrees r (echoed r.kind r.prefix) result read
        → Says r.include_usage read
            (elim result [ err e ↦ refused e | ok (t, finish, n) ↦ answered (answer t finish n) ])
    from (err (status, body)) h = h
    from (ok (t, finish, n)) (content, finishes, usages, errors) =
        let (same, end, tokens) = fits t finish n in
        (content ∙ same, finishes ∙ ap (λ f. f ∷ []) (sym end), rw tokens usages, errors)

-- A stream of the messages and the same messages collected.
Streams-collected :
    (r : Reply) (outs : List Out) (answer : Text → FinishReason → ℕ → Answer) (seq : ℕ)
    → ((t : Text) (finish : FinishReason) (n : ℕ)
        → (echoed r.kind r.prefix ++ t ≡ content_text (answer t finish n).content)
          × ((answer t finish n).finish_reason ≡ finish)
          × ((answer t finish n).usage ≡ new_usage r.prompt_tokens n))
    → Streams r.include_usage (streamed (sse r outs), seq) (collected outs answer, seq)
Streams-collected r outs answer seq fits =
    let (events, same, agree) = sse-Agrees r outs in
    same_answer events (ap streamed same) refl
      (Says-collected r outs answer (reading events) fits agree)

-- A chat request is refused alike whether it asks for a stream or not, or else the event stream
-- ends and says what the answer in one piece says: its text, its reason of the end, its usage if the
-- request asks for that, or the error that the answer is.
pub chat-Streams :
    (o : Outside) (st : AppState) (seq : ℕ) (req : ChatRequest)
    → Streams
        (include_usage req.stream_options)
        (chat o st seq (ok (record req { stream = true })))
        (chat o st seq (ok (record req { stream = false })))
unfolding chat chat_start chat_reply chat_answer
chat-Streams o st seq req = from (chat_start o st req)
  where
    id : Text × ℕ
    id = new_id (codes "chatcmpl") (o.clock 0) seq

    from :
        (start : Result Refusal (List ℕ × List Out))
        → Streams
            (include_usage req.stream_options)
            (elim start [
              | err r ↦ (refused r, seq)
              | ok (ids, outs) ↦ (streamed (sse (chat_reply o st req id.0 (length ids)) outs), id.1)
            ])
            (elim start [
              | err r ↦ (refused r, seq)
              | ok (ids, outs) ↦ (collected outs (chat_answer o st id.0 (length ids)), id.1)
            ])
    from (err r) = same_refusal r refl refl
    from (ok (ids, outs)) =
        Streams-collected (chat_reply o st req id.0 (length ids)) outs
          (chat_answer o st id.0 (length ids)) id.1 (λ t finish n. (refl, refl, refl))
