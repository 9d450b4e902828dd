-- ===== src/Server/Endpoint/Delivered.antt =====
-- The answers in one piece, from the request to the text.
use free_token_rs.Prelude.{ℕ, ◌≡◌, true, some, List, length, ok}
use free_token_rs.Text.{Text}
use free_token_rs.Gguf.Utf8.{is_utf8}
use free_token_rs.Openai.Request.{stop_texts, keep_nonempty, ChatRequest}
use free_token_rs.Openai.Chat.{render_chat}
use free_token_rs.Tokenizer.Decode.{decode_bytes}
use free_token_rs.Worker.{FinishReason, GenJob}
use free_token_rs.Worker.Gen.{Gen}
use free_token_rs.Worker.Gen
use free_token_rs.Server.Relay.Texts.{never, token_events}
use free_token_rs.Server.Relay.Delivery.{Output}
use free_token_rs.Server.Response.{new_usage, ErrorBody, bad_request_status}
use free_token_rs.Server.Endpoint.{
  Outside, AppState, message, Answer, Response, refused, answered, prompt_of,
}

-- The response to a chat request whose generation has the text `total`: the request is a bad one,
-- or the answer has the output of the generation, and counts the tokens of the rendered
-- conversation and those of the output.
pub data Delivers (st : AppState) (req : ChatRequest) (total : Text) (f : FinishReason) (count : ℕ)
    (r : Response) : Type 0 where
  declined :
      (body : ErrorBody) → r ≡ refused (bad_request_status, body) → Delivers st req total f count r
  served :
      (a : Answer) (t rendered : Text) (n : ℕ)
      → r ≡ answered a
      → a.content ≡ message t
      → render_chat req.messages ≡ ok rendered
      → a.usage ≡ new_usage (length (prompt_of st rendered)) n
      → Output (keep_nonempty (stop_texts req.stop)) total f count t a.finish_reason n
      → Delivers st req total f count r

-- The client stays, and the worker sends these tokens and then this end for any job.
pub record Sends (o : Outside) (st : AppState) (ids total : List ℕ) (f : FinishReason)
    : Type 0 where
  pub stays : o.gone ≡ never
  pub sends : (j : GenJob) → o.submit j ≡ some (token_events ids f)
  pub decoded : decode_bytes st.tok ids ≡ some total
  pub well_formed : is_utf8 total ≡ true
