-- ===== src/Server/Relay.antt =====
-- `Gen::start` of ft-model/src/bin/serve.rs: the thread that turns the worker's events into the
-- decoded output of a generation. A panic of it drops the channel, like its end.
pub mod Texts
pub mod Delivery
use free_token_rs.Prelude.{
  ℕ, zero, suc, ◌+◌, Bool, true, false, Option, none, some, List, [], ◌∷◌, ◌++◌, if◌then◌else◌,
  length,
}
use free_token_rs.Text.{Text, is_empty}
use free_token_rs.Chars.{chars}
use free_token_rs.Openai.Utf8.{Utf8Stream}
use free_token_rs.Openai.Utf8
use free_token_rs.Openai.Stop.{StopMatcher}
use free_token_rs.Openai.Stop
use free_token_rs.Tokenizer.{Tokenizer}
use free_token_rs.Tokenizer.Decode.{decode_bytes}
use free_token_rs.Worker.{FinishReason, stop, limit, WorkerEvent, token, done}

-- What a handler receives.
pub data Out : Type 0 where
  text : Text → Out
  finished : FinishReason → ℕ → Out
  failed : Out

-- Has the client gone away when so many messages have been sent?
abbrev pub Gone : Type 0
Gone = ℕ → Bool

-- `let _ = otx.send(end)`
unfoldable pub send_end : Gone → ℕ → Out → List Out
send_end gone sent end = if gone sent then [] else end ∷ []

-- `emit`: `none` if the client has gone, else what is sent.
unfoldable pub emit : Gone → ℕ → Text → Option (List Out)
emit gone sent s = if is_empty s then some [] else if gone sent then none else some (text s ∷ [])

-- The end of a generation, at the worker's word.
unfoldable pub end_with : Gone → Utf8Stream → StopMatcher → ℕ → ℕ → FinishReason → List Out
end_with gone utf8 matcher n sent finish =
    let (m, t, hit) = Stop.push matcher (chars (Utf8.finish utf8).1) in
    let whole = if hit then t else t ++ (Stop.finish m).1 in
    let end = finished (if hit then stop else finish) n in
    elim (emit gone sent whole) [
      | none ↦ send_end gone sent end
      | some out ↦ out ++ send_end gone (sent + length out) end
    ]

-- What goes on after a text was pushed: `rest` is the loop, given how many messages were sent.
unfoldable pub after_push : Gone → ℕ → ℕ → StopMatcher × Text × Bool → (ℕ → List Out) → List Out
after_push gone n sent (m, t, hit) rest = elim (emit gone sent t) [
  | none ↦ []
  | some out ↦
      out
      ++ (if hit
          then send_end gone (sent + length out) (finished stop n)
          else rest (sent + length out))
]

-- The loop over the worker's events, `n` tokens and `sent` messages in; at the end of the list the
-- worker has dropped its channel.
unfoldable pub relay :
    Tokenizer → Gone → Utf8Stream → StopMatcher → ℕ → ℕ → List WorkerEvent → List Out
relay t gone utf8 matcher n sent [] = send_end gone sent failed
relay t gone utf8 matcher n sent (token id ∷ events) = elim (decode_bytes t (id ∷ [])) [
  | none ↦ []
  | some bytes ↦ elim (Utf8.push utf8 bytes) [
    | none ↦ []
    | some (u, s) ↦
        let pushed = Stop.push matcher (chars s) in
        after_push gone (n + 1) sent pushed
          (λ sent'. relay t gone u (pushed.0) (n + 1) sent' events)
  ]
]
relay t gone utf8 matcher n sent (done (some finish) ∷ events) =
    end_with gone utf8 matcher n sent finish
relay t gone utf8 matcher n sent (done none ∷ events) = send_end gone sent failed

-- The thread of a generation, from its start.
unfoldable pub relay_all : Tokenizer → Gone → List Text → List WorkerEvent → List Out
relay_all t gone stops events = relay t gone (record { pending = [] }) (Stop.new stops) 0 0 events
