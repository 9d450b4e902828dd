-- ===== src/Openai/Tests.antt =====
-- Runs of the code of ft-model/src/openai.rs, those of its tests among them.
use Prim.Native.String.{String}
use free_token_rs.Prelude.{
  ◌≡◌, refl, inl, inr, true, false, none, some, List, [], ◌∷◌, ◌++◌, arith, err, ok,
}
use free_token_rs.Text.{Text, codes, text_eq, starts_with, find, ends_with}
use free_token_rs.Openai.Request.{ContentPart, Content, ChatMessage}
use free_token_rs.Openai.Chat.{
  part_texts, message_text, role_of, show_turn, open_turn, add_system, turn_body, close_text,
  render_loop, render_chat,
}
use free_token_rs.Openai.Chat.Turns.{no_parts, part}
use free_token_rs.Openai.Chat.Supported.{Supported, render_chat_total}
use free_token_rs.Openai.Stop.{new, first_stop, hold_back, hold_prefixes, emit_safe, push, finish}
use free_token_rs.Openai.Stop.Find.{AllNonempty}
use free_token_rs.Openai.Stop.Push.{Pushed, push-Pushed}
use free_token_rs.Openai.Stop.Stream.{feed, Delivered, feed-Delivered}

templates : Unit {0}
unfolding part_texts message_text role_of show_turn open_turn add_system turn_body close_text
    render_loop render_chat text_eq
templates = tt

stop : Unit {0}
unfolding new first_stop hold_back hold_prefixes emit_safe push finish starts_with find ends_with
    text_eq feed
stop = tt

abbrev msg : String → String → ChatMessage
msg role content = record { role = codes role; content = some (Content.text (codes content)) }

abbrev chat_messages : List ChatMessage
chat_messages =
    msg "system" "Be brief." ∷ msg "user" "Hi" ∷ msg "assistant" "Hello" ∷ msg "user" "Sky?" ∷ []

abbrev chat_text : Text
chat_text =
    codes
      "<|turn>user\nBe brief.\n\nHi<turn|>\n<|turn>model\nHello<turn|>\n<|turn>user\nSky?<turn|>\n<|turn>model\n<|channel>thought\n<channel|>"

abbrev part_of : String → String → ContentPart
part_of kind text = record { kind = codes kind; text = some (codes text) }

abbrev parts_message : ChatMessage
parts_message = record {
  role = codes "user";
  content = some (Content.parts (part_of "text" "a" ∷ part_of "text" "b" ∷ []));
}

image_part :
    render_chat (
      record {
        role = codes "user";
        content = some (Content.parts (record { kind = codes "image_url"; text = none } ∷ []));
      }
      ∷ [])
    ≡ err (codes "unsupported content part type 'image_url' (text only)")
unfolding templates
image_part = refl

bad_role : render_chat (msg "robot" "Hi" ∷ []) ≡ err (codes "unsupported message role 'robot'")
unfolding templates
bad_role = refl

parts_message-Supported : Supported parts_message
parts_message-Supported = record {
  role = inr (inr (inl refl));
  body = codes "ab";
  says =
      part (part_of "text" "a") (part_of "text" "b" ∷ []) (codes "a") (codes "b") refl refl
        (part (part_of "text" "b") [] (codes "b") [] refl refl no_parts);
}

render_chat_total_example : (text : Text) × (render_chat (parts_message ∷ []) ≡ ok text)
render_chat_total_example =
    render_chat_total (parts_message ∷ []) (λ e. ground arith) (parts_message-Supported, tt)

abbrev ends : List Text
ends = codes "END" ∷ []

held :
    push (record { stops = ends; buf = [] }) (codes "hello E")
    ≡ (record { stops = ends; buf = codes "E" }, codes "hello ", false)
unfolding stop
held = refl

stop_matcher_across_chunks :
    (feed (new ends) (codes "hello E" ∷ codes "N" ∷ codes "Dtrailing" ∷ [])
      ≡ (codes "hello ", true))
    × (feed (new ends) (codes "xE" ∷ codes "y" ∷ codes "E" ∷ []) ≡ (codes "xEyE", false))
unfolding stop
stop_matcher_across_chunks = (refl, refl)

ends-AllNonempty : AllNonempty ends
ends-AllNonempty = (λ e. ground arith, tt)

push-Pushed_example :
    Pushed ends
      (codes "E" ++ codes "ND")
      (push (record { stops = ends; buf = codes "E" }) (codes "ND"))
push-Pushed_example =
    push-Pushed (record { stops = ends; buf = codes "E" }) (codes "ND") ends-AllNonempty

feed-Delivered_example :
    let texts = codes "hello E" ∷ codes "N" ∷ codes "Dtrailing" ∷ [] in
    Delivered ends [] texts (feed (new ends) texts).0 (feed (new ends) texts).1
feed-Delivered_example =
    feed-Delivered ends (codes "hello E" ∷ codes "N" ∷ codes "Dtrailing" ∷ []) ends-AllNonempty
