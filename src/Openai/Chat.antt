-- ===== src/Openai/Chat.antt =====
-- `message_text` and `render_chat` of ft-model/src/openai.rs: the Gemma-4 chat template.
pub mod Turns
pub mod Supported
use free_token_rs.Prelude.{
  ℕ, Bool, not, ◌&&◌, ◌||◌, Option, none, some, List, [], ◌∷◌, ◌++◌, if◌then◌else◌, Result, err, ok,
}
use free_token_rs.Text.{Text, codes, is_empty, text_eq}
use free_token_rs.Openai.Request.{ContentPart, Content, ChatMessage}

-- The loop over the parts of a message, with the text so far.
unfoldable pub part_texts : List ContentPart → Text → Result Text Text
part_texts [] out = ok out
part_texts (p ∷ parts) out =
    let unsupported =
      err (codes "unsupported content part type '" ++ p.kind ++ codes "' (text only)") in
    elim p.text [
      | some t ↦ if text_eq p.kind (codes "text") then part_texts parts (out ++ t) else unsupported
      | none ↦ unsupported
    ]

unfoldable pub message_text : ChatMessage → Result Text Text
message_text m = elim m.content [
  | none ↦ ok []
  | some (Content.text s) ↦ ok s
  | some (Content.parts parts) ↦ part_texts parts []
]

-- What the match on the role goes on with: a system text, a turn, or an error.
pub data Role : Type 0 where
  takes_system unsupported : Role
  turn : Text → Role

abbrev pub user : Text
user = codes "user"

abbrev pub model : Text
model = codes "model"

abbrev pub line_break : Text
line_break = 10 ∷ []

abbrev pub blank_line : Text
blank_line = 10 ∷ 10 ∷ []

unfoldable pub role_of : Text → Role
role_of role =
    if text_eq role (codes "system") || text_eq role (codes "developer")
    then takes_system
    else if text_eq role (codes "assistant")
    then turn model
    else if text_eq role (codes "user")
        || (text_eq role (codes "tool") || text_eq role (codes "function"))
    then turn user
    else unsupported

-- "<|turn>{role}\n{body}<turn|>\n"
unfoldable pub show_turn : Text → Text → Text
show_turn role body = codes "<|turn>" ++ role ++ line_break ++ body ++ codes "<turn|>" ++ line_break

-- "<|turn>model\n<|channel>thought\n<channel|>"
unfoldable pub open_turn : Text
open_turn =
    codes "<|turn>model"
    ++ line_break
    ++ codes "<|channel>thought"
    ++ line_break
    ++ codes "<channel|>"

-- A system message after the ones that no turn has taken.
unfoldable pub add_system : Text → Text → Text
add_system system body = if not (is_empty system) then (system ++ blank_line) ++ body else body

-- The body of a turn and the system text that is left.
unfoldable pub turn_body : Text → Text → Text → Text × Text
turn_body role system body =
    if text_eq role user && not (is_empty system)
    then (system ++ blank_line ++ body, [])
    else (body, system)

-- The text after the last message.
unfoldable pub close_text : Text → Text → Text
close_text system text =
    (if not (is_empty system) then text ++ show_turn user system else text) ++ open_turn

unfoldable pub render_loop : List ChatMessage → Text → Text → Result Text Text
render_loop [] system text = ok (close_text system text)
render_loop (m ∷ messages) system text = elim (message_text m) [
  | err e ↦ err e
  | ok body ↦ elim (role_of m.role) [
    | Role.takes_system ↦ render_loop messages (add_system system body) text
    | Role.unsupported ↦ err (codes "unsupported message role '" ++ m.role ++ codes "'")
    | Role.turn role ↦
        let merged = turn_body role system body in
        render_loop messages merged.1 (text ++ show_turn role merged.0)
  ]
]

unfoldable pub render_chat : List ChatMessage → Result Text Text
render_chat [] = err (codes "messages must not be empty")
render_chat (m ∷ messages) = render_loop (m ∷ messages) [] []
