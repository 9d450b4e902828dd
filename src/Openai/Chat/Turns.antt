-- ===== src/Openai/Chat/Turns.antt =====
-- The turns of a conversation, described without the loops, and `render_chat` against them.
use free_token_rs.Prelude.{◌≡◌, ◌≢◌, ◌⊎◌, Option, none, some, List, [], ◌∷◌, ◌++◌}
use free_token_rs.Text.{Text, codes}
use free_token_rs.Openai.Request.{ContentPart, Content, ChatMessage}
use free_token_rs.Openai.Chat.{user, model, blank_line, show_turn, open_turn}

-- The text of a list of parts, all of kind `text`.
pub data PartsSay : List ContentPart → Text → Type 0 where
  no_parts : PartsSay [] []
  part :
      (p : ContentPart) (parts : List ContentPart) (t body : Text)
      → p.kind ≡ codes "text"
      → p.text ≡ some t
      → PartsSay parts body
      → PartsSay (p ∷ parts) (t ++ body)

abbrev pub ContentSays : Option Content → Text → Type 0
ContentSays none body = body ≡ []
ContentSays (some (Content.text s)) body = body ≡ s
ContentSays (some (Content.parts parts)) body = PartsSay parts body

abbrev pub Says : ChatMessage → Text → Type 0
Says m body = ContentSays m.content body

abbrev pub IsSystem : Text → Type 0
IsSystem r = (r ≡ codes "system") ⊎ (r ≡ codes "developer")

abbrev pub IsAssistant : Text → Type 0
IsAssistant r = r ≡ codes "assistant"

abbrev pub IsUser : Text → Type 0
IsUser r = (r ≡ codes "user") ⊎ ((r ≡ codes "tool") ⊎ (r ≡ codes "function"))

-- A system text before another text, with a blank line between them if it is not empty.
abbrev pub join : Text → Text → Text
join [] body = body
join (c ∷ s) body = (c ∷ s) ++ blank_line ++ body

-- The turns of the messages, each a role and a body, when a system text is pending.
pub data Conversation : Text → List ChatMessage → List (Text × Text) → Type 0 where
  done : Conversation [] [] []
  left_over : (pending : Text) → pending ≢ [] → Conversation pending [] ((user, pending) ∷ [])
  system :
      (m : ChatMessage) (ms : List ChatMessage) (pending body : Text) (turns : List (Text × Text))
      → IsSystem m.role
      → Says m body
      → Conversation (join pending body) ms turns
      → Conversation pending (m ∷ ms) turns
  assistant :
      (m : ChatMessage) (ms : List ChatMessage) (pending body : Text) (turns : List (Text × Text))
      → IsAssistant m.role
      → Says m body
      → Conversation pending ms turns
      → Conversation pending (m ∷ ms) ((model, body) ∷ turns)
  user_turn :
      (m : ChatMessage) (ms : List ChatMessage) (pending body : Text) (turns : List (Text × Text))
      → IsUser m.role
      → Says m body
      → Conversation [] ms turns
      → Conversation pending (m ∷ ms) ((user, join pending body) ∷ turns)

abbrev pub show_turns : List (Text × Text) → Text
show_turns [] = open_turn
show_turns ((role, body) ∷ turns) = show_turn role body ++ show_turns turns

abbrev IsTurn : Text → Text → Type 0
IsTurn r role = (IsAssistant r × (role ≡ model)) ⊎ (IsUser r × (role ≡ user))

-- What the loop returns: the text so far and the turns of the rest.
abbrev Rest : Text → List ChatMessage → Text → Text → Type 0
Rest pending ms text out =
    (turns : List (Text × Text)) × Conversation pending ms turns × (out ≡ text ++ show_turns turns)

-- The text of a conversation that the template takes: its turns in order, then an open turn of the
-- model.
pub record Rendered (messages : List ChatMessage) (text : Text) : Type 0 where
  pub nonempty : messages ≢ []
  pub turns : List (Text × Text)
  pub conversation : Conversation [] messages turns
  pub shown : text ≡ show_turns turns
