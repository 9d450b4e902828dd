-- ===== src/Openai/Chat/Supported.antt =====
-- The conversations that `render_chat` accepts.
use free_token_rs.Prelude.{
  ◌≡◌, ◌≢◌, refl, sym, ap, ◌∙◌, ◌⊎◌, inl, inr, Option, none, some, List, [], ◌∷◌, ◌++◌,
  append_assoc, append-nil, All, ok,
}
use free_token_rs.Text.{Text, codes, text_eq, text_eq_refl}
use free_token_rs.Openai.Request.{ContentPart, Content, ChatMessage}
use free_token_rs.Openai.Chat.{
  takes_system, turn, part_texts, message_text, role_of, user, model, show_turn, add_system,
  turn_body, close_text, render_loop, render_chat,
}
use free_token_rs.Openai.Chat.Turns.{
  PartsSay, no_parts, part, ContentSays, Says, IsSystem, IsAssistant, IsUser,
}

-- A message with one of the roles of the template, and a text.
pub record Supported (m : ChatMessage) : Type 0 where
  pub role : IsSystem m.role ⊎ (IsAssistant m.role ⊎ IsUser m.role)
  pub body : Text
  pub says : Says m body

part_texts_lem :
    (parts : List ContentPart) (body before : Text)
    → PartsSay parts body
    → part_texts parts before ≡ ok (before ++ body)
unfolding part_texts
part_texts_lem [] _ before no_parts = ap ok (sym (append-nil before))
part_texts_lem (p ∷ parts) _ before (part _ _ t body k e says) =
    rw (e, k, text_eq_refl (codes "text"))
      (part_texts_lem parts body (before ++ t) says ∙ ap ok (append_assoc before t body))

message_text_lem :
    (role : Text) (c : Option Content) (body : Text)
    → ContentSays c body
    → message_text (record { role = role; content = c }) ≡ ok body
unfolding message_text
message_text_lem role none body says = ap ok (sym says)
message_text_lem role (some (Content.text s)) body says = ap ok (sym says)
message_text_lem role (some (Content.parts parts)) body says = part_texts_lem parts body [] says

role_goes :
    (r : Text)
    → IsSystem r ⊎ (IsAssistant r ⊎ IsUser r)
    → (role_of r ≡ takes_system) ⊎ ((role : Text) × (role_of r ≡ turn role))
unfolding role_of text_eq
role_goes r (inl (inl e)) = inl (rw e refl)
role_goes r (inl (inr e)) = inl (rw e refl)
role_goes r (inr (inl e)) = inr (model, rw e refl)
role_goes r (inr (inr (inl e))) = inr (user, rw e refl)
role_goes r (inr (inr (inr (inl e)))) = inr (user, rw e refl)
role_goes r (inr (inr (inr (inr e)))) = inr (user, rw e refl)

render_loop_total :
    (ms : List ChatMessage) (pending text : Text)
    → All Supported ms
    → (out : Text) × (render_loop ms pending text ≡ ok out)
unfolding render_loop
render_loop_total [] pending text all = (close_text pending text, refl)
render_loop_total (m ∷ ms) pending text (s, all) =
    let read = message_text_lem m.role m.content s.body s.says in
    elim (role_goes m.role s.role) [
      | inl is ↦
          rw (read, is, render_loop) (render_loop_total ms (add_system pending s.body) text all)
      | inr (role, is) ↦
          let merged = turn_body role pending s.body in
          rw (read, is, render_loop)
            (render_loop_total ms merged.1 (text ++ show_turn role merged.0) all)
    ]

-- `render_chat` returns a text for every conversation with a message in which each message has
-- one of the roles that the template knows, and content of text only.
pub render_chat_total :
    (messages : List ChatMessage)
    → messages ≢ []
    → All Supported messages
    → (text : Text) × (render_chat messages ≡ ok text)
unfolding render_chat
render_chat_total [] ne all = absurd (ne refl)
render_chat_total (m ∷ ms) ne all = render_loop_total (m ∷ ms) [] [] all
