-- ===== src/Server/Sse/Agreement.antt =====
-- What a client reads from the event stream is what the response in one piece says.
use free_token_rs.Prelude.{
  ℕ, ◌≡◌, refl, sym, ap, ◌∙◌, Bool, true, false, Option, none, some, List, [], ◌∷◌, ◌++◌,
  if◌then◌else◌, append_assoc, append-nil, Result, err, ok,
}
use free_token_rs.Text.{Text}
use free_token_rs.Worker.{FinishReason}
use free_token_rs.Worker.Gen.{unwrap_or}
use free_token_rs.Server.Relay.{Out, text, finished, failed}
use free_token_rs.Server.Response.{
  Usage, new_usage, ErrorBody, kind_of, api_error, Refusal, collect_from, collect,
}
use free_token_rs.Server.Sse.{
  Kind, chat_kind, completion_kind, Reply, Choice, delta, whole_text, UsageField, used, absent,
  null, Event, chunk_event, error_event, done_event, choice, last_text, chunk, usage_chunk, opening,
  closing, failure, sse,
}
use free_token_rs.Server.Sse.Whole.{after_last, body_events, sse-events}

-- The text, the reasons of an end, the numbers of tokens and the errors in a list of events.
abbrev choice_text : Choice → Text
choice_text (delta role t finish) = unwrap_or t []
choice_text (whole_text t finish) = t

abbrev choice_finish : Choice → Option FinishReason
choice_finish (delta role t finish) = finish
choice_finish (whole_text t finish) = finish

abbrev choices_text : List Choice → Text
choices_text [] = []
choices_text (c ∷ choices) = choice_text c ++ choices_text choices

abbrev add_if {ℓ} : {A : Type ℓ} → Option A → List A → List A
add_if none xs = xs
add_if (some x) xs = x ∷ xs

abbrev choices_finishes : List Choice → List FinishReason
choices_finishes [] = []
choices_finishes (c ∷ choices) = add_if (choice_finish c) (choices_finishes choices)

abbrev usage_of : UsageField → List Usage
usage_of absent = []
usage_of null = []
usage_of (used u) = u ∷ []

-- What a client has read: the text, the reasons of an end, the numbers of tokens and the errors.
pub record Reading : Type 0 where
  pub content : Text
  pub finishes : List FinishReason
  pub usages : List Usage
  pub errors : List ErrorBody

abbrev pub reading : List Event → Reading
reading [] = record { content = []; finishes = []; usages = []; errors = [] }
reading (chunk_event c ∷ events) =
    let later = reading events in
    record {
      content = choices_text c.choices ++ later.content;
      finishes = choices_finishes c.choices ++ later.finishes;
      usages = usage_of c.usage ++ later.usages;
      errors = later.errors;
    }
reading (error_event e ∷ events) =
    let later = reading events in record later { errors = e ∷ later.errors }
reading (done_event ∷ events) = reading events

-- The prompt, when it is to be echoed.
abbrev pub echoed : Kind → Option Text → Text
echoed chat_kind prefix = []
echoed completion_kind prefix = unwrap_or prefix []

-- A stream has the text after the text `echo`, one end and the usage if it was asked for, where the
-- response in one piece has that text, that end and that usage; or the error of that response.
abbrev pub Agrees : Reply → Text → Result Refusal (Text × FinishReason × ℕ) → Reading → Type 0
Agrees r echo (ok (t, finish, n)) read =
    (read.content ≡ echo ++ t)
    × (read.finishes ≡ finish ∷ [])
    × (read.usages ≡ (if r.include_usage then new_usage r.prompt_tokens n ∷ [] else []))
    × (read.errors ≡ [])
Agrees r echo (err (status, body)) read =
    (read.finishes ≡ []) × (read.usages ≡ []) × (read.errors ≡ body ∷ [])

-- The same for what follows the text `t`.
abbrev Follows : Reply → Text → Result Refusal (Text × FinishReason × ℕ) → Reading → Type 0
Follows r so_far (ok (t, finish, n)) read =
    (so_far ++ read.content ≡ t)
    × (read.finishes ≡ finish ∷ [])
    × (read.usages ≡ (if r.include_usage then new_usage r.prompt_tokens n ∷ [] else []))
    × (read.errors ≡ [])
Follows r so_far (err (status, body)) read =
    (read.finishes ≡ []) × (read.usages ≡ []) × (read.errors ≡ body ∷ [])

Follows-failure :
    (r : Reply) (so_far : Text) → Follows r so_far (collect_from so_far []) (reading failure)
unfolding collect_from failure api_error kind_of
Follows-failure r so_far = (refl, refl, refl)

-- The text and the end of a chunk.
text_of_choice :
    (kind : Kind) (t : Text) (role : Bool) (finish : Option FinishReason)
    → choice_text (choice kind (some t) role finish) ≡ t
unfolding choice
text_of_choice chat_kind t role finish = refl
text_of_choice completion_kind t role finish = refl

finish_of_choice :
    (kind : Kind) (t : Option Text) (role : Bool) (finish : Option FinishReason)
    → choice_finish (choice kind t role finish) ≡ finish
unfolding choice
finish_of_choice chat_kind t role finish = refl
finish_of_choice completion_kind t role finish = refl

last_text_empty :
    (kind : Kind) (finish : Option FinishReason)
    → choice_text (choice kind (last_text kind) false finish) ≡ []
unfolding choice last_text
last_text_empty chat_kind finish = refl
last_text_empty completion_kind finish = refl

no_usage : (usage : Bool) → usage_of (if usage then null else absent) ≡ []
no_usage true = refl
no_usage false = refl

reading-text :
    (r : Reply) (t : Text) (role : Bool) (events : List Event)
    → reading (chunk_event (chunk r (some t) role none) ∷ events)
      ≡ record (reading events) { content = t ++ (reading events).content }
unfolding chunk
reading-text r t role events =
    rw
      (
        text_of_choice r.kind t role none,
        finish_of_choice r.kind (some t) role none,
        no_usage r.include_usage,
        append-nil t,
      )
      refl

Follows-text :
    (r : Reply) (so_far t : Text) (result : Result Refusal (Text × FinishReason × ℕ))
    (read : Reading)
    → Follows r (so_far ++ t) result read
    → Follows r so_far result (record read { content = t ++ read.content })
Follows-text r so_far t (ok (whole, finish, n)) read (same, finishes, usages, errors) =
    (sym (append_assoc so_far t read.content) ∙ same, finishes, usages, errors)
Follows-text r so_far t (err (status, body)) read h = h

reading-after_last :
    (r : Reply) (usage : Bool) (n : ℕ)
    → reading (after_last usage (chunk_event (usage_chunk r n))) ≡ record {
      content = [];
      finishes = [];
      usages = if usage then new_usage r.prompt_tokens n ∷ [] else [];
      errors = [];
    }
unfolding usage_chunk chunk
reading-after_last r true n = refl
reading-after_last r false n = refl

Follows-closing :
    (r : Reply) (so_far : Text) (finish : FinishReason) (n : ℕ)
    → Follows r so_far (ok (so_far, finish, n)) (reading (closing r finish n))
unfolding closing chunk usage_chunk
Follows-closing r so_far finish n =
    let after = reading-after_last r r.include_usage n in
    (
      rw (last_text_empty r.kind (some finish))
          (rw (ap (λ x. x.content) after) (append-nil so_far)),
      rw (finish_of_choice r.kind (last_text r.kind) false (some finish))
          (rw (ap (λ x. x.finishes) after) refl),
      rw (no_usage r.include_usage) (ap (λ x. x.usages) after),
      ap (λ x. x.errors) after,
    )

Follows-body :
    (r : Reply) (so_far : Text) (outs : List Out)
    → Follows r so_far (collect_from so_far outs) (reading (body_events r outs))
unfolding collect_from body_events
Follows-body r so_far [] = Follows-failure r so_far
Follows-body r so_far (text t ∷ outs) = rw (reading-text r t false (body_events r outs)) (
    Follows-text r so_far t (collect_from (so_far ++ t) outs) (reading (body_events r outs))
      (Follows-body r (so_far ++ t) outs))
Follows-body r so_far (finished finish n ∷ outs) = Follows-closing r so_far finish n
Follows-body r so_far (failed ∷ outs) = Follows-failure r so_far

Agrees-echo :
    (r : Reply) (echo : Text) (result : Result Refusal (Text × FinishReason × ℕ)) (read : Reading)
    → Follows r [] result read
    → Agrees r echo result (record read { content = echo ++ read.content })
Agrees-echo r echo (ok (t, finish, n)) read (same, finishes, usages, errors) =
    (ap (λ l. echo ++ l) same, finishes, usages, errors)
Agrees-echo r echo (err (status, body)) read h = h

Agrees-opening :
    (r : Reply) (kind : Kind) (prefix : Option Text)
    (result : Result Refusal (Text × FinishReason × ℕ)) (events : List Event)
    → Follows r [] result (reading events)
    → Agrees r (echoed kind prefix) result (reading (opening r kind prefix ++ events))
unfolding opening
Agrees-opening r chat_kind prefix result events h =
    rw (reading-text r [] true events) (Agrees-echo r [] result (reading events) h)
Agrees-opening r completion_kind none result events h = Agrees-echo r [] result (reading events) h
Agrees-opening r completion_kind (some p) result events h =
    rw (reading-text r p false events) (Agrees-echo r p result (reading events) h)

-- An event stream says what the response in one piece says for the same messages: the same text,
-- after the prompt if it is echoed, the same one reason of the end, and the same usage if it was
-- asked for. Where that response is an error, the stream has that one error and no end.
pub sse-Agrees :
    (r : Reply) (outs : List Out)
    → (events : List Event) × (sse r outs ≡ some events)
      × Agrees r (echoed r.kind r.prefix) (collect outs) (reading events)
unfolding collect
sse-Agrees r outs = (
  _,
  sse-events r outs,
  Agrees-opening r r.kind r.prefix (collect outs) (body_events r outs) (Follows-body r [] outs),
)
