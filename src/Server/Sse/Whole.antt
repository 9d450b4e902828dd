-- ===== src/Server/Sse/Whole.antt =====
-- The event stream as a whole: its end, and the messages that it carries.
use free_token_rs.Prelude.{
  ℕ, zero, suc, ◌+◌, ◌≤◌, ◌≡◌, ◌≢◌, refl, sym, ap, ◌∙◌, Bool, true, false, Option, none, some, List,
  [], ◌∷◌, ◌++◌, arith, All, All-append, length, if◌then◌else◌, append_assoc,
}
use free_token_rs.Text.{Text}
use free_token_rs.Server.Relay.{Out, text, finished, failed}
use free_token_rs.Server.Sse.{
  Kind, chat_kind, completion_kind, Reply, Event, chunk_event, done_event, chunk, body_phase,
  end_phase, opening, closing, failure, last_text, poll, events_of, usage_chunk, sse,
}

-- The events for the messages, without the queue and the phases.
unfoldable pub body_events : Reply → List Out → List Event
body_events r [] = failure
body_events r (text t ∷ outs) = chunk_event (chunk r (some t) false none) ∷ body_events r outs
body_events r (finished finish n ∷ outs) = closing r finish n
body_events r (failed ∷ outs) = failure

events_of_end :
    (r : Reply) (rx : List Out) (queue : List Event) (fuel : ℕ)
    → length queue + 1 ≤ fuel
    → events_of fuel r (rx, end_phase, queue) ≡ some queue
unfolding events_of poll
events_of_end r rx queue zero h = absurd (omega arith)
events_of_end r rx [] (suc fuel) h = refl
events_of_end r rx (ev ∷ queue) (suc fuel) h = rw (events_of_end r rx queue fuel (omega arith)) refl

abbrev pub after_last : Bool → Event → List Event
after_last usage ev = (if usage then ev ∷ [] else []) ++ done_event ∷ []

length-after_last : (usage : Bool) (ev : Event) → length (after_last usage ev) ≤ 2
length-after_last true ev = omega arith
length-after_last false ev = omega arith

-- A stream in its body, with nothing queued.
events_of_body :
    (r : Reply) (rx : List Out) (fuel : ℕ)
    → length rx + 4 ≤ fuel
    → events_of fuel r (rx, body_phase, []) ≡ some (body_events r rx)
unfolding events_of poll body_events closing failure
events_of_body r rx zero h = absurd (omega arith)
events_of_body r [] (suc fuel) h = rw (events_of_end r [] (done_event ∷ []) fuel (omega arith)) refl
events_of_body r (text t ∷ rx) (suc fuel) h = rw (events_of_body r rx fuel (omega arith)) refl
events_of_body r (finished finish n ∷ rx) (suc fuel) h =
    let few = length-after_last r.include_usage (chunk_event (usage_chunk r n)) in
    rw
      (events_of_end r rx (after_last r.include_usage (chunk_event (usage_chunk r n))) fuel
        (omega arith))
      refl
events_of_body r (failed ∷ rx) (suc fuel) h =
    rw (events_of_end r rx (done_event ∷ []) fuel (omega arith)) refl

-- A poll in the body goes round the loop twice.
poll_body :
    (r : Reply) (rx : List Out) → poll 2 r (rx, body_phase, []) ≡ poll 3 r (rx, body_phase, [])
unfolding poll closing failure
poll_body r [] = refl
poll_body r (text t ∷ rx) = refl
poll_body r (finished finish n ∷ rx) = refl
poll_body r (failed ∷ rx) = refl

-- The first poll, whatever the opening puts into the queue.
poll_opened :
    (r : Reply) (kind : Kind) (prefix : Option Text) (rx : List Out) (fuel : ℕ)
    → length rx + 4 ≤ fuel
    → (elim (poll 2 r (rx, body_phase, opening r kind prefix)) [
      | none ↦ none
      | some none ↦ some []
      | some (some (ev, s)) ↦ elim (events_of fuel r s) [
        | none ↦ none
        | some events ↦ some (ev ∷ events)
      ]
    ])
      ≡ some (opening r kind prefix ++ body_events r rx)
unfolding poll opening events_of
poll_opened r chat_kind prefix rx fuel h = rw (events_of_body r rx fuel (omega arith)) refl
poll_opened r completion_kind (some p) rx fuel h = rw (events_of_body r rx fuel (omega arith)) refl
poll_opened r completion_kind none rx fuel h =
    rw (poll_body r rx) (events_of_body r rx (suc fuel) (omega arith))

-- The events: the opening and then those for the messages.
pub sse-events :
    (r : Reply) (outs : List Out)
    → sse r outs ≡ some (opening r r.kind r.prefix ++ body_events r outs)
unfolding sse events_of poll
sse-events r outs =
    let eq : length outs + 5 ≡ suc (length outs + 4) = omega arith in
    rw eq (poll_opened r r.kind r.prefix outs (length outs + 4) (omega arith))

failure-Ended :
    (events : List Event) × (failure ≡ events ++ done_event ∷ [])
    × All (λ ev. ev ≢ done_event) events
unfolding failure
failure-Ended = (_ ∷ [], refl, (λ e. ground (arith, e), tt))

body_events-Ended :
    (r : Reply) (outs : List Out)
    → (events : List Event) × (body_events r outs ≡ events ++ done_event ∷ [])
      × All (λ ev. ev ≢ done_event) events
unfolding body_events closing
body_events-Ended r [] = failure-Ended
body_events-Ended r (text t ∷ outs) =
    let (events, same, other) = body_events-Ended r outs in
    (
      _ ∷ events,
      ap (λ l. chunk_event (chunk r (some t) false none) ∷ l) same,
      (λ e. ground (arith, e), other),
    )
body_events-Ended r (finished finish n ∷ outs) = after r.include_usage
  where
    after :
        (usage : Bool)
        → (events : List Event) × (chunk_event (chunk r (last_text r.kind) false (some finish))
              ∷ after_last usage (chunk_event (usage_chunk r n))
            ≡ events ++ done_event ∷ [])
          × All (λ ev. ev ≢ done_event) events
    after true = (_ ∷ _ ∷ [], refl, ((λ e. ground (arith, e)), ((λ e. ground (arith, e)), tt)))
    after false = (_ ∷ [], refl, (λ e. ground (arith, e), tt))
body_events-Ended r (failed ∷ outs) = failure-Ended

opening-All :
    (r : Reply) (kind : Kind) (prefix : Option Text)
    → All (λ ev. ev ≢ done_event) (opening r kind prefix)
unfolding opening
opening-All r chat_kind prefix = (λ e. ground (arith, e), tt)
opening-All r completion_kind none = tt
opening-All r completion_kind (some p) = (λ e. ground (arith, e), tt)

-- Whatever the messages of a generation are, its event stream comes to an end, and the last of its
-- events, and no other, says that it is done.
pub sse-Ended :
    (r : Reply) (outs : List Out)
    → (events : List Event) × (sse r outs ≡ some (events ++ done_event ∷ []))
      × All (λ ev. ev ≢ done_event) events
sse-Ended r outs =
    let (events, same, other) = body_events-Ended r outs in
    let first = opening r r.kind r.prefix in
    (
      first ++ events,
      sse-events r outs
          ∙ ap some (ap (λ l. first ++ l) same ∙ sym (append_assoc first events (done_event ∷ []))),
      All-append (λ ev. ev ≢ done_event) first events (opening-All r r.kind r.prefix) other,
    )
