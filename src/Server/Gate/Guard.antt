-- ===== src/Server/Gate/Guard.antt =====
-- Which requests pass the gate.
use free_token_rs.Prelude.{
  ℕ, ◌≡◌, ◌≢◌, refl, ap, ◌∙◌, inl, inr, ◌⊎◌, true, false, ◌||◌, Option, none, some, List, [], ◌∷◌,
  ◌++◌, arith, Bool-cases, Option-cases, length, drop, if◌then◌else◌,
}
use free_token_rs.Text.{Text, codes, text_eq, text_eq_refl, eq_of_text_eq, starts_with}
use free_token_rs.Server.Response.{unauthorized, no_content, Refusal, api_error}
use free_token_rs.Server.Endpoint.{AppState}
use free_token_rs.Server.Gate.{
  strip_prefix, Headers, nothing, error, Request, Response, is_text, bearer, authorized,
  error_response, with_cors, gate,
}

drop-starts_with : (t s : Text) → starts_with t s ≡ true → t ≡ s ++ drop (length s) t
unfolding starts_with
drop-starts_with t [] h = refl
drop-starts_with [] (c ∷ s) h = absurd (ground arith)
drop-starts_with (d ∷ t) (c ∷ s) h = ground (arith, drop-starts_with t s)

starts_with_front : (s r : Text) → starts_with (s ++ r) s ≡ true
unfolding starts_with
starts_with_front [] [] = refl
starts_with_front [] (c ∷ r) = refl
starts_with_front (c ∷ s) r = ground (arith, starts_with_front s r)

drop_front : (s r : Text) → drop (length s) (s ++ r) ≡ r
drop_front [] r = refl
drop_front (c ∷ s) r = drop_front s r

strip_prefix_lem : (t s r : Text) → strip_prefix t s ≡ some r → t ≡ s ++ r
unfolding strip_prefix
strip_prefix_lem t s r h = elim (Bool-cases (starts_with t s)) [
  | inl hit ↦ drop-starts_with t s hit ∙ ap (λ l. s ++ l) (ground (arith, h, hit))
  | inr miss ↦ absurd (ground (arith, h, miss))
]

strip_prefix-append : (s r : Text) → strip_prefix (s ++ r) s ≡ some r
unfolding strip_prefix
strip_prefix-append s r = rw (starts_with_front s r, drop_front s r) refl

ne_of_text_eq : (s t : Text) → text_eq s t ≡ false → s ≢ t
ne_of_text_eq s t h e = ground (arith, h, text_eq_refl s, ap (text_eq s) e)

abbrev pub authorization : Text
authorization = codes "authorization"

module _ {H : Type 0} (hs : Headers H) (to_str : List ℕ → Option Text) where
  -- The request has this key as its bearer token.
  abbrev pub Bears : Request H → Text → Type 0
  Bears req key =
      (v : List ℕ) × (hs.get req.headers authorization ≡ some v)
      × (to_str v ≡ some (codes "Bearer " ++ key))

  -- A server without a key admits any request, one with a key those that have it.
  abbrev pub Admitted : Option Text → Request H → Type 0
  Admitted none req = Unit {0}
  Admitted (some key) req = Bears req key

  bearer_lem : (req : Request H) (key : Text) → bearer hs to_str req ≡ some key → Bears req key
  unfolding bearer
  bearer_lem req key h = elim (Option-cases (hs.get req.headers authorization)) [
    | inl missing ↦ absurd (ground (arith, h, missing))
    | inr (v, there) ↦ elim (Option-cases (to_str v)) [
      | inl odd ↦ absurd (ground (arith, h, there, odd))
      | inr (s, is) ↦
          let stripped : strip_prefix s (codes "Bearer ") ≡ some key =
            ground (arith, h, there, is) in
          (v, there, is ∙ ap some (strip_prefix_lem s (codes "Bearer ") key stripped))
    ]
  ]

  bearer-Bears : (req : Request H) (key : Text) → Bears req key → bearer hs to_str req ≡ some key
  unfolding bearer
  bearer-Bears req key (v, there, is) = rw (there, is) (strip_prefix-append (codes "Bearer ") key)

  authorized-Admitted :
      (key : Option Text) (req : Request H) → authorized hs to_str key req ≡ true → Admitted key req
  unfolding authorized is_text
  authorized-Admitted none req h = tt
  authorized-Admitted (some key) req h = elim (Option-cases (bearer hs to_str req)) [
    | inl missing ↦ absurd (ground (arith, h, missing))
    | inr (s, there) ↦
        let same : s ≡ key = eq_of_text_eq s key (ground (arith, h, there)) in
        bearer_lem req key (there ∙ ap some same)
  ]

  Admitted-authorized :
      (key : Option Text) (req : Request H) → Admitted key req → authorized hs to_str key req ≡ true
  unfolding authorized is_text
  Admitted-authorized none req h = refl
  Admitted-authorized (some key) req h = rw (bearer-Bears req key h) (text_eq_refl key)

abbrev wrong_key : Refusal
wrong_key =
    api_error unauthorized (codes "Incorrect API key provided") none
      (some (codes "invalid_api_key"))

-- How a request is answered. `OPTIONS` is answered without a body; a request that is admitted or asks
-- for the server's health is answered by `next`; any other is refused with status 401.
abbrev pub Guards :
    {H B : Type 0}
    → Headers H
    → (List ℕ → Option Text)
    → AppState
    → Request H
    → (Request H → Response H B)
    → Response H B
    → Type 0
Guards hs to_str st req next r =
    ((req.is_options ≡ true) × (r.status ≡ no_content) × (r.body ≡ nothing))
    ⊎ ((req.is_options ≡ false)
        × (Admitted hs to_str st.api_key req ⊎ (req.path ≡ codes "/health"))
        × (r.status ≡ (next req).status)
        × (r.body ≡ (next req).body))
    ⊎ ((req.is_options ≡ false)
        × (¬ Admitted hs to_str st.api_key req)
        × (req.path ≢ codes "/health")
        × (r.status ≡ unauthorized)
        × (r.body ≡ error wrong_key.1))

-- Any origin, any header and the three methods are allowed.
abbrev pub Allows : {H B : Type 0} → Headers H → Response H B → Type 0
Allows hs r =
    (hs.get r.headers (codes "access-control-allow-origin") ≡ some (codes "*"))
    × (hs.get r.headers (codes "access-control-allow-methods") ≡ some (codes "GET, POST, OPTIONS"))
    × (hs.get r.headers (codes "access-control-allow-headers") ≡ some (codes "*"))

with_cors-Allows : {H B : Type 0} (hs : Headers H) (r : Response H B) → Allows hs (with_cors hs r)
unfolding with_cors text_eq
with_cors-Allows hs r = (
  hs.get_other _ _ _ _ (ne_of_text_eq _ _ refl)
      ∙ hs.get_other _ _ _ _ (ne_of_text_eq _ _ refl)
      ∙ hs.get_same _ _ _,
  hs.get_other _ _ _ _ (ne_of_text_eq _ _ refl) ∙ hs.get_same _ _ _,
  hs.get_same _ _ _,
)

-- The gate: `OPTIONS` is answered without a body. Any other request is answered by `next` if the
-- server has no key, or the request has the key as its bearer token, or it asks for the server's
-- health; else it is refused with status 401. All responses allow any origin.
pub gate-Guards :
    {H B : Type 0} (hs : Headers H) (to_str : List ℕ → Option Text) (st : AppState)
    (req : Request H) (next : Request H → Response H B)
    → Guards hs to_str st req next (gate hs to_str st req next)
      × Allows hs (gate hs to_str st req next)
unfolding gate with_cors error_response api_error
gate-Guards hs to_str st req next = (
  elim (Bool-cases req.is_options) [
    | inl options ↦ inl (options, rw options refl, rw options refl)
    | inr other ↦ elim (Bool-cases (authorized hs to_str st.api_key req)) [
      | inl good ↦ inr (
          inl (
            other,
            inl (authorized-Admitted hs to_str st.api_key req good),
            rw (good, other) refl,
            rw (good, other) refl,
          ))
      | inr bad ↦ elim (Bool-cases (text_eq req.path (codes "/health"))) [
        | inl health ↦ inr (
            inl (
              other,
              inr (eq_of_text_eq req.path (codes "/health") health),
              rw (bad, health, other) refl,
              rw (bad, health, other) refl,
            ))
        | inr path ↦ inr (
            inr (
              other,
              (λ a. ground (arith, bad, Admitted-authorized hs to_str st.api_key req a)),
              ne_of_text_eq req.path (codes "/health") path,
              rw (bad, path, other) refl,
              rw (bad, path, other) refl,
            ))
      ]
    ]
  ],
  with_cors-Allows hs (
      if req.is_options
      then record { status = no_content; headers = hs.empty; body = nothing }
      else if authorized hs to_str st.api_key req || text_eq req.path (codes "/health")
      then next req
      else error_response hs wrong_key),
)
