-- ===== src/Server/Gate.antt =====
-- `gate`, `model_card`, `models` and `model_info` of ft-model/src/bin/serve.rs. The header maps of
-- the HTTP library are an interface, and so is what a header's value is as a text.
pub mod Guard
use free_token_rs.Prelude.{
  ℕ, ◌≡◌, ◌≢◌, Bool, true, false, ◌||◌, Option, none, some, List, [], ◌∷◌, ◌++◌, ◌>>=◌,
  if◌then◌else◌, length, drop,
}
use free_token_rs.Text.{Text, codes, text_eq, starts_with}
use free_token_rs.Server.Response.{
  Status, success, no_content, unauthorized, not_found, ErrorBody, Refusal, api_error,
}
use free_token_rs.Server.Endpoint.{AppState}

-- `t.strip_prefix(s)`
unfoldable pub strip_prefix : Text → Text → Option Text
strip_prefix t s = if starts_with t s then some (drop (length s) t) else none

-- A header map: reading a value, and storing one in place of those of that name.
pub record Headers (H : Type 0) : Type 0 where
  pub get : H → Text → Option (List ℕ)
  pub insert : H → Text → List ℕ → H
  -- The maps of an empty and of a JSON response.
  pub empty : H
  pub json : H
  pub get_same : (h : H) (name : Text) (v : List ℕ) → get (insert h name v) name ≡ some v
  pub get_other :
      (h : H) (name other : Text) (v : List ℕ)
      → name ≢ other
      → get (insert h other v) name ≡ get h name

pub record ModelCard : Type 0 where
  pub id : Text
  pub object : Text
  pub created : ℕ
  pub owned_by : Text

-- What a response carries: nothing, an error, a card, the list of the cards, or something else.
pub data Body (B : Type 0) : Type 0 where
  nothing : Body B
  error : ErrorBody → Body B
  card : ModelCard → Body B
  cards : Text → List ModelCard → Body B
  other : B → Body B

pub record Request (H : Type 0) : Type 0 where
  -- Is the method `OPTIONS`?
  pub is_options : Bool
  pub path : Text
  pub headers : H

pub record Response (H B : Type 0) : Type 0 where
  pub status : Status
  pub headers : H
  pub body : Body B

unfoldable pub model_card : AppState → ModelCard
model_card st = record {
  id = st.model_name;
  object = codes "model";
  created = st.created;
  owned_by = codes "freetoken-rs";
}

-- Does a text hold that is there or not?
unfoldable pub is_text : Option Text → Text → Bool
is_text none t = false
is_text (some s) t = text_eq s t

module _ {H : Type 0} (hs : Headers H) (to_str : List ℕ → Option Text) where
  -- The token of the request, when it has one.
  unfoldable pub bearer : Request H → Option Text
  bearer req = hs.get req.headers (codes "authorization") >>= λ v.
      to_str v >>= λ s. strip_prefix s (codes "Bearer ")

  unfoldable pub authorized : Option Text → Request H → Bool
  authorized none req = true
  authorized (some key) req = is_text (bearer req) key

module _ {H B : Type 0} (hs : Headers H) where
  unfoldable pub error_response : Refusal → Response H B
  error_response (status, body) = record { status = status; headers = hs.json; body = error body }

  unfoldable pub models : AppState → Response H B
  models st = record {
    status = success;
    headers = hs.json;
    body = cards (codes "list") (model_card st ∷ []);
  }

  unfoldable pub model_info : AppState → Text → Response H B
  model_info st id =
      if text_eq id st.model_name
      then record { status = success; headers = hs.json; body = card (model_card st) }
      else error_response (
          api_error not_found (codes "The model '" ++ id ++ codes "' does not exist")
            (some (codes "model")) (some (codes "model_not_found")))

  -- The headers that every response gets.
  unfoldable pub with_cors : Response H B → Response H B
  with_cors resp = record resp {
    headers =
        hs.insert
          (hs.insert (hs.insert resp.headers (codes "access-control-allow-origin") (codes "*"))
            (codes "access-control-allow-methods") (codes "GET, POST, OPTIONS"))
          (codes "access-control-allow-headers") (codes "*");
  }

module _ {H B : Type 0} (hs : Headers H) (to_str : List ℕ → Option Text) where
  unfoldable pub gate : AppState → Request H → (Request H → Response H B) → Response H B
  gate st req next = with_cors hs (
      if req.is_options
      then record { status = no_content; headers = hs.empty; body = nothing }
      else if authorized hs to_str st.api_key req || text_eq req.path (codes "/health")
      then next req
      else error_response hs (
          api_error unauthorized (codes "Incorrect API key provided") none
            (some (codes "invalid_api_key"))))
