-- ===== src/Openai/Request.antt =====
-- The wire types of ft-model/src/openai.rs that carry text, and `check_common`.
pub mod Stops
use free_token_rs.Prelude.{
  ℕ, Bool, false, not, Option, none, some, List, [], ◌∷◌, ◌==◌, ltb, if◌then◌else◌, length, Result,
  err, ok,
}
use free_token_rs.Text.{Text, codes, is_empty}

pub data StrOrVec : Type 0 where
  one : Text → StrOrVec
  many : List Text → StrOrVec

unfoldable pub into_vec : StrOrVec → List Text
into_vec (one s) = s ∷ []
into_vec (many v) = v

pub record ContentPart : Type 0 where
  pub kind : Text
  pub text : Option Text

pub data Content : Type 0 where
  text : Text → Content
  parts : List ContentPart → Content

pub record ChatMessage : Type 0 where
  pub role : Text
  pub content : Option Content

pub record StreamOptions : Type 0 where
  pub include_usage : Bool

-- A temperature is the bit pattern of an `f32`.
pub record ChatRequest : Type 0 where
  pub model : Option Text
  pub messages : List ChatMessage
  pub stream : Bool
  pub stream_options : Option StreamOptions
  pub max_tokens : Option ℕ
  pub max_completion_tokens : Option ℕ
  pub temperature : Option ℕ
  pub n : Option ℕ
  pub stop : Option StrOrVec

pub record CompletionRequest : Type 0 where
  pub model : Option Text
  pub prompt : StrOrVec
  pub stream : Bool
  pub stream_options : Option StreamOptions
  pub max_tokens : Option ℕ
  pub temperature : Option ℕ
  pub n : Option ℕ
  pub stop : Option StrOrVec
  pub echo : Bool

-- `stop.clone().map(StrOrVec::into_vec).unwrap_or_default()`
unfoldable pub stop_texts : Option StrOrVec → List Text
stop_texts none = []
stop_texts (some stop) = into_vec stop

-- `filter(|s| !s.is_empty())`
unfoldable pub keep_nonempty : List Text → List Text
keep_nonempty [] = []
keep_nonempty ([] ∷ stops) = keep_nonempty stops
keep_nonempty ((c ∷ s) ∷ stops) = (c ∷ s) ∷ keep_nonempty stops

-- The number of choices that is asked for is 1, if any is.
unfoldable pub bad_n : Option ℕ → Bool
bad_n none = false
bad_n (some n) = not (n == 1)

-- An error is a message and the name of the parameter.
unfoldable pub check_common : Option ℕ → Option StrOrVec → Result (Text × Text) (List Text)
check_common n stop =
    let stops = keep_nonempty (stop_texts stop) in
    if bad_n n
    then err (codes "only n=1 is supported", codes "n")
    else if ltb 4 (length stops)
    then err (codes "at most 4 stop sequences are allowed", codes "stop")
    else ok stops
