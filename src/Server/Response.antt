-- ===== src/Server/Response.antt =====
-- The responses of ft-model/src/bin/serve.rs and their parts from ft-model/src/openai.rs. A JSON
-- value is a record of the fields that the code gives it.
use free_token_rs.Prelude.{
  ℕ, ◌+◌, ◌%◌, ◌&&◌, ◌==◌, leb, ltb, Option, none, List, [], ◌∷◌, ◌++◌, u64_mod, Result, err, ok,
  if◌then◌else◌,
}
use free_token_rs.Text.{Text, codes}
use free_token_rs.Worker.{FinishReason}
use free_token_rs.Server.Relay.{Out, text, finished, failed}

pub record Usage : Type 0 where
  pub prompt_tokens : ℕ
  pub completion_tokens : ℕ
  pub total_tokens : ℕ

-- `Usage::new`
unfoldable pub new_usage : ℕ → ℕ → Usage
new_usage prompt completion = record {
  prompt_tokens = prompt;
  completion_tokens = completion;
  total_tokens = (prompt + completion) % u64_mod;
}

pub record ErrorBody : Type 0 where
  pub message : Text
  pub kind : Text
  pub param : Option Text
  pub code : Option Text

unfoldable pub error_body : Text → Text → Option Text → Option Text → ErrorBody
error_body message kind param code = record {
  message = message;
  kind = kind;
  param = param;
  code = code;
}

-- A `StatusCode`, and those that the code names.
abbrev pub Status : Type 0
Status = ℕ

abbrev pub success : Status
success = 200

abbrev pub no_content : Status
no_content = 204

abbrev pub bad_request_status : Status
bad_request_status = 400

abbrev pub unauthorized : Status
unauthorized = 401

abbrev pub not_found : Status
not_found = 404

abbrev pub internal_server_error : Status
internal_server_error = 500

-- The `type` of an error. The statuses of server errors are 500 and up to 599.
unfoldable pub kind_of : Status → Text
kind_of status =
    if status == unauthorized
    then codes "authentication_error"
    else if status == not_found
    then codes "not_found_error"
    else if leb 500 status && ltb status 600
    then codes "server_error"
    else codes "invalid_request_error"

-- A response with an error: its status and body.
abbrev pub Refusal : Type 0
Refusal = Status × ErrorBody

unfoldable pub api_error : Status → Text → Option Text → Option Text → Refusal
api_error status message param code = (status, error_body message (kind_of status) param code)

unfoldable pub bad_request : Text → Option Text → Refusal
bad_request message param = api_error bad_request_status message param none

-- The loop of `collect`, with the text so far.
unfoldable pub collect_from : Text → List Out → Result Refusal (Text × FinishReason × ℕ)
collect_from so_far [] = err (api_error internal_server_error (codes "generation failed") none none)
collect_from so_far (text t ∷ outs) = collect_from (so_far ++ t) outs
collect_from so_far (finished finish n ∷ outs) = ok (so_far, finish, n)
collect_from so_far (failed ∷ outs) =
    err (api_error internal_server_error (codes "generation failed") none none)

unfoldable pub collect : List Out → Result Refusal (Text × FinishReason × ℕ)
collect outs = collect_from [] outs
