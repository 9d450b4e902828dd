-- ===== src/Openai/Request/Stops.antt =====
-- The stop sequences that a request may name, and the streams that they are matched in.
use free_token_rs.Prelude.{ℕ, ◌≤◌, ◌≡◌, ◌≢◌, ◌⊎◌, Option, none, some, List, [], All, length}
use free_token_rs.Text.{Text}
use free_token_rs.Openai.Request.{StrOrVec, stop_texts, keep_nonempty}

-- What `check_common` accepts.
pub record Accepted (n : Option ℕ) (stop : Option StrOrVec) (stops : List Text) : Type 0 where
  pub single : (n ≡ none) ⊎ (n ≡ some 1)
  pub kept : stops ≡ keep_nonempty (stop_texts stop)
  pub few : length stops ≤ 4
  pub nonempty : All (λ s. s ≢ []) stops
