-- ===== src/Core.antt =====
-- core/errors.py, core/models.py and core/deadline.py: the error categories, and the requests,
-- deltas, usages and responses that the components pass to one another.
use tide_gate.Prelude.{◌≡◌, ◌⊎◌, refl, inl, inr, ℕ, ◌-◌, String, Bool, Option, none, List}
use tide_gate.Prelude.Int.{ℤ}

pub data ErrorCategory : Type 0 where
  retryable_upstream rate_limited_upstream content_blocked : ErrorCategory
  timeout_ttft timeout_stall timeout_total : ErrorCategory
  quota_exceeded client_error internal : ErrorCategory

-- Times are whole microseconds.
pub record GatewayError : Type 0 where
  pub message : String
  pub category : ErrorCategory
  pub retry_after_s : Option ℕ
  pub code : Option String
  pub http_status : Option ℕ

-- `GatewayError(message, category)`, the keyword arguments left at their defaults
abbrev pub gateway_error : String → ErrorCategory → GatewayError
gateway_error message category = record {
  message = message;
  category = category;
  retry_after_s = none;
  code = none;
  http_status = none;
}

-- What a call returns, or the `GatewayError` that it raises.
pub data Result {ℓ} (A : Type ℓ) : Type ℓ where
  ok : A → Result A
  err : GatewayError → Result A

pub Result-cases {ℓ} :
    {A : Type ℓ} (r : Result A) → ((a : A) × (r ≡ ok a)) ⊎ ((e : GatewayError) × (r ≡ err e))
Result-cases (ok a) = inl (a, refl)
Result-cases (err e) = inr (e, refl)

pub data Role : Type 0 where
  system user assistant tool : Role

-- A text is the list of its code points, or of its UTF-8 bytes where the source encodes it.
pub record ChatMessage : Type 0 where
  pub role : Role
  pub content : Option String

pub record Usage : Type 0 where
  pub prompt_tokens : ℕ
  pub completion_tokens : ℕ
  pub total_tokens : ℕ

-- `raw_body` is passed to the provider unread, and left out. A temperature and `top_p`
-- count 2^-1074ths, of which every double is a whole number; negative ones are left out.
pub record UnifiedRequest : Type 0 where
  pub request_id : String
  pub tenant_id : String
  pub model : String
  pub messages : List ChatMessage
  pub stream : Bool
  pub temperature : Option ℕ
  pub top_p : Option ℕ
  pub max_tokens : Option ℕ
  pub stop : Option (List String)
  pub logprobs : Bool
  pub prompt_version : String
  pub has_tools : Bool

pub record UnifiedDelta : Type 0 where
  pub content : Option (List ℕ)
  pub finish_reason : Option String
  pub usage : Option Usage

-- The content is the list of its code points. Log probabilities are in millionths.
pub record UnifiedResponse : Type 0 where
  pub content : List ℕ
  pub finish_reason : String
  pub usage : Usage
  pub model : String
  pub mean_logprob : Option ℤ

pub record Deadline : Type 0 where
  pub connect_s : ℕ
  pub ttft_s : ℕ
  pub inter_chunk_s : ℕ
  pub total_deadline : ℕ

-- `max(0.0, total_deadline - now)`
unfoldable pub remaining : Deadline → ℕ → ℕ
remaining d now = d.total_deadline - now
