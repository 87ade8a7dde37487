-- ===== src/Llm/Dialects.antt =====
-- The vendors' dialects (infrastructure/providers/dialects.py) and Anthropic's
-- (infrastructure/providers/anthropic_dialect.py), over what the vendors' SDKs and LangChain's chat
-- models answer.
use holahost.Base.{
  ℕ, String, Bool, true, false, ◌||◌, Option, none, some, List, [], ◌∷◌, Result, leb, ◌==◌,
  if◌then◌else◌,
}
use holahost.Base.Int.{ℤ, pos, leb_ℤ}
use holahost.Base.Equality.{◌=?◌, string_eq, pair_eq}
use holahost.Base.Dict.{Dict}
use holahost.Auth.{Json, Members, null, text, member_of, is_empty}
use holahost.Llm.Values.{FinishReason, stop, max_tokens}
use holahost.Llm.Generate.Data.{Outcome, transient, rejected}

-- `AIMessage`, as the adapter reads it
pub record Reply : Type 0 where
  pub text : String
  pub usage_metadata : Option (ℤ × ℤ)
  pub response_metadata : Members

-- An exception of a chat model's call: the SDK's two, by name, status and `retry-after`, or another.
pub data Failure : Type 0 where
  api_connection_error : Failure
  api_status_error : ℕ → Option String → Failure
  other_error : Failure

-- The SDK's bounds of one call's phases, in microseconds.
pub record Timeout : Type 0 where
  pub read : ℤ
  pub connect : ℤ
  pub write : ℤ
  pub pool : ℤ

pub data BaseMessage : Type 0 where
  system_message human_message : String → BaseMessage

pub record ChatModel : Type 0 where
  pub model : String
  pub api_key : String
  pub max_retries : ℕ
  pub base_url : String

-- What a chat model is called with; a temperature is a number of millionths.
pub record Invocation : Type 0 where
  pub chat_model : ChatModel
  pub prompt : List BaseMessage
  pub stop : Option (List String)
  pub max_tokens : ℕ
  pub temperature : Option ℤ
  pub timeout : Timeout

-- How a chat model's call ends, and `float` of a header, in microseconds
pub record Env : Type 0 where
  pub invoke : Invocation → Result Failure Reply
  pub float : String → Option ℤ

-- The protocol `Dialect`
pub record Dialect : Type 0 where
  pub chat_model : String → String → Option String → ChatModel
  pub timeout : ℤ → Timeout
  pub finish_reason : Option Json → Option FinishReason
  pub is_refusal : Option Json → Bool
  pub reports_usage : Members → Bool
  pub translate : (String → Option ℤ) → Failure → Outcome

-- `_FINISH_REASONS.get(…)`
abbrev pub finish_reasons : String → Option FinishReason
finish_reasons reason =
    if reason =? "end_turn"
    then some stop
    else if reason =? "stop_sequence"
    then some stop
    else if reason =? "max_tokens"
    then some max_tokens
    else if reason =? "model_context_window_exceeded"
    then some max_tokens
    else none

abbrev pub finish_reason_of : Option Json → Option FinishReason
finish_reason_of (some (text reason)) = finish_reasons reason
finish_reason_of _ = none

abbrev pub is_refusal_reason : Option Json → Bool
is_refusal_reason (some (text reason)) = reason =? "refusal"
is_refusal_reason _ = false

-- `is not None`, of a member
abbrev pub is_given : Option Json → Bool
is_given none = false
is_given (some null) = false
is_given (some _) = true

-- `_SETUP_SECONDS`
abbrev pub setup_time : ℤ
setup_time = pos 1_000_000

-- `_TRANSIENT_STATUSES`, and every 5xx
unfoldable pub is_transient_status : ℕ → Bool
is_transient_status status = status == 408 || status == 409 || status == 429 || leb 500 status

-- `_seconds`
abbrev pub seconds_of : (String → Option ℤ) → Option String → Option ℤ
seconds_of float none = none
seconds_of float (some value) = float value

-- `AnthropicDialect.translate`
unfoldable pub translate_failure : (String → Option ℤ) → Failure → Outcome
translate_failure float api_connection_error = transient none none
translate_failure float (api_status_error status retry_after) =
    if is_transient_status status
    then transient (some status) (seconds_of float retry_after)
    else rejected (record { status = some status })
translate_failure float other_error = rejected (record { status = none })

-- `base_url or _ENDPOINT`
abbrev pub endpoint_or : Option String → String
endpoint_or none = "https://api.anthropic.com"
endpoint_or (some url) = if is_empty url then "https://api.anthropic.com" else url

unfoldable pub anthropic_dialect : Dialect
unfolding translate_failure
anthropic_dialect = record {
  chat_model = λ model_id api_key base_url. record {
    model = model_id;
    api_key = api_key;
    max_retries = 0;
    base_url = endpoint_or base_url;
  };
  timeout = λ time.
      let setup = if leb_ℤ time setup_time then time else setup_time in
      record { read = time; connect = setup; write = setup; pool = setup };
  finish_reason = finish_reason_of;
  is_refusal = is_refusal_reason;
  reports_usage = λ metadata. is_given (member_of "usage" metadata);
  translate = translate_failure;
}

-- `DIALECTS`
unfoldable pub dialects : Dict String Dialect
dialects = ("anthropic", anthropic_dialect) ∷ []
