-- ===== src/Guest/Caller.antt =====
-- One call to a platform service (guest_reply/clients/http.py). What `httpx` answers may depend on
-- every request sent before.
pub mod Rounds
pub mod Induction
pub mod Spent
use Prim.Native.String.{◌++◌ as ◌⧺◌}
use holahost.Base.{
  ℕ, zero, suc, String, Bool, true, false, ◌&&◌, ◌||◌, not, Option, none, some, List, [], ◌∷◌,
  Result, ok, err, leb, ◌==◌, if◌then◌else◌,
}
use holahost.Base.Int.{ℤ, pos, negsuc}
use holahost.Base.Equality.{Eq, ◌=?◌, string_eq}
use holahost.Base.Action.{pure, raise, ◌>>=◌, ◌>>◌}
use holahost.Base.Dict.{Dict}
use holahost.Base.Decimal.{str}
use holahost.Auth.{
  Json, Members, null, boolean, number, text, array, object, member, last, member_of,
}
use holahost.Guest.Errors.{
  GuestReplyError, Class, Raised, failed, defect, new_error, document_not_found, request_rejected,
  limit_reached, provider_unavailable, token_rejected, service_unreachable, unexpected_response,
}
use holahost.Guest.World.{
  World, M, Request, Response, Outcome, answered, timed_out, transport_failed, other_exception,
  File, rate_limited,
}

-- What is not of this program: `httpx`, and `int` of a text.
pub record Env : Type 0 where
  pub answer : List Request → Request → Outcome
  pub int : String → Option ℤ

pub record ServiceCaller : Type 0 where
  pub origin : String
  pub api_base : String
  pub token : String
  pub request_id : String

-- What a client asks its caller for.
pub record Call : Type 0 where
  pub verb : String
  pub path : String
  pub read_timeout : ℕ
  pub json : Option Json
  pub data_fields : Dict String String
  pub file : Option File

-- In seconds, as each wait
abbrev pub connect_timeout : ℕ
connect_timeout = 5

abbrev pub retry_on_429_max : ℕ
retry_on_429_max = 3

abbrev pub max_retry_after : ℕ
max_retry_after = 60

-- `_Envelope`
pub record Envelope : Type 0 where
  pub code : String
  pub message : String
  pub details : Members

-- `message if isinstance(message, str) else ""`
abbrev message_text : Option Json → String
message_text (some (text s)) = s
message_text _ = ""

-- `details if isinstance(details, dict) else {}`
abbrev details_members : Option Json → Members
details_members (some (object members)) = members
details_members _ = last

-- The envelope in the body's `error` member, whose `code` is given.
abbrev envelope_with : Members → Option Json → Option Envelope
envelope_with error (some (text code)) = some (record {
  code = code;
  message = message_text (member_of "message" error);
  details = details_members (member_of "details" error);
})
envelope_with error _ = none

abbrev envelope_in : Option Json → Option Envelope
envelope_in (some (object error)) = envelope_with error (member_of "code" error)
envelope_in _ = none

abbrev envelope_of_body : Option Json → Option Envelope
envelope_of_body (some (object body)) = envelope_in (member_of "error" body)
envelope_of_body _ = none

-- `_envelope`
unfoldable pub envelope : Response → Option Envelope
envelope response = envelope_of_body response.body

-- `response.is_success`
unfoldable pub is_success : Response → Bool
is_success response = leb 200 response.status && leb response.status 299

-- `seconds if 0 <= seconds <= MAX_RETRY_AFTER else None`
abbrev short_wait : Option ℤ → Option ℕ
short_wait (some (pos seconds)) = if leb seconds max_retry_after then some seconds else none
short_wait (some (negsuc _)) = none
short_wait none = none

abbrev header_value : (String → Option ℤ) → Option String → Option ℤ
header_value int none = none
header_value int (some value) = int value

abbrev pub has_code : String → Option Envelope → Bool
has_code code none = false
has_code code (some e) = e.code =? code

-- `_rate_limit_wait`
unfoldable pub rate_limit_wait : (String → Option ℤ) → Response → Option Envelope → Option ℕ
rate_limit_wait int response e =
    if not (response.status == 429)
    then none
    else if not (has_code "RateLimitExceededError" e)
    then none
    else short_wait (header_value int response.retry_after)

-- `_REJECTED_STATUSES`
unfoldable pub is_rejected_status : ℕ → Bool
is_rejected_status s = s == 400 || s == 409 || s == 413 || s == 415 || s == 422

abbrev status_details : ℕ → Members
status_details status = member "status" (number (pos status)) last

-- `_error_of`, once the envelope is read
unfoldable pub enveloped_error : ℕ → Envelope → GuestReplyError
enveloped_error status e =
    if status == 404 && (e.code =? "NotFoundError")
    then new_error document_not_found "document not found" (some e.code) e.details
    else if status == 429
    then new_error limit_reached e.message (some e.code) e.details
    else if status == 502 && (e.code =? "UpstreamLlmError")
    then new_error provider_unavailable
        "the LLM provider is unavailable; llm-client already retried — try again later"
        (some e.code) e.details
    else if is_rejected_status status
    then new_error request_rejected e.message (some e.code) e.details
    else new_error unexpected_response e.message (some e.code) e.details

abbrev error_without : ℕ → Option Envelope → String → GuestReplyError
error_without status none origin =
    new_error unexpected_response
      (origin
        ⧺ (" answered "
            ⧺ (str status ⧺ " outside its contract — does the URL point at the right service?")))
      none (status_details status)
error_without status (some e) origin = enveloped_error status e

-- `_error_of`
unfoldable pub error_of : Response → Option Envelope → String → GuestReplyError
error_of response e origin =
    if response.status == 401
    then new_error token_rejected
        (origin
          ⧺ (" refused the token — expired, or not minted for this stack; mint a new one: "
              ⧺ "make -s -C holahost/tools/dev-minter token"))
        none last
    else if response.status == 503
    then new_error service_unreachable
        (origin
          ⧺ (" cannot validate tokens right now (503) — on dev, is the dev minter up, and "
              ⧺ "does the service's JWKS_URL name it (http://dev-minter:8081/.well-known/jwks.json)?"))
        none last
    else error_without response.status e origin

-- `StaticToken.authorization`
unfoldable pub authorization : String → String
authorization token = "Bearer " ⧺ token

-- The request that a call sends.
unfoldable pub request_of : ServiceCaller → Call → Request
request_of caller call = record {
  verb = call.verb;
  url = caller.origin ⧺ (caller.api_base ⧺ call.path);
  authorization = authorization caller.token;
  request_id = caller.request_id;
  read_timeout = call.read_timeout;
  connect_timeout = connect_timeout;
  json = call.json;
  data_fields = call.data_fields;
  file = call.file;
}

abbrev pub received : String → Outcome → Result Raised Response
received origin (answered response) = ok response
received origin (timed_out name) = err (
    failed
      (new_error service_unreachable (origin ⧺ (" did not answer in time (" ⧺ (name ⧺ ")"))) none
        last)
      none)
received origin (transport_failed name) = err (
    failed
      (new_error service_unreachable
        (origin ⧺ (" is unreachable (" ⧺ (name ⧺ ") — is its stack up?"))) none last)
      none)
received origin other_exception = err (defect [])

-- `on_wait` and `sleep`
unfoldable pub wait_out : ℕ → M (Unit {0})
wait_out seconds w =
    (ok tt, record w { waited = seconds ∷ w.waited; stderr = rate_limited seconds ∷ w.stderr })

-- `raise _error_of(…)`
unfoldable pub refuse : {A : Type 0} → ServiceCaller → Response → M A
refuse caller response = raise (failed (error_of response (envelope response) caller.origin) none)

module _ (env : Env) (caller : ServiceCaller) where
  -- `_send`
  unfoldable pub send_once : Call → M Response
  send_once call w =
      let request = request_of caller call in
      (received caller.origin (env.answer w.sent request), record w { sent = request ∷ w.sent })

  -- `_call`, of which so many more waits are allowed
  unfoldable pub call_left : ℕ → Call → M Response
  call_left zero call = do
    response ← send_once call
    if is_success response then pure response else refuse caller response
  call_left (suc left) call = do
    response ← send_once call
    if is_success response
        then pure response
        else elim (rate_limit_wait env.int response (envelope response)) [
          | none ↦ refuse caller response
          | some wait ↦ wait_out wait >> call_left left call
        ]

  -- `_call`
  unfoldable pub call_service : Call → M Response
  call_service call = call_left retry_on_429_max call

  abbrev pub validated : {A : Type 0} → Call → Response → Option A → M A
  validated call response (some value) = pure value
  validated call response none = raise (
      failed
        (new_error unexpected_response
          (caller.origin
            ⧺ (" answered "
                ⧺ (call.verb ⧺ (" " ⧺ (call.path ⧺ " with a body outside its contract")))))
          none (status_details response.status))
        none)

  abbrev pub model_of : {A : Type 0} → (Json → Option A) → Option Json → Option A
  model_of model none = none
  model_of model (some json) = model json

  -- `fetch`
  unfoldable pub fetch : {A : Type 0} → (Json → Option A) → Call → M A
  fetch model call = do
    response ← call_service call
    validated call response (model_of model response.body)

  -- `send`
  unfoldable pub send : Call → M (Unit {0})
  send call = do _ ← call_service call; pure tt
