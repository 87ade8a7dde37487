-- ===== src/Llm/Generate/Checks.antt =====
-- What `execute` checks of its command before it reaches outside (the functions below the class in
-- application/use_cases/generate.py, and the head of `execute`).
use holahost.Base.{
  ℕ, ◌+◌, String, false, ◌&&◌, ◌||◌, Option, none, some, List, [], ◌∷◌, Result, ok, err, ltb, any,
  length, if◌then◌else◌,
}
use holahost.Base.Int.{ℤ, pos, pos_part, leb_ℤ, ltb_ℤ}
use holahost.Base.Equality.{◌=?◌, string_eq}
use holahost.Llm.Values.{
  Valid, IdempotencyKey, Message, make_message, make_role, make_client_id, make_subject,
  make_idempotency_key, max_idempotency_key_length,
}
use holahost.Llm.Entities.{Model}
use holahost.Llm.Registry.{ConfigProvidersRepo, resolve, aliases}
use holahost.Llm.Estimates.{
  max_output_tokens, max_stop_sequences, retry_total_budget, estimate_input_tokens,
}
use holahost.Llm.Generate.Data.{
  GenerateCmd, MessageInput, Raised, invalid_payload, unknown_model, Call,
}

abbrev pub Checked : Type 0 → Type 0
Checked A = Result Raised A

infixl 10 ◌>>=◌ ◌>>◌
abbrev pub ◌>>=◌ : {A B : Type 0} → Checked A → (A → Checked B) → Checked B
ok a >>= f = f a
err e >>= f = err e

abbrev pub ◌>>◌ : {A B : Type 0} → Checked A → Checked B → Checked B
m >> n = m >>= λ _. n

-- `error.field or default`; the empty text is falsy.
abbrev field_or : String → Option String → String
field_or default none = default
field_or default (some field) = if field =? "" then default else field

-- `except DomainValidationError as error: raise InvalidPayloadError(…)`
abbrev or_invalid : {A : Type 0} → String → Option ℕ → Valid A → Checked A
or_invalid default limit (ok a) = ok a
or_invalid default limit (err e) = err (invalid_payload (field_or default e.field) limit)

abbrev passed : {A : Type 0} → Valid A → Checked A
passed (ok a) = ok a
passed (err e) = err (Raised.domain_validation e)

unfoldable pub message_of : MessageInput → Checked Message
message_of item = elim (make_role item.role) [
  | none ↦ err (invalid_payload "messages" none)
  | some role ↦ or_invalid "messages" none (make_message role item.text)
]

unfoldable pub messages_of : List MessageInput → Checked (List Message)
unfolding message_of
messages_of [] = ok []
messages_of (item ∷ inputs) = do
  message ← message_of item
  rest ← messages_of inputs
  ok (message ∷ rest)

-- `_messages`
unfoldable pub check_messages : List MessageInput → Checked (List Message)
unfolding messages_of
check_messages [] = err (invalid_payload "messages" none)
check_messages (item ∷ inputs) = messages_of (item ∷ inputs)

-- `_check_max_tokens`; what passes is a positive number.
unfoldable pub check_max_tokens : Option ℤ → Checked (Option ℕ)
check_max_tokens none = ok none
check_max_tokens (some value) =
    if ltb_ℤ value (pos 1)
    then err (invalid_payload "max_tokens" (some max_output_tokens))
    else ok (some (pos_part value))

-- 1.0, in millionths
abbrev max_temperature : ℤ
max_temperature = pos 1_000_000

-- `_check_temperature`
unfoldable pub check_temperature : Option ℤ → Checked (Unit {0})
check_temperature none = ok tt
check_temperature (some value) =
    if leb_ℤ (pos 0) value && leb_ℤ value max_temperature
    then ok tt
    else err (invalid_payload "temperature" none)

-- `_check_stop`
unfoldable pub check_stop : Option (List String) → Checked (Unit {0})
unfolding any
check_stop none = ok tt
check_stop (some stops) =
    if ltb max_stop_sequences (length stops) || any (λ stop. stop =? "") stops
    then err (invalid_payload "stop" (some max_stop_sequences))
    else ok tt

-- `_idempotency_key`
unfoldable pub check_idempotency_key : Option String → Checked (Option IdempotencyKey)
check_idempotency_key none = ok none
check_idempotency_key (some value) = do
  key ← or_invalid "idempotency_key" (some max_idempotency_key_length) (make_idempotency_key value)
  ok (some key)

abbrev first_of_chain : ConfigProvidersRepo → String → List Model → Checked (Model × List Model)
first_of_chain repo model_ref [] = err (unknown_model model_ref (aliases repo))
first_of_chain repo model_ref (first ∷ rest) = ok (first, rest)

-- The head of `execute`, up to the `_Call`, from a first reading of the clock: the call, and the
-- candidates as the first one and the others.
unfoldable pub prepare : ConfigProvidersRepo → GenerateCmd → ℕ → Checked (Call × Model × List Model)
prepare repo cmd now = do
  client_id ← passed (make_client_id cmd.client_id)
  subject ← passed (make_subject cmd.subject)
  messages ← check_messages cmd.messages
  key ← check_idempotency_key cmd.idempotency_key
  max_tokens ← check_max_tokens cmd.max_tokens
  check_temperature cmd.temperature
  check_stop cmd.stop
  candidates ← first_of_chain repo cmd.model_ref (resolve cmd.model_ref repo)
  ok (
    record {
      cmd = cmd;
      max_tokens = max_tokens;
      client_id = client_id;
      subject = subject;
      messages = messages;
      key = key;
      requested_model = candidates.0;
      deadline = now + retry_total_budget;
      input_tokens = estimate_input_tokens cmd.system messages;
      downgraded = false;
      key_settled = false;
      attempts = 0;
      provider_time = pos 0;
      transient_failures = 0;
      provider_timeouts = 0;
      last_transient_status = none;
      rejection = none;
      provider_budgets = [];
    },
    candidates.0,
    candidates.1,
  )
