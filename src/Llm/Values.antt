-- ===== src/Llm/Values.antt =====
-- The value objects of domain/value_objects: a record of the validated value, and the constructor
-- that validates it. A token count is a number, since its constructor refuses a negative one.
use text.Mathlib.TextEquality.{eq_iff}
use Prim.Native.String.{count}
use holahost.Base.{
  ℕ, String, true, ◌&&◌, Option, none, some, Result, ok, err, leb, if◌then◌else◌, ◌≡◌, ◌↔◌, arith,
}
use holahost.Base.Int.{ℤ, pos, negsuc}
use holahost.Base.Equality.{Eq, ◌=?◌, string_eq}
use holahost.Base.Text.{is_blank}

-- domain/exceptions.py
pub record DomainValidationError : Type 0 where
  pub text : String
  pub field : Option String

pub record ClientId : Type 0 where
  pub value : String

pub record Subject : Type 0 where
  pub value : String

pub record ProviderName : Type 0 where
  pub value : String

pub record ModelId : Type 0 where
  pub value : String

pub record IdempotencyKey : Type 0 where
  pub value : String

pub record TokenCount : Type 0 where
  pub value : ℕ

pub record Usage : Type 0 where
  pub input_tokens : TokenCount
  pub output_tokens : TokenCount

pub data Role : Type 0 where
  user : Role

pub record Message : Type 0 where
  pub role : Role
  pub text : String

pub data BudgetPolicy : Type 0 where
  reject downgrade : BudgetPolicy

pub data BudgetScope : Type 0 where
  client client_downgrade provider : BudgetScope

pub data FinishReason : Type 0 where
  stop max_tokens : FinishReason

pub data IdempotencyState : Type 0 where
  in_flight completed : IdempotencyState

-- A `uuid4`; only compared.
pub record GenerationId : Type 0 where
  pub value : ℕ

abbrev pub Valid : Type 0 → Type 0
Valid A = Result DomainValidationError A

abbrev pub invalid : {A : Type 0} → String → Option String → Valid A
invalid text field = err (record { text = text; field = field })

unfoldable pub make_client_id : String → Valid ClientId
make_client_id value =
    if is_blank value
    then invalid "ClientId must not be empty" none
    else ok (record { value = value })

unfoldable pub make_subject : String → Valid Subject
make_subject value =
    if is_blank value
    then invalid "Subject must not be empty" none
    else ok (record { value = value })

unfoldable pub make_provider_name : String → Valid ProviderName
make_provider_name value =
    if is_blank value
    then invalid "ProviderName must not be empty" none
    else ok (record { value = value })

unfoldable pub make_model_id : String → Valid ModelId
make_model_id value =
    if is_blank value
    then invalid "ModelId must not be empty" none
    else ok (record { value = value })

abbrev pub max_idempotency_key_length : ℕ
max_idempotency_key_length = 128

unfoldable pub make_idempotency_key : String → Valid IdempotencyKey
make_idempotency_key value =
    if leb 1 (count value) && leb (count value) max_idempotency_key_length
    then ok (record { value = value })
    else invalid "IdempotencyKey length must be 1..128" (some "idempotency_key")

unfoldable pub make_token_count : ℤ → Valid TokenCount
make_token_count (pos n) = ok (record { value = n })
make_token_count (negsuc n) = invalid "TokenCount must not be negative" none

unfoldable pub make_message : Role → String → Valid Message
make_message role text =
    if is_blank text
    then invalid "Message text must not be empty" (some "messages")
    else ok (record { role = role; text = text })

-- `Role(value)` of the enum, which raises a bare `ValueError`
unfoldable pub make_role : String → Option Role
make_role value = if value =? "user" then some Role.user else none

-- Frozen dataclasses are equal when their values are.
pub client_id_beq_iff : (a b : ClientId) → ((a.value =? b.value) ≡ true) ↔ (a ≡ b)
client_id_beq_iff a b = ground (arith, eq_iff a.value b.value)

instance abbrev pub client_id_eq : Eq ClientId
client_id_eq = record { beq = λ a b. a.value =? b.value; beq_iff = client_id_beq_iff }

pub provider_name_beq_iff : (a b : ProviderName) → ((a.value =? b.value) ≡ true) ↔ (a ≡ b)
provider_name_beq_iff a b = ground (arith, eq_iff a.value b.value)

instance abbrev pub provider_name_eq : Eq ProviderName
provider_name_eq = record { beq = λ a b. a.value =? b.value; beq_iff = provider_name_beq_iff }

pub idempotency_key_beq_iff : (a b : IdempotencyKey) → ((a.value =? b.value) ≡ true) ↔ (a ≡ b)
idempotency_key_beq_iff a b = ground (arith, eq_iff a.value b.value)

instance abbrev pub idempotency_key_eq : Eq IdempotencyKey
idempotency_key_eq = record { beq = λ a b. a.value =? b.value; beq_iff = idempotency_key_beq_iff }
