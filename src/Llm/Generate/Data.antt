-- ===== src/Llm/Generate/Data.antt =====
-- The data of the `generate` use case: its command and result (application/dto/generation.py), what
-- it raises (application/exceptions, application/ports/exceptions.py), the `_Call` that one
-- execution accumulates, and the world that its ports act on.
use holahost.Base.{ℕ, String, Bool, Option, List, Result, ok, err}
use holahost.Base.Int.{ℤ}
use holahost.Base.Dict.{Dict}
pub use holahost.Db.{StorageError, storage_unavailable, concurrent_update, integrity}
use holahost.Llm.Values.{
  ClientId, Subject, ProviderName, ModelId, IdempotencyKey, Usage, Message, BudgetScope,
  FinishReason, IdempotencyState, DomainValidationError,
}
use holahost.Llm.Entities.{Model, Budget, UsageRecord, DateTime}
use holahost.Llm.Idempotency.{InMemoryIdempotencyStore}

pub record MessageInput : Type 0 where
  pub role : String
  pub text : String

-- A temperature is a number of millionths.
pub record GenerateCmd : Type 0 where
  pub client_id : String
  pub subject : String
  pub request_id : String
  pub model_ref : String
  pub system : String
  pub messages : List MessageInput
  pub max_tokens : Option ℤ
  pub temperature : Option ℤ
  pub stop : Option (List String)
  pub idempotency_key : Option String

pub record GenerateResult : Type 0 where
  pub text : String
  pub input_tokens : ℕ
  pub output_tokens : ℕ
  pub provider : String
  pub model : String
  pub finish_reason : FinishReason
  pub downgraded : Bool
  pub failed_over : Bool
  pub attempts : ℕ
  pub provider_timeouts : ℕ
  pub provider_ms : ℤ

-- `ProviderRejectedRequestError`, by its status
pub record Rejection : Type 0 where
  pub status : Option ℕ

-- What `execute` may raise.
pub data Raised : Type 0 where
  domain_validation : DomainValidationError → Raised
  invalid_payload : String → Option ℕ → Raised
  unknown_model : String → List String → Raised
  duplicate_request : IdempotencyState → Raised
  context_overflow : ℕ → ℕ → Raised
  request_too_slow : ℕ → ℕ → Raised
  budget_exhausted : BudgetScope → DateTime → Raised
  upstream_llm : ℕ → Option ℕ → ℕ → Raised
  content_refused : ProviderName → ModelId → Usage → Raised
  usage_not_recorded : Usage → ProviderName → ModelId → StorageError → Raised
  provider_rejected : Rejection → Raised
  storage : StorageError → Raised
  -- a port used outside a unit of work
  no_transaction : Raised

-- `Generation` (application/ports/generation.py)
pub record Generation : Type 0 where
  pub text : String
  pub usage : Usage
  pub finish_reason : FinishReason

-- How a provider call ends, in the port's terms; a `Retry-After` is in microseconds.
pub data Outcome : Type 0 where
  answered : Generation → Outcome
  transient : Option ℕ → Option ℤ → Outcome
  rejected : Rejection → Outcome
  refused : Usage → Outcome

-- A provider call: what it was asked, whether a transaction was open, and how it ended.
pub record Attempt : Type 0 where
  pub model : Model
  pub max_tokens : ℕ
  -- the reading of the clock that the timeout was computed from, and the timeout
  pub at : ℕ
  pub timeout : ℤ
  pub in_transaction : Bool
  pub outcome : Outcome

-- What the ports act on. The counters say how many times each source of the environment was asked.
pub record World : Type 0 where
  pub monotonics : ℕ
  pub randoms : ℕ
  pub instants : ℕ
  pub units : ℕ
  pub queries : ℕ
  pub generations : ℕ
  -- a unit of work is open; the rows that it has inserted
  pub in_transaction : Bool
  pub pending : List UsageRecord
  -- the committed usage log
  pub table : List UsageRecord
  pub store : InMemoryIdempotencyStore
  -- the provider calls, the latest first, and the pauses between them
  pub calls : List Attempt
  pub slept : List ℕ

-- `_Call`. The validated `max_tokens` is a number; times are microseconds.
pub record Call : Type 0 where
  pub cmd : GenerateCmd
  pub max_tokens : Option ℕ
  pub client_id : ClientId
  pub subject : Subject
  pub messages : List Message
  pub key : Option IdempotencyKey
  pub requested_model : Model
  pub deadline : ℕ
  pub input_tokens : ℕ
  pub downgraded : Bool
  pub key_settled : Bool
  pub attempts : ℕ
  pub provider_time : ℤ
  pub transient_failures : ℕ
  pub provider_timeouts : ℕ
  pub last_transient_status : Option ℕ
  pub rejection : Option Rejection
  pub provider_budgets : Dict ProviderName Budget

pub record State : Type 0 where
  pub call : Call
  pub world : World

-- A method of the use case: it returns or raises, and what it wrote stays written.
abbrev pub M : Type 0 → Type 0
M A = State → Result Raised A × State

module _ {A : Type 0} where
  unfoldable pub pure : A → M A
  pure a s = (ok a, s)

  unfoldable pub raise : Raised → M A
  raise e s = (err e, s)

  unfoldable pub gets : (State → A) → M A
  gets f s = (ok (f s), s)

module _ {A B : Type 0} where
  abbrev pub continue : Result Raised A → (A → M B) → M B
  continue (ok a) f s = f a s
  continue (err e) f s = (err e, s)

  infixl 10 ◌>>=◌ ◌>>◌
  unfoldable pub ◌>>=◌ : M A → (A → M B) → M B
  ◌>>=◌ m f s = let (r, s') = m s in continue r f s'

  abbrev pub ◌>>◌ : M A → M B → M B
  m >> n = m >>= λ _. n

unfoldable pub modify : (State → State) → M (Unit {0})
modify f s = (ok tt, f s)

unfoldable pub modify_call : (Call → Call) → M (Unit {0})
modify_call f s = (ok tt, record s { call = f s.call })

unfoldable pub modify_world : (World → World) → M (Unit {0})
modify_world f s = (ok tt, record s { world = f s.world })
