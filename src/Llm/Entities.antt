-- ===== src/Llm/Entities.antt =====
-- The entities of domain/entities. Python's integers are ℤ where a constructor tests their sign and
-- ℕ once it has. An instant is a number of microseconds since the epoch, UTC, with whether it
-- carries a time zone.
use holahost.Base.{
  ℕ, ◌+◌, String, Bool, true, false, ◌&&◌, ◌||◌, Option, none, some, ok, leb, not, if◌then◌else◌,
}
use holahost.Base.Int.{ℤ, pos, pos_part, leb_ℤ, ltb_ℤ}
use holahost.Base.Equality.{◌=?◌, string_eq}
use holahost.Base.Text.{is_blank}
use holahost.Llm.Values.{
  Valid, invalid, ClientId, Subject, ProviderName, ModelId, Usage, BudgetScope, GenerationId,
  provider_name_eq,
}

-- Kept for reporting and used in no calculation: coefficient and exponent of ten.
pub record Decimal : Type 0 where
  pub coefficient : ℤ
  pub exponent : ℤ

pub record DateTime : Type 0 where
  pub micros : ℕ
  pub is_aware : Bool

pub record Provider : Type 0 where
  pub name : ProviderName
  pub enabled : Bool
  pub api_key_ref : Option String

abbrev has_text : Option String → Bool
has_text none = false
has_text (some ref) = not (is_blank ref)

unfoldable pub make_provider : ProviderName → Bool → Option String → Valid Provider
make_provider name enabled api_key_ref =
    if enabled && not (has_text api_key_ref)
    then invalid "An enabled Provider must have an api_key_ref" none
    else ok (record { name = name; enabled = enabled; api_key_ref = api_key_ref })

pub record Model : Type 0 where
  pub provider : Provider
  pub id : ModelId
  pub max_context : ℕ
  pub max_output : ℕ
  pub price_in : Decimal
  pub price_out : Decimal
  pub tokens_per_second : ℕ
  pub deprecated : Bool

unfoldable pub make_model : Provider → ModelId → ℤ → ℤ → Decimal → Decimal → ℤ → Bool → Valid Model
make_model provider id max_context max_output price_in price_out tokens_per_second deprecated =
    if leb_ℤ max_output (pos 0)
    then invalid "Model max_output must be positive" none
    else if leb_ℤ max_context max_output
    then invalid "Model max_context must exceed max_output" none
    else if leb_ℤ tokens_per_second (pos 0)
    then invalid "Model tokens_per_second must be positive" none
    else ok (record {
      provider = provider;
      id = id;
      max_context = pos_part max_context;
      max_output = pos_part max_output;
      price_in = price_in;
      price_out = price_out;
      tokens_per_second = pos_part tokens_per_second;
      deprecated = deprecated;
    })

-- `Model.__eq__`: the provider's name and the identifier
unfoldable pub same_model : Model → Model → Bool
same_model a b = a.provider.name =? b.provider.name && a.id.value =? b.id.value

pub data BudgetKey : Type 0 where
  of_client : ClientId → BudgetKey
  of_provider : ProviderName → BudgetKey

pub record Budget : Type 0 where
  pub scope : BudgetScope
  pub key : BudgetKey
  pub window_start : DateTime
  pub spent : Usage
  pub caps : Usage

-- `isinstance(self.key, expected)`
abbrev key_fits : BudgetScope → BudgetKey → Bool
key_fits BudgetScope.provider (of_provider _) = true
key_fits BudgetScope.provider (of_client _) = false
key_fits BudgetScope.client (of_client _) = true
key_fits BudgetScope.client (of_provider _) = false
key_fits BudgetScope.client_downgrade (of_client _) = true
key_fits BudgetScope.client_downgrade (of_provider _) = false

unfoldable pub make_budget : BudgetScope → BudgetKey → DateTime → Usage → Usage → Valid Budget
make_budget scope key window_start spent caps =
    if leb caps.input_tokens.value 0 || leb caps.output_tokens.value 0
    then invalid "Budget caps must be positive" none
    else if not window_start.is_aware
    then invalid "Budget window_start must carry a time zone" none
    else if not (key_fits scope key)
    then invalid "Budget key must match its scope" none
    else ok (record {
      scope = scope;
      key = key;
      window_start = window_start;
      spent = spent;
      caps = caps;
    })

unfoldable pub is_exhausted : Budget → Bool
is_exhausted b =
    leb b.caps.input_tokens.value b.spent.input_tokens.value
    || leb b.caps.output_tokens.value b.spent.output_tokens.value

-- one day, in microseconds
abbrev pub budget_window : ℕ
budget_window = 86_400_000_000

unfoldable pub resets_at : Budget → DateTime
resets_at b = record b.window_start { micros = b.window_start.micros + budget_window }

pub record UsageRecord : Type 0 where
  pub id : GenerationId
  pub request_id : String
  pub client_id : ClientId
  pub subject : Subject
  pub provider : ProviderName
  pub model : ModelId
  pub usage : Usage
  pub latency_ms : ℕ
  pub downgraded : Bool
  pub failed_over : Bool
  pub created_at : DateTime

-- `UsageRecord.create`, given the fresh identifier and the present instant
unfoldable pub create_usage_record :
    GenerationId
    → DateTime
    → String
    → ClientId
    → Subject
    → ProviderName
    → ModelId
    → Usage
    → ℤ
    → Bool
    → Bool
    → Valid UsageRecord
create_usage_record id now request_id client_id subject provider model usage latency_ms downgraded
      failed_over =
    if ltb_ℤ latency_ms (pos 0)
    then invalid "UsageRecord latency_ms must not be negative" none
    else ok (record {
      id = id;
      request_id = request_id;
      client_id = client_id;
      subject = subject;
      provider = provider;
      model = model;
      usage = usage;
      latency_ms = pos_part latency_ms;
      downgraded = downgraded;
      failed_over = failed_over;
      created_at = now;
    })
