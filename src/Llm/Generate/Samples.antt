-- ===== src/Llm/Generate/Samples.antt =====
-- A small registry, command and environment to run the use case on.
use holahost.Base.{ℕ, zero, suc, ◌+◌, ◌*◌, true, false, none, some, [], ◌∷◌}
use holahost.Base.Int.{pos}
use holahost.Llm.Values.{
  ClientId, IdempotencyState, IdempotencyKey, Usage, Role, BudgetPolicy, FinishReason,
}
use holahost.Llm.Entities.{Provider, Model, Decimal}
use holahost.Llm.Registry.{ConfigProvidersRepo}
use holahost.Llm.Idempotency.{identify}
use holahost.Llm.Generate.Data.{GenerateCmd, World, Call, Outcome, answered, transient}
use holahost.Llm.Generate.Ports.{Env}

abbrev pub free : Decimal
free = record { coefficient = pos 0; exponent = pos 0 }

abbrev pub anthropic : Provider
anthropic = record {
  name = record { value = "anthropic" };
  enabled = true;
  api_key_ref = some "anthropic-key";
}

abbrev pub backup : Provider
backup = record {
  name = record { value = "backup" };
  enabled = true;
  api_key_ref = some "backup-key";
}

abbrev pub sonnet : Model
sonnet = record {
  provider = anthropic;
  id = record { value = "sonnet" };
  max_context = 200_000;
  max_output = 8_000;
  price_in = free;
  price_out = free;
  tokens_per_second = 60;
  deprecated = false;
}

abbrev pub haiku : Model
haiku = record sonnet { provider = backup; id = record { value = "haiku" } }

abbrev pub usage_of : ℕ → ℕ → Usage
usage_of i o = record { input_tokens = record { value = i }; output_tokens = record { value = o } }

abbrev pub repo : ConfigProvidersRepo
repo = record { chains = ("default", sonnet ∷ haiku ∷ []) ∷ []; models = []; targets = haiku ∷ [] }

abbrev pub cmd : GenerateCmd
cmd = record {
  client_id = "tool";
  subject = "tool";
  request_id = "r1";
  model_ref = "default";
  system = "";
  messages = record { role = "user"; text = "hi" } ∷ [];
  max_tokens = some (pos 100);
  temperature = none;
  stop = none;
  idempotency_key = some "k1";
}

-- The clock ticks a millisecond at each reading; the providers end as given.
abbrev pub env : (ℕ → Outcome) → Env
env vendor = record {
  readings = λ i. i * 1_000;
  wall = λ i. 1_700_000_000_000_000 + i;
  random = λ i. 500_000;
  fresh = λ i. record { value = i };
  vendor = vendor;
  others = λ i. [];
  connect = λ i. none;
  leave = λ i. none;
  query = λ i. none;
  repo = repo;
  caps = λ scope. usage_of 1_000 1_000;
  default_budget_policy = BudgetPolicy.reject;
  budget_policy_overrides = [];
}

abbrev pub answer : Outcome
answer =
    answered (record { text = "hello"; usage = usage_of 12 34; finish_reason = FinishReason.stop })

-- The first call meets an overload, the others answer.
abbrev pub overloaded_once : ℕ → Outcome
overloaded_once zero = transient (some 529) none
overloaded_once (suc i) = answer

abbrev pub world : World
world = record {
  monotonics = 0;
  randoms = 0;
  instants = 0;
  units = 0;
  queries = 0;
  generations = 0;
  in_transaction = false;
  pending = [];
  table = [];
  store = record { ttl = 86_400_000_000; records = [] };
  calls = [];
  slept = [];
}

abbrev pub key : IdempotencyKey
key = record { value = "k1" }

abbrev pub client : ClientId
client = record { value = "tool" }

-- The world in which another request holds the key.
abbrev pub busy : World
busy = record world {
  store = record {
    ttl = 86_400_000_000;
    records =
        (
          identify client key,
          record {
            client_id = client;
            key = key;
            state = IdempotencyState.in_flight;
            usage = none;
            expires_at = 1_700_086_400_000_000;
          },
        )
        ∷ [];
  };
}

abbrev pub call : Call
call = record {
  cmd = cmd;
  max_tokens = some 100;
  client_id = record { value = "tool" };
  subject = record { value = "tool" };
  messages = record { role = Role.user; text = "hi" } ∷ [];
  key = some key;
  requested_model = sonnet;
  deadline = 25_000_000;
  input_tokens = 34;
  downgraded = false;
  key_settled = false;
  attempts = 0;
  provider_time = pos 0;
  transient_failures = 0;
  provider_timeouts = 0;
  last_transient_status = none;
  rejection = none;
  provider_budgets = [];
}
