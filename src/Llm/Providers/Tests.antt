-- ===== src/Llm/Providers/Tests.antt =====
-- A registry of one provider that is on and one that is off, from its file to the adapter.
use holahost.Base.{
  ℕ, ◌≡◌, refl, String, Bool, true, false, Option, none, some, List, [], ◌∷◌, map, All, Result, ok,
  err,
}
use holahost.Base.Int.{pos}
use holahost.Base.Equality.{string_eq, pair_eq}
use holahost.Base.Dict.{Dict, get}
use holahost.Auth.{text, member, last, number}
use holahost.Llm.Values.{BudgetPolicy, Usage}
use holahost.Llm.Entities.{Model}
use holahost.Llm.Config.{ModelEntry, ProviderEntry, ModelRef, RegistryFile, check_references}
use holahost.Llm.Config.Keys.{read_provider_keys}
use holahost.Llm.Registry.{ConfigProvidersRepo, init, resolve, downgrade_targets}
use holahost.Llm.Registry.Load.{load_providers_repo}
use holahost.Llm.Registry.Load.Resolution.{Loads, load_providers_repo-Loads}
use holahost.Llm.Generate.Samples.{sonnet}
use holahost.Llm.Dialects.{Env, ChatModel, Dialect, anthropic_dialect, dialects}
use holahost.Llm.Providers.{
  LangchainGenerationProvider, prompt_of, generate, build_generation_provider,
}
use holahost.Llm.Providers.Accounts.{Accounted, generate-Accounted}
use holahost.Llm.Providers.Startup.{start-Serves}
use holahost.Llm.Providers.Ready.{IsServed}

abbrev spec : ModelEntry
spec = record {
  max_context = pos 200000;
  max_output = pos 1000;
  price_in = record { coefficient = pos 3; exponent = pos 0 };
  price_out = record { coefficient = pos 15; exponent = pos 0 };
  tokens_per_second = pos 100;
  deprecated = false;
}

abbrev file : RegistryFile
file = record {
  providers =
      (
        "anthropic",
        record {
          enabled = true;
          api_key_ref = some "anthropic-api-key";
          models = ("m1", spec) ∷ [];
        },
      )
      ∷ ("other", record { enabled = false; api_key_ref = none; models = ("m2", spec) ∷ [] })
      ∷ [];
  aliases =
      (
        "default",
        record { provider = "other"; model = "m2" }
            ∷ record { provider = "anthropic"; model = "m1" }
            ∷ [],
      )
      ∷ [];
  downgrade_targets = record { provider = "anthropic"; model = "m1" } ∷ [];
  on_budget_exhausted = record { default = BudgetPolicy.reject; overrides = [] };
}

file-checked : check_references file ≡ ok file
unfolding check_references holahost.Llm.Config.problems holahost.Llm.Config.alias_problems
    holahost.Llm.Config.problems_of_aliases holahost.Llm.Config.model_ids
    holahost.Llm.Config.has_repeat holahost.Llm.Config.chain_problems holahost.Llm.Config.find_model
    holahost.Llm.Config.target_problems holahost.Llm.Config.provider_problems
    holahost.Llm.Config.counter holahost.Llm.Config.policy_problems holahost.Base.any get
    holahost.Base.keep holahost.Base.Dict.put
file-checked = refl

load_providers_repo-Loads_example : Loads file (load_providers_repo file ("anthropic" ∷ []))
load_providers_repo-Loads_example = load_providers_repo-Loads file ("anthropic" ∷ []) file-checked

abbrev repo : ConfigProvidersRepo
repo = elim (load_providers_repo file ("anthropic" ∷ [])) [ ok r ↦ r | err _ ↦ init [] [] [] ]

file-loaded : load_providers_repo file (map (λ (e : String × Dialect). e.0) dialects) ≡ ok repo
unfolding load_providers_repo dialects holahost.Llm.Registry.Load.unsupported
    holahost.Llm.Registry.sorted holahost.Llm.Registry.Load.add_providers
    holahost.Llm.Values.make_provider_name holahost.Base.Text.is_blank
    holahost.Llm.Entities.make_provider holahost.Llm.Values.make_model_id
    holahost.Llm.Entities.make_model holahost.Base.Dict.put holahost.Llm.Registry.Load.is_too_slow
    holahost.Llm.Estimates.generation_seconds holahost.Llm.Estimates.output_ceiling
    holahost.Llm.Registry.Load.repo_of holahost.Llm.Registry.Load.chains get
file-loaded = refl

abbrev environ : Dict String String
environ = ("ANTHROPIC_API_KEY", "k") ∷ []

keys-read : read_provider_keys file environ ≡ ok (("anthropic", "k") ∷ [])
unfolding read_provider_keys holahost.Llm.Config.Keys.read_keys holahost.Llm.Config.enabled_key_refs
    holahost.Llm.Config.key_refs holahost.Base.Text.is_blank get holahost.Base.Dict.put
keys-read = refl

start-Serves_example :
    (adapter : LangchainGenerationProvider) × (build_generation_provider dialects file
        (("anthropic", "k") ∷ [])
        none
      ≡ ok adapter)
    × ((model_ref : String) → All (IsServed adapter) (resolve model_ref repo))
    × All (IsServed adapter) (downgrade_targets repo)
start-Serves_example =
    start-Serves dialects file environ (("anthropic", "k") ∷ []) none repo file-loaded keys-read

abbrev chat_model : ChatModel
chat_model = anthropic_dialect.chat_model sonnet.id.value "k" none

abbrev sample_adapter : LangchainGenerationProvider
sample_adapter = record {
  chat_models = ((sonnet.provider.name.value, sonnet.id.value), chat_model) ∷ [];
  dialects = dialects;
}

chat_model-found :
    get (sonnet.provider.name.value, sonnet.id.value) sample_adapter.chat_models ≡ some chat_model
unfolding get
chat_model-found = refl

abbrev declining : Env
declining = record {
  invoke = λ _. ok (record {
    text = "";
    usage_metadata = some (pos 12, pos 3);
    response_metadata =
        member "stop_reason" (text "refusal") (member "usage" (number (pos 15)) last);
  });
  float = λ _. none;
}

generate-Accounted_example :
    Accounted
      (declining.invoke (record {
        chat_model = chat_model;
        prompt = prompt_of "Be brief." [];
        stop = none;
        max_tokens = 100;
        temperature = none;
        timeout = anthropic_dialect.timeout (pos 20_000_000);
      }))
      (generate declining sample_adapter sonnet "Be brief." [] 100 none none (pos 20_000_000))
generate-Accounted_example =
    generate-Accounted declining sample_adapter sonnet chat_model "Be brief." [] 100 none none
      (pos 20_000_000) refl refl chat_model-found
