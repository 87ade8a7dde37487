-- ===== src/Llm/Providers.antt =====
-- The generation adapter (infrastructure/providers/langchain_generation_provider.py): every model of
-- every enabled provider has a chat model. The log event of an unmapped stop reason is left out.
pub mod Accounts
pub mod Built
pub mod Ready
pub mod Startup
mod Tests
use Prim.Native.String.{◌++◌ as ◌⧺◌}
use holahost.Base.{
  ℕ, ◌≡◌, ◌↔◌, String, Bool, true, false, ◌&&◌, ◌||◌, not, Option, none, some, List, [], ◌∷◌, ◌++◌,
  map, Result, ok, err, and_then, or_raise, leb, ◌==◌, if◌then◌else◌, arith,
}
use holahost.Base.Int.{ℤ, pos, leb_ℤ}
use holahost.Base.Equality.{Eq, ◌=?◌, string_eq, pair_eq}
use holahost.Base.Dict.{Dict, get, put}
use holahost.Auth.{Json, Members, null, text, member_of, is_empty}
use holahost.Llm.Values.{
  DomainValidationError, Message, Role, user, Usage, TokenCount, make_token_count, FinishReason,
  stop, max_tokens,
}
use holahost.Llm.Entities.{Model}
use holahost.Llm.Config.{ModelEntry, ProviderEntry, RegistryFile}
use holahost.Llm.Generate.Data.{Outcome, answered, transient, rejected, refused, Generation}
use holahost.Llm.Dialects.{
  Reply, Failure, Timeout, BaseMessage, ChatModel, Invocation, Env, Dialect, finish_reasons,
  finish_reason_of, is_refusal_reason, is_given, setup_time, is_transient_status, seconds_of,
  translate_failure, endpoint_or, anthropic_dialect, dialects, api_connection_error,
  api_status_error, other_error, system_message, human_message,
}

pub record LangchainGenerationProvider : Type 0 where
  pub chat_models : Dict (String × String) ChatModel
  pub dialects : Dict String Dialect

-- What leaves `generate` besides an outcome of the port.
pub data Defect : Type 0 where
  key_error : String → Defect
  domain : DomainValidationError → Defect

-- `SystemMessage(system)` if there is one, then each message by its role
abbrev pub prompt_message : Message → BaseMessage
prompt_message message = elim message.role [ user ↦ human_message message.text ]

unfoldable pub prompt_of : String → List Message → List BaseMessage
prompt_of system messages =
    let turns = map prompt_message messages in
    if is_empty system then turns else system_message system ∷ turns

-- `Usage(…)`, of the figures of the answer
unfoldable pub usage_of : ℤ × ℤ → Result Defect Usage
usage_of (input, output) = or_raise domain (
    and_then (make_token_count input) (λ i.
      and_then (make_token_count output)
        (λ o. ok (record { input_tokens = i; output_tokens = o }))))

abbrev pub or_stop : Option FinishReason → FinishReason
or_stop none = stop
or_stop (some reason) = reason

-- A paid answer: refused content, or the generation.
unfoldable pub paid : Dialect → Reply → Usage → Outcome
paid dialect reply usage =
    let stop_reason = member_of "stop_reason" reply.response_metadata in
    if dialect.is_refusal stop_reason
    then refused usage
    else answered (record {
      text = reply.text;
      usage = usage;
      finish_reason = or_stop (dialect.finish_reason stop_reason);
    })

abbrev pub with_figures : Dialect → Reply → Option (ℤ × ℤ) → Result Defect Outcome
with_figures dialect reply none = ok (rejected (record { status = none }))
with_figures dialect reply (some figures) =
    if dialect.reports_usage reply.response_metadata
    then and_then (usage_of figures) (λ usage. ok (paid dialect reply usage))
    else ok (rejected (record { status = none }))

unfoldable pub concluded :
    (String → Option ℤ) → Dialect → Result Failure Reply → Result Defect Outcome
concluded float dialect (err failure) = ok (dialect.translate float failure)
concluded float dialect (ok reply) = with_figures dialect reply reply.usage_metadata

module _ (env : Env) (adapter : LangchainGenerationProvider) where
  -- The chat model is looked up within the `try`: a missing one is translated like a failure.
  abbrev pub invoked : Option ChatModel → (ChatModel → Invocation) → Result Failure Reply
  invoked none invocation = err other_error
  invoked (some chat_model) invocation = env.invoke (invocation chat_model)

  abbrev pub with_dialect :
      Option Dialect
      → Model
      → String
      → List Message
      → ℕ
      → Option ℤ
      → Option (List String)
      → ℤ
      → Result Defect Outcome
  with_dialect none model system messages limit temperature stops timeout =
      err (key_error model.provider.name.value)
  with_dialect (some dialect) model system messages limit temperature stops timeout =
      concluded env.float dialect (
        invoked (get (model.provider.name.value, model.id.value) adapter.chat_models) (λ chat_model.
          record {
            chat_model = chat_model;
            prompt = prompt_of system messages;
            stop = stops;
            max_tokens = limit;
            temperature = temperature;
            timeout = dialect.timeout timeout;
          }))

  -- `LangchainGenerationProvider.generate`
  unfoldable pub generate :
      Model
      → String
      → List Message
      → ℕ
      → Option ℤ
      → Option (List String)
      → ℤ
      → Result Defect Outcome
  generate model = with_dialect (get model.provider.name.value adapter.dialects) model

-- The chat models of one provider's entry, added to those before
unfoldable pub add_chat_models :
    Dialect
    → String
    → String
    → Option String
    → Dict String ModelEntry
    → Dict (String × String) ChatModel
    → Dict (String × String) ChatModel
add_chat_models dialect provider key base_url [] chat_models = chat_models
add_chat_models dialect provider key base_url ((model_id, _) ∷ specs) chat_models =
    add_chat_models dialect provider key base_url specs
      (put (provider, model_id) (dialect.chat_model model_id key base_url) chat_models)

-- `DIALECTS[provider]` and `keys[provider]`, which the first model of an entry needs
abbrev pub entry_chat_models :
    Option Dialect
    → Option String
    → String
    → Option String
    → Dict String ModelEntry
    → Dict (String × String) ChatModel
    → Result String (Dict (String × String) ChatModel)
entry_chat_models dialect key provider base_url [] chat_models = ok chat_models
entry_chat_models none key provider base_url (e ∷ specs) chat_models = err provider
entry_chat_models (some dialect) none provider base_url (e ∷ specs) chat_models = err provider
entry_chat_models (some dialect) (some key) provider base_url (e ∷ specs) chat_models =
    ok (add_chat_models dialect provider key base_url (e ∷ specs) chat_models)

unfoldable pub all_chat_models :
    Dict String Dialect
    → Dict String String
    → Option String
    → Dict String ProviderEntry
    → Dict (String × String) ChatModel
    → Result String (Dict (String × String) ChatModel)
all_chat_models table keys base_url [] chat_models = ok chat_models
all_chat_models table keys base_url ((provider, entry) ∷ providers) chat_models =
    let next = all_chat_models table keys base_url providers in
    if entry.enabled
    then and_then
        (entry_chat_models (get provider table) (get provider keys) provider base_url entry.models
          chat_models)
        next
    else next chat_models

-- `build_generation_provider`, or the missing key of its `KeyError`
unfoldable pub build_generation_provider :
    Dict String Dialect
    → RegistryFile
    → Dict String String
    → Option String
    → Result String LangchainGenerationProvider
build_generation_provider table file keys base_url =
    and_then (all_chat_models table keys base_url file.providers [])
      (λ chat_models. ok (record { chat_models = chat_models; dialects = table }))
