-- ===== src/Llm/Registry/Load.antt =====
-- `load_providers_repo` (infrastructure/registry/config_providers_repo.py).
pub mod Faithful
pub mod Chains
pub mod Refusals
pub mod Resolution
pub mod Backed
pub mod Returning
use holahost.Base.{
  ℕ, String, Bool, not, ◌&&◌, Option, none, some, List, [], ◌∷◌, map, keep, any, Result, ok, err,
  and_then, or_raise, traverse, if◌then◌else◌,
}
use holahost.Base.Int.{pos}
use holahost.Base.Equality.{◌=?◌, string_eq}
use holahost.Base.Dict.{Dict, get, put}
use holahost.Llm.Values.{DomainValidationError, ProviderName, make_provider_name, make_model_id}
use holahost.Llm.Entities.{Provider, Model, make_provider, make_model}
use holahost.Llm.Estimates.{generation_seconds, output_ceiling, within, provider_timeout}
use holahost.Llm.Config.{ModelEntry, ProviderEntry, ModelRef, RegistryFile}
use holahost.Llm.Registry.{ConfigProvidersRepo, init, sorted}

-- What `load_providers_repo` raises: `InvalidRegistryError` of one of four kinds, or a `KeyError`.
pub data LoadError : Type 0 where
  no_adapter : List String → LoadError
  invalid_provider : String → DomainValidationError → LoadError
  invalid_model : String → String → DomainValidationError → LoadError
  too_slow : List (String × String) → LoadError
  key_error : String → LoadError

-- The enabled providers without an adapter
unfoldable pub unsupported : RegistryFile → List String → List String
unfolding keep any
unsupported file supported = sorted (
    map (λ (e : String × ProviderEntry). e.0)
      (keep
        (λ (e : String × ProviderEntry). e.1.enabled && not (any (λ name. e.0 =? name) supported))
        file.providers))

-- The provider of an entry
unfoldable pub provider_of : String → ProviderEntry → Result LoadError Provider
provider_of name entry =
    or_raise (invalid_provider name)
      (and_then (make_provider_name name) (λ n. make_provider n entry.enabled entry.api_key_ref))

-- The model of an entry
unfoldable pub model_of : String → Provider → String → ModelEntry → Result LoadError Model
model_of name provider model_id spec = or_raise (invalid_model name model_id) (
    and_then (make_model_id model_id) (λ id.
      make_model provider id spec.max_context spec.max_output spec.price_in spec.price_out
        spec.tokens_per_second spec.deprecated))

-- The models of one provider, added to those before
unfoldable pub add_models :
    String
    → Provider
    → Dict String ModelEntry
    → Dict String Model
    → Result LoadError (Dict String Model)
unfolding model_of
add_models name provider [] models = ok models
add_models name provider ((model_id, spec) ∷ specs) models =
    and_then (model_of name provider model_id spec)
      (λ model. add_models name provider specs (put model_id model models))

unfoldable pub add_providers :
    Dict String ProviderEntry → Dict String Model → Result LoadError (Dict String Model)
unfolding provider_of add_models
add_providers [] models = ok models
add_providers ((name, entry) ∷ providers) models =
    and_then (provider_of name entry) (λ provider.
      and_then (add_models name provider entry.models models) (add_providers providers))

-- A model whose answer ceiling takes longer than one attempt may
unfoldable pub is_too_slow : Model → Bool
is_too_slow model =
    not (within (generation_seconds (output_ceiling model) model) (pos provider_timeout))

abbrev slow_names : Dict String Model → List (String × String)
slow_names models =
    map (λ (e : String × Model). (e.1.provider.name.value, e.0))
      (keep (λ (e : String × Model). is_too_slow e.1) models)

-- `models[ref.model]`
abbrev pub model_at : Dict String Model → ModelRef → Result LoadError Model
model_at models ref = elim (get ref.model models) [
  | none ↦ err (key_error ref.model)
  | some model ↦ ok model
]

-- `chain`
unfoldable pub chain : Dict String Model → List ModelRef → Result LoadError (List Model)
unfolding traverse
chain models refs = traverse (model_at models) refs

unfoldable pub chains :
    Dict String Model → Dict String (List ModelRef) → Result LoadError (Dict String (List Model))
unfolding chain
chains models [] = ok []
chains models ((alias, refs) ∷ aliases) =
    and_then (chain models refs)
      (λ found. and_then (chains models aliases) (λ rest. ok ((alias, found) ∷ rest)))

-- The repository, once no model is too slow
unfoldable pub repo_of : RegistryFile → Dict String Model → Result LoadError ConfigProvidersRepo
repo_of file models = and_then (chains models file.aliases) (λ aliases.
    and_then (chain models file.downgrade_targets) (λ targets. ok (init aliases models targets)))

abbrev unless_slow :
    List (String × String)
    → Result LoadError ConfigProvidersRepo
    → Result LoadError ConfigProvidersRepo
unless_slow [] loaded = loaded
unless_slow (name ∷ names) loaded = err (too_slow (name ∷ names))

abbrev unless_unsupported :
    List String → Result LoadError ConfigProvidersRepo → Result LoadError ConfigProvidersRepo
unless_unsupported [] loaded = loaded
unless_unsupported (name ∷ names) loaded = err (no_adapter (name ∷ names))

unfoldable pub load_providers_repo :
    RegistryFile → List String → Result LoadError ConfigProvidersRepo
load_providers_repo file supported = unless_unsupported (unsupported file supported) (
    and_then (add_providers file.providers [])
      (λ models. unless_slow (slow_names models) (repo_of file models)))
