-- ===== src/Llm/Config.antt =====
-- The registry file (config/registry.py) and the providers' keys (config/provider_keys.py). What is read
-- here is a file that has the schema's shape, which pydantic checks.
pub mod Keys
pub mod Counting
pub mod References
use Prim.Native.String.{◌++◌ as ◌⧺◌}
use holahost.Base.{
  ℕ, ◌+◌, ◌≡◌, ◌↔◌, refl, String, Bool, true, false, ◌&&◌, not, Option, none, some, List, [], ◌∷◌,
  ◌++◌, map, keep, any, length, Result, ok, err, ltb, ◌==◌, if◌then◌else◌, arith, is_some,
}
use holahost.Base.Int.{ℤ}
use holahost.Base.Equality.{Eq, ◌=?◌, string_eq}
use holahost.Base.Text.{is_blank}
use holahost.Base.Dict.{Dict, get, put}
use holahost.Llm.Values.{BudgetPolicy}
use holahost.Llm.Entities.{Decimal}

pub record ModelEntry : Type 0 where
  pub max_context : ℤ
  pub max_output : ℤ
  pub price_in : Decimal
  pub price_out : Decimal
  pub tokens_per_second : ℤ
  pub deprecated : Bool

pub record ProviderEntry : Type 0 where
  pub enabled : Bool
  pub api_key_ref : Option String
  pub models : Dict String ModelEntry

pub record ModelRef : Type 0 where
  pub provider : String
  pub model : String

pub record BudgetPolicies : Type 0 where
  pub default : BudgetPolicy
  pub overrides : Dict String BudgetPolicy

pub record RegistryFile : Type 0 where
  pub providers : Dict String ProviderEntry
  pub aliases : Dict String (List ModelRef)
  pub downgrade_targets : List ModelRef
  pub on_budget_exhausted : BudgetPolicies

-- What is wrong with a file, each with what its message names.
pub data Problem : Type 0 where
  no_candidates also_a_model_id listed_more_than_once : String → Problem
  unknown_model deprecated_model : String → ModelRef → Problem
  unknown_target : ModelRef → Problem
  target_listed_more_than_once : Problem
  no_models : String → Problem
  shared_model_id : String → Problem
  blank_override : Problem

-- Frozen models are equal when their fields are.
abbrev pub same_ref : ModelRef → ModelRef → Bool
same_ref a b = a.provider =? b.provider && a.model =? b.model

-- `set(refs)`
unfoldable pub as_set : List ModelRef → List ModelRef
unfolding any
as_set [] = []
as_set (ref ∷ refs) = let rest = as_set refs in if any (same_ref ref) rest then rest else ref ∷ rest

-- `len(set(refs)) < len(refs)`
unfoldable pub has_repeat : List ModelRef → Bool
unfolding as_set
has_repeat refs = ltb (length (as_set refs)) (length refs)

-- `[model_id for entry in providers.values() for model_id in entry.models]`
unfoldable pub model_ids : Dict String ProviderEntry → List String
model_ids [] = []
model_ids ((name, entry) ∷ providers) =
    map (λ (e : String × ModelEntry). e.0) entry.models ++ model_ids providers

abbrev pub model_in : String → Option ProviderEntry → Option ModelEntry
model_in model none = none
model_in model (some entry) = get model entry.models

abbrev pub when : Bool → Problem → List Problem
when test problem = if test then problem ∷ [] else []

abbrev pub is_empty_list : {A : Type 0} → List A → Bool
is_empty_list [] = true
is_empty_list (_ ∷ _) = false

-- What is wrong with a candidate of an alias.
abbrev pub candidate_problems : String → ModelRef → Option ModelEntry → List Problem
candidate_problems alias ref none = unknown_model alias ref ∷ []
candidate_problems alias ref (some model) = when model.deprecated (deprecated_model alias ref)

-- `Counter(ids)`, after what is counted so far
abbrev pub counted_so_far : Option ℕ → ℕ
counted_so_far none = 0
counted_so_far (some n) = n

unfoldable pub counter : List String → Dict String ℕ → Dict String ℕ
counter [] counts = counts
counter (id ∷ ids) counts = counter ids (put id (counted_so_far (get id counts) + 1) counts)

-- A provider's secret reference, if it is enabled and has one
abbrev pub key_ref_of : String → Bool → Option String → Dict String String
key_ref_of name on none = []
key_ref_of name on (some ref) = if on then (name, ref) ∷ [] else []

unfoldable pub key_refs : Dict String ProviderEntry → Dict String String
key_refs [] = []
key_refs ((name, entry) ∷ providers) =
    key_ref_of name entry.enabled entry.api_key_ref ++ key_refs providers

module _ (file : RegistryFile) where
  -- `_model`
  unfoldable pub find_model : ModelRef → Option ModelEntry
  find_model ref = model_in ref.model (get ref.provider file.providers)

  unfoldable pub chain_problems : String → List ModelRef → List Problem
  chain_problems alias [] = []
  chain_problems alias (ref ∷ refs) =
      candidate_problems alias ref (find_model ref) ++ chain_problems alias refs

  unfoldable pub problems_of_aliases : Dict String (List ModelRef) → List Problem
  problems_of_aliases [] = []
  problems_of_aliases ((alias, chain) ∷ aliases) =
      when (is_empty_list chain) (no_candidates alias)
      ++ (when (any (λ id. alias =? id) (model_ids file.providers)) (also_a_model_id alias)
          ++ (when (has_repeat chain) (listed_more_than_once alias)
              ++ (chain_problems alias chain ++ problems_of_aliases aliases)))

  -- `_alias_problems`
  unfoldable pub alias_problems : List Problem
  alias_problems = problems_of_aliases file.aliases

  -- `_target_problems`
  unfoldable pub target_problems : List Problem
  target_problems =
      map unknown_target (keep (λ ref. not (is_some (find_model ref))) file.downgrade_targets)
      ++ when (has_repeat file.downgrade_targets) target_listed_more_than_once

  -- Enabled providers that have no models
  abbrev pub idle_problems : List Problem
  idle_problems =
      map (λ (e : String × ProviderEntry). no_models e.0)
        (keep (λ (e : String × ProviderEntry). e.1.enabled && is_empty_list e.1.models)
          file.providers)

  -- Model ids that belong to more than one provider
  abbrev pub shared_problems : List Problem
  shared_problems =
      map (λ (e : String × ℕ). shared_model_id e.0)
        (keep (λ (e : String × ℕ). ltb 1 e.1) (counter (model_ids file.providers) []))

  -- `_provider_problems`
  unfoldable pub provider_problems : List Problem
  provider_problems = idle_problems ++ shared_problems

  -- `_policy_problems`
  unfoldable pub policy_problems : List Problem
  policy_problems =
      when (any (λ (e : String × BudgetPolicy). is_blank e.0) file.on_budget_exhausted.overrides)
        blank_override

  unfoldable pub problems : List Problem
  problems = alias_problems ++ (target_problems ++ (provider_problems ++ policy_problems))

  -- `_check_references`
  unfoldable pub check_references : Result (List Problem) RegistryFile
  check_references = if is_empty_list problems then ok file else err problems

  -- `enabled_key_refs`
  unfoldable pub enabled_key_refs : Dict String String
  enabled_key_refs = key_refs file.providers
