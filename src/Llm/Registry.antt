-- ===== src/Llm/Registry.antt =====
-- `ConfigProvidersRepo` (infrastructure/registry/config_providers_repo.py).
pub mod Enabled
pub mod Load
mod Tests
use Prim.Native.String.{compare}
use Prim.Native.Nat.{Ordering}
use holahost.Base.{String, Bool, Option, none, some, List, [], ◌∷◌, map, keep}
use holahost.Base.Equality.{string_eq}
use holahost.Base.Dict.{Dict, get}
use holahost.Llm.Entities.{Model}

pub record ConfigProvidersRepo : Type 0 where
  pub chains : Dict String (List Model)
  pub models : Dict String Model
  pub targets : List Model

-- `_enabled`
unfoldable pub enabled : List Model → List Model
unfolding keep
enabled = keep (λ model. model.provider.enabled)

-- `__init__`
unfoldable pub init :
    Dict String (List Model) → Dict String Model → List Model → ConfigProvidersRepo
unfolding enabled keep
init aliases models downgrade_targets = record {
  chains = map (λ (e : String × List Model). (e.0, enabled e.1)) aliases;
  models = keep (λ (e : String × Model). e.1.provider.enabled) models;
  targets = enabled downgrade_targets;
}

abbrev pub singleton : Option Model → List Model
singleton none = []
singleton (some model) = model ∷ []

unfoldable pub resolve : String → ConfigProvidersRepo → List Model
unfolding get
resolve model_ref repo = elim (get model_ref repo.chains) [
  | some chain ↦ chain
  | none ↦ singleton (get model_ref repo.models)
]

unfoldable pub downgrade_targets : ConfigProvidersRepo → List Model
downgrade_targets repo = repo.targets

abbrev has_candidates : List Model → Bool
has_candidates [] = Bool.false
has_candidates (_ ∷ _) = Bool.true

insert_sorted : String → List String → List String
insert_sorted alias [] = alias ∷ []
insert_sorted alias (a ∷ rest) =
    let later = a ∷ insert_sorted alias rest in
    elim (compare a alias) [ Ordering.lt ↦ later | _ ↦ alias ∷ a ∷ rest ]

-- Python's `sorted` of texts: by code point, which is the order of their UTF-8 bytes
unfoldable pub sorted : List String → List String
unfolding insert_sorted
sorted [] = []
sorted (a ∷ rest) = insert_sorted a (sorted rest)

unfoldable pub aliases : ConfigProvidersRepo → List String
unfolding keep sorted
aliases repo = sorted (
    map (λ (e : String × List Model). e.0)
      (keep (λ (e : String × List Model). has_candidates e.1) repo.chains))
