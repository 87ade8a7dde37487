-- ===== src/Llm/Registry/Enabled.antt =====
-- The registry answers with the configured models whose provider is enabled.
use holahost.Base.{◌≡◌, refl, String, none, some, List, [], ◌∷◌, map, keep, arith}
use holahost.Base.Equality.{string_eq}
use holahost.Base.Dict.{Dict, get, Distinct}
use holahost.Llm.Entities.{Model}
use holahost.Llm.Registry.{enabled, init, resolve, singleton}

-- What the configuration names: the alias's chain, or the model itself.
abbrev pub configured : String → Dict String (List Model) → Dict String Model → List Model
configured model_ref aliases models = elim (get model_ref aliases) [
  | some chain ↦ chain
  | none ↦ singleton (get model_ref models)
]

pub get-enabled_chains :
    (k : String) (d : Dict String (List Model))
    → get k (map (λ (e : String × List Model). (e.0, enabled e.1)) d)
      ≡ (elim (get k d) [ none ↦ none | some chain ↦ some (enabled chain) ])
unfolding get
get-enabled_chains k [] = refl
get-enabled_chains k ((j, chain) ∷ d) = ground (arith, get-enabled_chains k d)

get-keep-none :
    (k : String) (d : Dict String Model)
    → get k d ≡ none
    → get k (keep (λ (e : String × Model). e.1.provider.enabled) d) ≡ none
unfolding get keep
get-keep-none k [] h = refl
get-keep-none k ((j, model) ∷ d) h = ground (arith, get-keep-none k d)

singleton-keep :
    (k : String) (d : Dict String Model)
    → Distinct d
    → singleton (get k (keep (λ (e : String × Model). e.1.provider.enabled) d))
      ≡ enabled (singleton (get k d))
unfolding get keep enabled
singleton-keep k [] h = refl
singleton-keep k ((j, model) ∷ d) h =
    ground (arith, string_eq.beq_iff k j, get-keep-none k d, singleton-keep k d h.1)

-- A reference resolves to the models that the configuration names for it, in their order, less those
-- of providers that are not enabled, where no model is configured twice under one reference.
pub resolve-init :
    (aliases : Dict String (List Model)) (models : Dict String Model) (targets : List Model)
    (model_ref : String)
    → Distinct models
    → resolve model_ref (init aliases models targets)
      ≡ enabled (configured model_ref aliases models)
unfolding resolve init
resolve-init aliases models targets model_ref h =
    ground (arith, get-enabled_chains model_ref aliases, singleton-keep model_ref models h)
