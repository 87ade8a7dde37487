-- ===== src/Llm/Registry/Load/Refusals.antt =====
-- What refuses a provider or a model (infrastructure/registry/config_providers_repo.py).
use holahost.Base.{String, [], ◌∷◌, or_raise, Result, ok, err, and_then}
use holahost.Base.Equality.{string_eq}
use holahost.Base.Dict.{Dict, put}
use holahost.Llm.Entities.{Provider, Model}
use holahost.Llm.Config.{ModelEntry, ProviderEntry}
use holahost.Llm.Registry.Load.{
  LoadError, key_error, no_adapter, invalid_provider, invalid_model, too_slow, provider_of,
  model_of, add_models, add_providers,
}

-- Elements of two lists in the same places.

-- What refuses a provider or a model is not a missing key.
abbrev pub Refuses : {A : Type 0} → Result LoadError A → Type 0
Refuses (ok _) = Unit
Refuses (err (key_error _)) = ⊥
Refuses (err (no_adapter _)) = Unit
Refuses (err (invalid_provider _ _)) = Unit
Refuses (err (invalid_model _ _ _)) = Unit
Refuses (err (too_slow _)) = Unit

and_then-Refuses :
    {A B : Type 0}
    → (r : Result LoadError A) (f : A → Result LoadError B) → Refuses r
    → ((a : A) → Refuses (f a))
    → Refuses (and_then r f)
and_then-Refuses (ok a) f h k = k a
and_then-Refuses (err e) f h k = h

or_raise-Refuses :
    {E A : Type 0}
    → (f : E → LoadError) (r : Result E A) → ((e : E) → Refuses {A = A} (err (f e)))
    → Refuses (or_raise f r)
or_raise-Refuses f (ok a) h = tt
or_raise-Refuses f (err e) h = h e

add_models-Refuses :
    (name : String) (p : Provider) (specs : Dict String ModelEntry) (models : Dict String Model)
    → Refuses (add_models name p specs models)
unfolding add_models model_of
add_models-Refuses name p [] models = tt
add_models-Refuses name p ((id, spec) ∷ specs) models =
    and_then-Refuses (model_of name p id spec) _
      (or_raise-Refuses (invalid_model name id) _ (λ _. tt))
      (λ m. add_models-Refuses name p specs (put id m models))

pub add_providers-Refuses :
    (providers : Dict String ProviderEntry) (models : Dict String Model)
    → Refuses (add_providers providers models)
unfolding add_providers provider_of
add_providers-Refuses [] models = tt
add_providers-Refuses ((name, entry) ∷ providers) models =
    and_then-Refuses (provider_of name entry) _
      (or_raise-Refuses (invalid_provider name) _ (λ _. tt))
      (λ p.
        and_then-Refuses (add_models name p entry.models models) _
          (add_models-Refuses name p entry.models models) (add_providers-Refuses providers))
