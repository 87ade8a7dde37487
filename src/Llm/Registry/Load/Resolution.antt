-- ===== src/Llm/Registry/Load/Resolution.antt =====
-- What the references of a registry file resolve to once it is loaded
-- (infrastructure/registry/config_providers_repo.py).
use holahost.Base.{
  ◌≡◌, refl, sym, ◌∙◌, ap, String, Option, none, some, List, [], ◌∷◌, All, All-weaken, Result, ok,
  err, and_then, Returns-ok, arith,
}
use mathlib.Core.Path.{subst}
use holahost.Base.Equality.{string_eq}
use holahost.Base.Dict.{Dict, get}
use holahost.Llm.Entities.{Model}
use holahost.Llm.Config.{
  ModelEntry, ProviderEntry, ModelRef, RegistryFile, find_model, model_in, check_references,
}
use holahost.Llm.Config.References.{Names, IsCurrent, Sound, check_references-Sound}
use holahost.Llm.Registry.{ConfigProvidersRepo, enabled, init, resolve, downgrade_targets}
use holahost.Llm.Registry.Enabled.{get-enabled_chains}
use holahost.Llm.Registry.Load.{
  LoadError, key_error, no_adapter, invalid_provider, invalid_model, too_slow, add_providers,
  repo_of, slow_names, unless_slow, unless_unsupported, unsupported, load_providers_repo,
}
use holahost.Llm.Registry.Load.Faithful.{Loaded, add_providers-Loaded}
-- Elements of two lists in the same places.
use holahost.Llm.Registry.Load.Chains.{Pairs, IsNamed, IsOffered, Held, chain-Pairs, chains-Pairs}
use holahost.Llm.Registry.Load.Refusals.{Refuses, add_providers-Refuses}

-- The alias resolves to a model of each of its candidates whose provider is enabled, in order.
abbrev pub Resolves : RegistryFile → ConfigProvidersRepo → String → Option (List ModelRef) → Type 0
Resolves file repo alias none = Unit
Resolves file repo alias (some refs) =
    (ms : List Model) × Pairs (IsOffered file) refs ms × (resolve alias repo ≡ enabled ms)

-- The repository answers for each alias of the file, and for the downgrade targets.
pub record IsFaithful (file : RegistryFile) (repo : ConfigProvidersRepo) : Type 0 where
  pub of_alias : (alias : String) → Resolves file repo alias (get alias file.aliases)
  pub of_targets :
      (ms : List Model) × Pairs (IsNamed file) file.downgrade_targets ms
      × (downgrade_targets repo ≡ enabled ms)

-- Loading returns a faithful repository or refuses the registry; it never meets a missing key.
abbrev pub Loads : RegistryFile → Result LoadError ConfigProvidersRepo → Type 0
Loads file (ok repo) = IsFaithful file repo
Loads file (err (key_error _)) = ⊥
Loads file (err (no_adapter _)) = Unit
Loads file (err (invalid_provider _ _)) = Unit
Loads file (err (invalid_model _ _ _)) = Unit
Loads file (err (too_slow _)) = Unit

module _ (file : RegistryFile) (sound : Sound file) where
  find_model-found :
      (ref : ModelRef) (p : Option ProviderEntry) (spec : ModelEntry)
      → get ref.provider file.providers ≡ p
      → model_in ref.model p ≡ some spec
      → (entry : ProviderEntry) × (get ref.provider file.providers ≡ some entry)
        × (get ref.model entry.models ≡ some spec)
  find_model-found ref none spec e h = ground (arith, h)
  find_model-found ref (some entry) spec e h = (entry, e, h)

  module _ (models : Dict String Model) (built : add_providers file.providers [] ≡ ok models) where
    held :
        (ref : ModelRef) (n : Names file ref)
        → (m : Model) × (get ref.model models ≡ some m)
          × ((i : IsNamed file ref m) × (i.spec ≡ n.entry))
    unfolding find_model
    held ref n =
        let (entry, e, s) =
          find_model-found ref (get ref.provider file.providers) n.entry refl n.found in
        let (m, here, of_entry) =
          Returns-ok (Loaded ref.model ref.provider entry n.entry) (add_providers file.providers [])
            models built
            (add_providers-Loaded ref.model file.providers [] ref.provider entry n.entry
              (sound.owned_once ref.model) e s) in
        (
          m,
          here,
          (
            record {
              entry = entry;
              spec = n.entry;
              has_entry = e;
              has_spec = s;
              is_model = of_entry;
            },
            refl,
          ),
        )

    offered : (ref : ModelRef) → IsCurrent file ref → Held (IsOffered file) models ref
    offered ref (n, current) =
        let (m, here, (named, same)) = held ref n in
        (
          m,
          here,
          (
            named,
            named.is_model.same_deprecated ∙ ap (λ (x : ModelEntry). x.deprecated) same ∙ current,
          ),
        )

    named : (ref : ModelRef) → Names file ref → Held (IsNamed file) models ref
    named ref n = let (m, here, (named, _)) = held ref n in (m, here, named)

    resolved :
        (alias : String) (cs : Dict String (List Model)) (ms ts : List Model)
        → get alias cs ≡ some ms
        → resolve alias (init cs models ts) ≡ enabled ms
    unfolding resolve init
    resolved alias cs ms ts e = ground (arith, get-enabled_chains alias cs, e)

    targeted :
        (cs : Dict String (List Model)) (ts : List Model)
        → downgrade_targets (init cs models ts) ≡ enabled ts
    unfolding downgrade_targets init
    targeted cs ts = refl

    answers :
        (alias : String) (o : Option (List ModelRef))
        → get alias file.aliases ≡ o
        → (cs : Dict String (List Model)) (ts : List Model)
        → ((refs : List ModelRef)
            → get alias file.aliases ≡ some refs
            → (ms : List Model) × (get alias cs ≡ some ms) × Pairs (IsOffered file) refs ms)
        → Resolves file (init cs models ts) alias o
    answers alias none e cs ts of_alias = tt
    answers alias (some refs) e cs ts of_alias =
        let (ms, here, pairs) = of_alias refs e in (ms, pairs, resolved alias cs ms ts here)

    repo_of-IsFaithful : Loads file (repo_of file models)
    unfolding repo_of
    repo_of-IsFaithful =
        let (cs, e, of_alias) = chains-Pairs (IsOffered file) models file.aliases (
          All-weaken _ (λ (c : String × List ModelRef). All (Held (IsOffered file) models) c.1)
            (λ c. All-weaken (IsCurrent file) (Held (IsOffered file) models) offered c.1)
            file.aliases sound.candidates) in
        let (ts, e', of_targets) = chain-Pairs (IsNamed file) models file.downgrade_targets (
          All-weaken (Names file) (Held (IsNamed file) models) named file.downgrade_targets
            sound.targets) in
        let done : repo_of file models ≡ ok (init cs models ts) = ground (arith, e, e') in
        subst (Loads file) (sym done) (record {
          of_alias = λ alias. answers alias (get alias file.aliases) refl cs ts (of_alias alias);
          of_targets = (ts, of_targets, targeted cs ts);
        })

    unless_slow-Loads :
        (names : List (String × String)) → Loads file (unless_slow names (repo_of file models))
    unless_slow-Loads [] = repo_of-IsFaithful
    unless_slow-Loads (name ∷ names) = tt

module _ (file : RegistryFile) (sound : Sound file) where
  built-Loads :
      (r : Result LoadError (Dict String Model))
      → add_providers file.providers [] ≡ r
      → Refuses r
      → Loads file (and_then r (λ models. unless_slow (slow_names models) (repo_of file models)))
  built-Loads (ok models) e h = unless_slow-Loads file sound models e (slow_names models)
  built-Loads (err (key_error k)) e h = h
  built-Loads (err (no_adapter k)) e h = tt
  built-Loads (err (invalid_provider k l)) e h = tt
  built-Loads (err (invalid_model k l m)) e h = tt
  built-Loads (err (too_slow k)) e h = tt

  supported-Loads :
      (names : List String) (r : Result LoadError ConfigProvidersRepo)
      → Loads file r
      → Loads file (unless_unsupported names r)
  supported-Loads [] r h = h
  supported-Loads (name ∷ names) r h = tt

-- A registry file without problems is either refused, for an adapter, an entity or a speed, or loaded
-- into a repository that resolves each alias to current models, one for each of its candidates that
-- is of an enabled provider, in their order and of the provider and the id that the candidate names,
-- and likewise the downgrade targets. No reference of it meets a missing key.
pub load_providers_repo-Loads :
    (file : RegistryFile) (supported : List String)
    → check_references file ≡ ok file
    → Loads file (load_providers_repo file supported)
unfolding load_providers_repo
load_providers_repo-Loads file supported h =
    let sound = check_references-Sound file h in
    supported-Loads file sound (unsupported file supported) _ (
      built-Loads file sound (add_providers file.providers []) refl
        (add_providers-Refuses file.providers []))
