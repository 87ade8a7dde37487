-- ===== src/Llm/Providers/Ready.antt =====
-- The models of a registry that loads (infrastructure/registry), and what the adapter that is built at
-- the start (infrastructure/providers) has for them.
use holahost.Base.{
  ◌≡◌, ◌∙◌, ◌⊎◌, inl, inr, if-cases, String, true, false, Option, none, some, List, [], ◌∷◌, keep,
  All, is_some, ok, err, traverse, Returns, and_then-Returns, map, arith,
}
use holahost.Base.Equality.{string_eq, pair_eq}
use holahost.Base.Dict.{Dict, get, put, Holds, get-Holds, put-All}
use holahost.Llm.Entities.{Provider, Model}
use holahost.Llm.Config.{ModelEntry, ProviderEntry, ModelRef, RegistryFile}
use holahost.Llm.Registry.{
  ConfigProvidersRepo, init, enabled, singleton, resolve, downgrade_targets,
}
use holahost.Llm.Registry.Load.{
  LoadError, provider_of, model_of, add_models, add_providers, model_at, chain, chains, repo_of,
  load_providers_repo,
}
use holahost.Llm.Registry.Load.Returning.{load_providers_repo-Returns}
use holahost.Llm.Registry.Load.Faithful.{Named, Models, provider_of-Named, model_of-Models}
use holahost.Llm.Providers.{LangchainGenerationProvider}
use holahost.Llm.Providers.Built.{HasModel}

-- The adapter has a dialect and a chat model for the model.
abbrev pub IsServed : LangchainGenerationProvider → Model → Type 0
IsServed adapter m =
    (is_some (get m.provider.name.value adapter.dialects) ≡ true)
    × (is_some (get (m.provider.name.value, m.id.value) adapter.chat_models) ≡ true)

module _ (adapter : LangchainGenerationProvider) where
  -- A model that is served where its provider is enabled.
  IsReady : Model → Type 0
  IsReady m = (m.provider.enabled ≡ false) ⊎ IsServed adapter m

  -- Switched off, or with a dialect and a chat model for each of the specifications.
  abbrev pub IsOpen : String → ProviderEntry → Dict String ModelEntry → Type 0
  IsOpen name entry specs =
      (entry.enabled ≡ false)
      ⊎ ((is_some (get name adapter.dialects) ≡ true)
          × All (λ (e : String × ModelEntry). HasModel (name, e.0) adapter.chat_models) specs)

  Models-IsReady :
      (name : String) (entry : ProviderEntry) (id : String) (spec : ModelEntry)
      (specs : Dict String ModelEntry) (m : Model)
      → Models name entry id spec m
      → IsOpen name entry ((id, spec) ∷ specs)
      → IsReady m
  unfolding IsReady
  Models-IsReady name entry id spec specs m i (inl off) = inl (i.named.1 ∙ off)
  Models-IsReady name entry id spec specs m i (inr (d, h)) =
      inr (rw i.named.0 d, rw i.named.0 (rw i.of_id h.0))

  rest-IsOpen :
      (name : String) (entry : ProviderEntry) (e : String × ModelEntry)
      (specs : Dict String ModelEntry)
      → IsOpen name entry (e ∷ specs)
      → IsOpen name entry specs
  rest-IsOpen name entry e specs (inl off) = inl off
  rest-IsOpen name entry e specs (inr (d, h)) = inr (d, h.1)

  abbrev AllReady : Dict String Model → Type 0
  AllReady models = All (λ (e : String × Model). IsReady e.1) models

  add_models-Ready :
      (name : String) (entry : ProviderEntry) (p : Provider) (named : Named name entry p)
      (specs : Dict String ModelEntry) (models : Dict String Model)
      → IsOpen name entry specs
      → AllReady models
      → Returns AllReady (add_models name p specs models)
  unfolding add_models
  add_models-Ready name entry p named [] models o h = h
  add_models-Ready name entry p named ((id, spec) ∷ specs) models o h =
      and_then-Returns (Models name entry id spec) AllReady (model_of name p id spec) _
        (model_of-Models name entry p named id spec)
        (λ m i.
          add_models-Ready name entry p named specs (put id m models)
            (rest-IsOpen name entry (id, spec) specs o)
            (put-All IsReady id m models (Models-IsReady name entry id spec specs m i o) h))

  add_providers-Ready :
      (providers : Dict String ProviderEntry) (models : Dict String Model)
      → All (λ (e : String × ProviderEntry). IsOpen e.0 e.1 e.1.models) providers
      → AllReady models
      → Returns AllReady (add_providers providers models)
  unfolding add_providers
  add_providers-Ready [] models o h = h
  add_providers-Ready ((name, entry) ∷ providers) models o h =
      and_then-Returns (Named name entry) AllReady (provider_of name entry) _
        (provider_of-Named name entry)
        (λ p named.
          and_then-Returns AllReady AllReady (add_models name p entry.models models) _
            (add_models-Ready name entry p named entry.models models o.0 h)
            (λ d h'. add_providers-Ready providers d o.1 h'))

  enabled-IsServed : (ms : List Model) → All IsReady ms → All (IsServed adapter) (enabled ms)
  unfolding enabled keep IsReady
  enabled-IsServed [] h = tt
  enabled-IsServed (m ∷ ms) (h, hs) =
      let rest = enabled-IsServed ms hs in
      if-cases (All (IsServed adapter)) m.provider.enabled _ _
        (λ on. (elim h [ inl off ↦ absurd (grind (arith, on, off)) | inr s ↦ s ], rest)) (λ _. rest)

  -- Of the models by id that the repository keeps.
  kept-IsServed :
      (models : Dict String Model)
      → AllReady models
      → All
          (λ (e : String × Model). IsServed adapter e.1)
          (keep (λ (e : String × Model). e.1.provider.enabled) models)
  unfolding keep IsReady
  kept-IsServed [] h = tt
  kept-IsServed ((id, m) ∷ models) (h, hs) =
      let rest = kept-IsServed models hs in
      if-cases (All (λ (e : String × Model). IsServed adapter e.1)) m.provider.enabled _ _
        (λ on. (elim h [ inl off ↦ absurd (grind (arith, on, off)) | inr s ↦ s ], rest)) (λ _. rest)

  module _ (models : Dict String Model) (ready : AllReady models) where
    found-IsReady : (ref : ModelRef) → Returns IsReady (model_at models ref)
    found-IsReady ref = found (get ref.model models) (get-Holds IsReady ref.model models ready)
      where
        found :
            (o : Option Model)
            → Holds IsReady o
            → Returns {E = LoadError} IsReady
                (elim o [ none ↦ err (LoadError.key_error ref.model) | some model ↦ ok model ])
        found none h = tt
        found (some m) h = h

    chain-IsReady : (refs : List ModelRef) → Returns (All IsReady) (chain models refs)
    unfolding chain traverse
    chain-IsReady [] = tt
    chain-IsReady (ref ∷ refs) =
        and_then-Returns IsReady (All IsReady) (model_at models ref) _ (found-IsReady ref) (λ m h.
          and_then-Returns (All IsReady) (All IsReady) (traverse (model_at models) refs) _
            (chain-IsReady refs) (λ ms hs. (h, hs)))

    abbrev ChainsReady : Dict String (List Model) → Type 0
    ChainsReady cs = All (λ (e : String × List Model). All IsReady e.1) cs

    chains-IsReady :
        (aliases : Dict String (List ModelRef)) → Returns ChainsReady (chains models aliases)
    unfolding chains
    chains-IsReady [] = tt
    chains-IsReady ((alias, refs) ∷ aliases) =
        and_then-Returns (All IsReady) ChainsReady (chain models refs) _ (chain-IsReady refs)
          (λ ms h.
            and_then-Returns ChainsReady ChainsReady (chains models aliases) _
              (chains-IsReady aliases) (λ cs hs. (h, hs)))

  -- Whatever a repository answers with is served.
  pub record AllServed (repo : ConfigProvidersRepo) : Type 0 where
    pub of_chains : All (λ (e : String × List Model). All (IsServed adapter) e.1) repo.chains
    pub of_models : All (λ (e : String × Model). IsServed adapter e.1) repo.models
    pub of_targets : All (IsServed adapter) (downgrade_targets repo)

  enabled_chains-Served :
      (cs : Dict String (List Model))
      → All (λ (e : String × List Model). All IsReady e.1) cs
      → All
          (λ (e : String × List Model). All (IsServed adapter) e.1)
          (map (λ (e : String × List Model). (e.0, enabled e.1)) cs)
  enabled_chains-Served [] h = tt
  enabled_chains-Served ((alias, ms) ∷ cs) (h, hs) =
      (enabled-IsServed ms h, enabled_chains-Served cs hs)

  repo_of-Served :
      (file : RegistryFile) (models : Dict String Model)
      → AllReady models
      → Returns AllServed (repo_of file models)
  unfolding repo_of init downgrade_targets
  repo_of-Served file models ready =
      and_then-Returns (ChainsReady models ready) AllServed (chains models file.aliases) _
        (chains-IsReady models ready file.aliases)
        (λ cs h.
          and_then-Returns (All IsReady) AllServed (chain models file.downgrade_targets) _
            (chain-IsReady models ready file.downgrade_targets)
            (λ ts k. record {
              of_chains = enabled_chains-Served cs h;
              of_models = kept-IsServed models ready;
              of_targets = enabled-IsServed ts k;
            }))

  -- Of a registry whose enabled providers have a dialect and a chat model for each of their models.
  pub load_providers_repo-Served :
      (file : RegistryFile) (supported : List String)
      → All (λ (e : String × ProviderEntry). IsOpen e.0 e.1 e.1.models) file.providers
      → Returns AllServed (load_providers_repo file supported)
  load_providers_repo-Served file supported o =
      load_providers_repo-Returns AllReady AllServed file supported
        (add_providers-Ready file.providers [] o tt) (repo_of-Served file)

  pub resolve-Served :
      (repo : ConfigProvidersRepo)
      → AllServed repo
      → (model_ref : String) → All (IsServed adapter) (resolve model_ref repo)
  unfolding resolve
  resolve-Served repo h model_ref =
      answered (get model_ref repo.chains) (get model_ref repo.models)
        (get-Holds (All (IsServed adapter)) model_ref repo.chains h.of_chains)
        (get-Holds (IsServed adapter) model_ref repo.models h.of_models)
    where
      answered :
          (chain : Option (List Model)) (model : Option Model)
          → Holds (All (IsServed adapter)) chain
          → Holds (IsServed adapter) model
          → All (IsServed adapter) (elim chain [ some c ↦ c | none ↦ singleton model ])
      answered (some c) model h k = h
      answered none (some m) h k = (k, tt)
      answered none none h k = tt
