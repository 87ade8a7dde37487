-- ===== src/Llm/Providers/Startup.antt =====
-- The start of the service (config, infrastructure/registry, infrastructure/providers): what is loaded,
-- read and built fits together.
use holahost.Base.{
  ◌≡◌, refl, ◌⊎◌, inl, inr, String, false, Option, none, [], ◌∷◌, map, All, ok, arith, Returns-ok,
}
use holahost.Base.Equality.{string_eq, pair_eq}
use holahost.Base.Dict.{Dict}
use holahost.Llm.Config.{ProviderEntry, RegistryFile}
use holahost.Llm.Config.Keys.{read_provider_keys}
use holahost.Llm.Config.Keys.Complete.{Has, read_provider_keys-Has}
use holahost.Llm.Registry.{ConfigProvidersRepo, resolve, downgrade_targets}
use holahost.Llm.Registry.Load.{load_providers_repo}
use holahost.Llm.Registry.Load.Backed.{IsBacked, load_providers_repo-Backed}
use holahost.Llm.Dialects.{Dialect, ChatModel}
use holahost.Llm.Providers.{LangchainGenerationProvider, build_generation_provider}
use holahost.Llm.Providers.Built.{any-get, IsSupplied, IsBuilt, all_chat_models-Built}
use holahost.Llm.Providers.Ready.{IsServed, IsOpen, load_providers_repo-Served, resolve-Served}

IsSupplied-All :
    (table : Dict String Dialect) (keys : Dict String String) (base_url : Option String)
    (providers : Dict String ProviderEntry)
    → All (IsBacked (map (λ (e : String × Dialect). e.0) table)) providers
    → All
        (λ (e : String × ProviderEntry).
          (e.1.enabled ≡ false) ⊎ ((e.1.api_key_ref ≡ none) ⊎ Has e.0 keys))
        providers
    → All (IsSupplied table keys base_url) providers
unfolding IsSupplied
IsSupplied-All table keys base_url [] h k = tt
IsSupplied-All table keys base_url ((name, entry) ∷ providers) (h, hs) (k, ks) =
    (one h k, IsSupplied-All table keys base_url providers hs ks)
  where
    one :
        IsBacked (map (λ (e : String × Dialect). e.0) table) (name, entry)
        → (entry.enabled ≡ false) ⊎ ((entry.api_key_ref ≡ none) ⊎ Has name keys)
        → IsSupplied table keys base_url (name, entry)
    one (inl off) k = inl off
    one (inr (known, _)) (inl off) = inl off
    one (inr (known, (ref, has_ref))) (inr (inl no_ref)) = absurd (grind (arith, has_ref, no_ref))
    one (inr (known, _)) (inr (inr has_key)) = inr (any-get name table known, has_key)

All-IsOpen :
    (table : Dict String Dialect) (keys : Dict String String) (base_url : Option String)
    (cm : Dict (String × String) ChatModel) (providers : Dict String ProviderEntry)
    → All (IsSupplied table keys base_url) providers
    → All (IsBuilt cm) providers
    → All
        (λ (e : String × ProviderEntry).
          IsOpen (record { chat_models = cm; dialects = table }) e.0 e.1 e.1.models)
        providers
unfolding IsSupplied
All-IsOpen table keys base_url cm [] h k = tt
All-IsOpen table keys base_url cm ((name, entry) ∷ providers) (inl off, hs) (k, ks) =
    (inl off, All-IsOpen table keys base_url cm providers hs ks)
All-IsOpen table keys base_url cm ((name, entry) ∷ providers) (inr _, hs) (inl off, ks) =
    (inl off, All-IsOpen table keys base_url cm providers hs ks)
All-IsOpen table keys base_url cm ((name, entry) ∷ providers) (inr (d, _), hs) (inr b, ks) =
    (inr (d, b), All-IsOpen table keys base_url cm providers hs ks)

-- A start that gets past the loading of the registry and the reading of the keys builds the adapter,
-- and then every model that a reference resolves to, be it an alias or a model's id, and every
-- downgrade target, has its dialect and its chat model in it.
pub start-Serves :
    (table : Dict String Dialect) (file : RegistryFile) (environ keys : Dict String String)
    (base_url : Option String) (repo : ConfigProvidersRepo)
    → load_providers_repo file (map (λ (e : String × Dialect). e.0) table) ≡ ok repo
    → read_provider_keys file environ ≡ ok keys
    → (adapter : LangchainGenerationProvider) × (build_generation_provider table file keys base_url
        ≡ ok adapter)
      × ((model_ref : String) → All (IsServed adapter) (resolve model_ref repo))
      × All (IsServed adapter) (downgrade_targets repo)
unfolding build_generation_provider
start-Serves table file environ keys base_url repo loaded read =
    let names = map (λ (e : String × Dialect). e.0) table in
    let supplied =
      IsSupplied-All table keys base_url file.providers
        (load_providers_repo-Backed file repo names loaded)
        (read_provider_keys-Has file environ keys read) in
    let (cm, e, built) = all_chat_models-Built table keys base_url file.providers supplied [] in
    let adapter : LangchainGenerationProvider = record { chat_models = cm; dialects = table } in
    let served = Returns-ok _ (load_providers_repo file names) repo loaded (
      load_providers_repo-Served adapter file names
        (All-IsOpen table keys base_url cm file.providers supplied built.all)) in
    (adapter, rw e refl, resolve-Served adapter repo served, served.of_targets)
