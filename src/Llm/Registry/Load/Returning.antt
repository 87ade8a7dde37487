-- ===== src/Llm/Registry/Load/Returning.antt =====
-- What holds of the repository that `load_providers_repo` returns, from what holds of its models
-- (infrastructure/registry/config_providers_repo.py).
use holahost.Base.{String, List, [], ◌∷◌, Result, Returns, and_then-Returns}
use holahost.Base.Dict.{Dict}
use holahost.Llm.Entities.{Model}
use holahost.Llm.Config.{RegistryFile}
use holahost.Llm.Registry.{ConfigProvidersRepo}
use holahost.Llm.Registry.Load.{
  LoadError, add_providers, repo_of, slow_names, unless_slow, unless_unsupported, unsupported,
  load_providers_repo,
}

module _ (P : Dict String Model → Type 0) (R : ConfigProvidersRepo → Type 0) where
  unless_unsupported-Returns :
      (names : List String) (r : Result LoadError ConfigProvidersRepo)
      → Returns R r
      → Returns R (unless_unsupported names r)
  unless_unsupported-Returns [] r h = h
  unless_unsupported-Returns (name ∷ names) r h = tt

  unless_slow-Returns :
      (names : List (String × String)) (r : Result LoadError ConfigProvidersRepo)
      → Returns R r
      → Returns R (unless_slow names r)
  unless_slow-Returns [] r h = h
  unless_slow-Returns (name ∷ names) r h = tt

  pub load_providers_repo-Returns :
      (file : RegistryFile) (supported : List String)
      → Returns P (add_providers file.providers [])
      → ((models : Dict String Model) → P models → Returns R (repo_of file models))
      → Returns R (load_providers_repo file supported)
  unfolding load_providers_repo
  load_providers_repo-Returns file supported h f =
      unless_unsupported-Returns (unsupported file supported) _ (
        and_then-Returns P R (add_providers file.providers []) _ h
          (λ models p. unless_slow-Returns (slow_names models) (repo_of file models) (f models p)))
