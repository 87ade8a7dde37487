-- ===== src/Llm/Registry/Load/Backed.antt =====
-- What a registry that loads has for each enabled provider: an adapter and a key reference
-- (infrastructure/registry/config_providers_repo.py).
use holahost.Base.{
  ◌≡◌, refl, ◌⊎◌, inl, inr, String, Bool, true, false, not, ◌&&◌, Option, none, some, List, [], ◌∷◌,
  map, keep, any, All, Result, ok, err, and_then, or_raise, Returns, and_then-Returns, Returns-any,
  Returns-itself, Returns-weaken, if◌then◌else◌, arith,
}
use holahost.Base.Equality.{◌=?◌, string_eq}
use holahost.Base.Dict.{Dict}
use holahost.Llm.Values.{DomainValidationError, Valid, ProviderName}
use holahost.Llm.Entities.{Provider, Model, make_provider}
use holahost.Llm.Config.{ProviderEntry, RegistryFile}
use holahost.Llm.Registry.{ConfigProvidersRepo, sorted, insert_sorted}
use holahost.Llm.Registry.Load.{
  LoadError, provider_of, add_models, add_providers, unsupported, unless_unsupported,
  load_providers_repo,
}

-- An entry that is switched off, or that has an adapter and a key reference.
abbrev pub IsBacked : List String → String × ProviderEntry → Type 0
IsBacked supported (name, entry) =
    (entry.enabled ≡ false)
    ⊎ ((any (λ n. name =? n) supported ≡ true) × ((ref : String) × (entry.api_key_ref ≡ some ref)))

insert_sorted-some : (a : String) (xs : List String) → insert_sorted a xs ≡ [] → ⊥
unfolding insert_sorted
insert_sorted-some a [] h = ground (arith, h)
insert_sorted-some a (x ∷ xs) h = ground (arith, h)

sorted-nil : (xs : List String) → sorted xs ≡ [] → xs ≡ []
unfolding sorted
sorted-nil [] h = refl
sorted-nil (x ∷ xs) h = absurd (insert_sorted-some x (sorted xs) h)

IsSupported : List String → String × ProviderEntry → Type 0
IsSupported supported (name, entry) =
    (entry.enabled ≡ false) ⊎ (any (λ n. name =? n) supported ≡ true)

unless-supported :
    (on known : Bool) (e : String × ProviderEntry) (kept : Dict String ProviderEntry)
    → map (λ (e : String × ProviderEntry). e.0) (if on && not known then e ∷ kept else kept) ≡ []
    → ((on ≡ false) ⊎ (known ≡ true)) × (map (λ (e : String × ProviderEntry). e.0) kept ≡ [])
unless-supported true true e kept h = (inr refl, h)
unless-supported true false e kept h = ground (arith, h)
unless-supported false known e kept h = (inl refl, h)

unsupported-nil :
    (supported : List String) (providers : Dict String ProviderEntry)
    → map
        (λ (e : String × ProviderEntry). e.0)
        (keep
          (λ (e : String × ProviderEntry). e.1.enabled && not (any (λ n. e.0 =? n) supported))
          providers)
      ≡ []
    → All (IsSupported supported) providers
unfolding keep IsSupported
unsupported-nil supported [] h = tt
unsupported-nil supported ((name, entry) ∷ providers) h =
    let (here, rest) =
      unless-supported entry.enabled (any (λ n. name =? n) supported) (name, entry) _ h in
    (here, unsupported-nil supported providers rest)

refused-provider :
    (f : DomainValidationError → LoadError) (n : Valid ProviderName) (on : Bool)
    (ref : Option String) (p : Provider)
    → or_raise f (and_then n (λ n. make_provider n on ref)) ≡ ok p
    → (on ≡ false) ⊎ ((r : String) × (ref ≡ some r))
unfolding make_provider
refused-provider f n false ref p h = inl refl
refused-provider f n true (some r) p h = inr (r, refl)
refused-provider f (ok n) true none p h = ground (arith, h)
refused-provider f (err e) true none p h = ground (arith, h)

-- An entry that is switched off or has a key reference.
HasRef : String × ProviderEntry → Type 0
HasRef (name, entry) = (entry.enabled ≡ false) ⊎ ((ref : String) × (entry.api_key_ref ≡ some ref))

add_providers-HasRef :
    (providers : Dict String ProviderEntry) (models : Dict String Model)
    → Returns (λ _. All HasRef providers) (add_providers providers models)
unfolding add_providers provider_of HasRef
add_providers-HasRef [] models = tt
add_providers-HasRef ((name, entry) ∷ providers) models =
    and_then-Returns (λ p. provider_of name entry ≡ ok p) _ (provider_of name entry) _
      (Returns-itself (provider_of name entry))
      (λ p e.
        and_then-Returns (λ _. Unit {0}) _ (add_models name p entry.models models) _
          (Returns-any (add_models name p entry.models models))
          (λ d _.
            Returns-weaken (λ _. All HasRef providers) _ (add_providers providers d)
              (λ _ rest. (refused-provider _ _ entry.enabled entry.api_key_ref p e, rest))
              (add_providers-HasRef providers d)))

both-Backed :
    (supported : List String) (providers : Dict String ProviderEntry)
    → All (IsSupported supported) providers
    → All HasRef providers
    → All (IsBacked supported) providers
unfolding IsSupported HasRef
both-Backed supported [] h k = tt
both-Backed supported ((name, entry) ∷ providers) (h, hs) (k, ks) =
    (ground (arith, h, k), both-Backed supported providers hs ks)

module _ (file : RegistryFile) (repo : ConfigProvidersRepo) where
  no_adapter-missing :
      (names : List String) (r : Result LoadError ConfigProvidersRepo)
      → unless_unsupported names r ≡ ok repo
      → (names ≡ []) × (r ≡ ok repo)
  no_adapter-missing [] r h = (refl, h)
  no_adapter-missing (n ∷ names) r h = ground (arith, h)

  built-HasRef :
      (r : Result LoadError (Dict String Model))
      (f : Dict String Model → Result LoadError ConfigProvidersRepo)
      → Returns (λ _. All HasRef file.providers) r
      → and_then r f ≡ ok repo
      → All HasRef file.providers
  built-HasRef (ok models) f h e = h
  built-HasRef (err x) f h e = ground (arith, e)

  -- Every enabled provider of a registry that is loaded has an adapter and a key reference.
  pub load_providers_repo-Backed :
      (supported : List String)
      → load_providers_repo file supported ≡ ok repo
      → All (IsBacked supported) file.providers
  unfolding load_providers_repo unsupported
  load_providers_repo-Backed supported h =
      let (none_missing, built) = no_adapter-missing _ _ h in
      both-Backed supported file.providers
        (unsupported-nil supported file.providers (sorted-nil _ none_missing))
        (built-HasRef (add_providers file.providers []) _ (add_providers-HasRef file.providers [])
          built)
