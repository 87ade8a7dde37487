-- ===== src/Llm/Registry/Load/Chains.antt =====
-- The chains of models that references are made into
-- (infrastructure/registry/config_providers_repo.py).
use holahost.Base.{
  ◌≡◌, refl, String, false, some, List, [], ◌∷◌, All, ok, traverse, Bool-cases, arith,
}
use mathlib.Core.Path.{subst}
use mathlib.Core.Logic.{inl, inr}
use holahost.Base.Equality.{◌=?◌, string_eq}
use holahost.Base.Dict.{Dict, get}
use holahost.Llm.Entities.{Model}
use holahost.Llm.Config.{ModelEntry, ProviderEntry, ModelRef, RegistryFile}
use holahost.Llm.Registry.Load.{chain, chains}
use holahost.Llm.Registry.Load.Faithful.{Models}

-- Elements of two lists in the same places.

abbrev pub Pairs : {A B : Type 0} → (A → B → Type 0) → List A → List B → Type 0
Pairs Q [] [] = Unit
Pairs Q [] (y ∷ ys) = ⊥
Pairs Q (x ∷ xs) [] = ⊥
Pairs Q (x ∷ xs) (y ∷ ys) = Q x y × Pairs Q xs ys

-- The model that the reference names: the file specifies it under the provider, and it has the
-- provider's name and switch, the id, and the specification's deprecation.
pub record IsNamed (file : RegistryFile) (ref : ModelRef) (m : Model) : Type 0 where
  pub entry : ProviderEntry
  pub spec : ModelEntry
  pub has_entry : get ref.provider file.providers ≡ some entry
  pub has_spec : get ref.model entry.models ≡ some spec
  pub is_model : Models ref.provider entry ref.model spec m

-- The same, of a model that is not deprecated.
abbrev pub IsOffered : RegistryFile → ModelRef → Model → Type 0
IsOffered file ref m = IsNamed file ref m × (m.deprecated ≡ false)

-- Where each reference has its model, the chain is those models.
module _ (Q : ModelRef → Model → Type 0) (models : Dict String Model) where
  abbrev pub Held : ModelRef → Type 0
  Held ref = (m : Model) × (get ref.model models ≡ some m) × Q ref m

  pub chain-Pairs :
      (refs : List ModelRef)
      → All Held refs
      → (ms : List Model) × (chain models refs ≡ ok ms) × Pairs Q refs ms
  unfolding chain traverse
  chain-Pairs [] h = ([], refl, tt)
  chain-Pairs (ref ∷ refs) ((m, e, q), h) =
      let (ms, e', qs) = chain-Pairs refs h in (m ∷ ms, ground (arith, e, e'), (q, qs))

  pub chains-Pairs :
      (aliases : Dict String (List ModelRef))
      → All (λ (e : String × List ModelRef). All Held e.1) aliases
      → (cs : Dict String (List Model)) × (chains models aliases ≡ ok cs)
        × ((alias : String) (refs : List ModelRef)
            → get alias aliases ≡ some refs
            → (ms : List Model) × (get alias cs ≡ some ms) × Pairs Q refs ms)
  unfolding chains get
  chains-Pairs [] h = ([], refl, λ alias refs g. ground (arith, g))
  chains-Pairs ((alias, refs) ∷ aliases) (h, hs) =
      let (ms, e, qs) = chain-Pairs refs h in
      let (cs, e', rest) = chains-Pairs aliases hs in
      (
        (alias, ms) ∷ cs,
        ground (arith, e, e'),
        λ name refs' g. elim (Bool-cases (name =? alias)) [
          | inl same ↦
              (ms, ground (arith, same), subst (λ x. Pairs Q x ms) (grind (arith, g, same)) qs)
          | inr other ↦
              let (ms', e'', qs') = rest name refs' (grind (arith, g, other)) in
              (ms', grind (arith, e'', other), qs')
        ],
      )
