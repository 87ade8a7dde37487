-- ===== src/Llm/Registry/Load/Faithful.antt =====
-- The models that `load_providers_repo` builds (infrastructure/registry/config_providers_repo.py).
use mathlib.Core.Path.{subst}
use holahost.Base.{
  ℕ, ◌≤◌, ◌≡◌, refl, sym, ◌∙◌, ap, inl, inr, String, Bool, some, [], ◌∷◌, map, and_then-Returns,
  Returns, Returns-any, or_raise-Returns, Returns-weaken, Bool-cases, arith,
}
use holahost.Base.Int.{ℤ}
use holahost.Base.Equality.{◌=?◌, string_eq}
use holahost.Base.Dict.{Dict, get, put, get-put}
use holahost.Llm.Values.{ModelId, make_provider_name, make_model_id}
use holahost.Llm.Entities.{Provider, Model, Decimal, make_provider, make_model}
use holahost.Llm.Config.{ModelEntry, ProviderEntry, model_ids}
use holahost.Llm.Config.Counting.{occurrences, occurrences-append}
use holahost.Llm.Registry.Load.{provider_of, model_of, add_models, add_providers}

-- The provider of the entry.
abbrev pub Named : String → ProviderEntry → Provider → Type 0
Named name entry p = (p.name.value ≡ name) × (p.enabled ≡ entry.enabled)

-- The model of the specification, under the provider of the entry.
pub record Models (name : String) (entry : ProviderEntry) (id : String) (spec : ModelEntry)
    (m : Model) : Type 0 where
  pub named : Named name entry m.provider
  pub of_id : m.id.value ≡ id
  pub same_deprecated : m.deprecated ≡ spec.deprecated

make_model_id-value : (id : String) → Returns (λ (i : ModelId). i.value ≡ id) (make_model_id id)
unfolding make_model_id
make_model_id-value id = ground arith

make_model-fields :
    (p : Provider) (id : ModelId) (c o : ℤ) (i u : Decimal) (t : ℤ) (d : Bool)
    → Returns
        (λ (m : Model). (m.provider ≡ p) × (m.id ≡ id) × (m.deprecated ≡ d))
        (make_model p id c o i u t d)
unfolding make_model
make_model-fields p id c o i u t d = ground arith

pub provider_of-Named :
    (name : String) (entry : ProviderEntry) → Returns (Named name entry) (provider_of name entry)
unfolding provider_of make_provider make_provider_name
provider_of-Named name entry = ground arith

module _ (name : String) (entry : ProviderEntry) (p : Provider) (named : Named name entry p) where
  pub model_of-Models :
      (id : String) (spec : ModelEntry)
      → Returns (Models name entry id spec) (model_of name p id spec)
  unfolding model_of
  model_of-Models id spec = or_raise-Returns (Models name entry id spec) _ _ (
      and_then-Returns (λ (i : ModelId). i.value ≡ id) (Models name entry id spec)
        (make_model_id id) _ (make_model_id-value id)
        (λ i e.
          Returns-weaken _ (Models name entry id spec) _
            (λ m h. record {
              named = subst (Named name entry) (sym h.0) named;
              of_id = ap (λ (x : ModelId). x.value) h.1 ∙ e;
              same_deprecated = h.2;
            })
            (make_model-fields p i spec.max_context spec.max_output spec.price_in spec.price_out
              spec.tokens_per_second spec.deprecated)))

  module _ (id : String) where
    -- How often the id stands among the keys.
    abbrev keys_of : Dict String ModelEntry → ℕ
    keys_of specs = occurrences id (map (λ (e : String × ModelEntry). e.0) specs)

    add_models-Others :
        (specs : Dict String ModelEntry) (models : Dict String Model)
        → keys_of specs ≡ 0
        → Returns (λ d. get id d ≡ get id models) (add_models name p specs models)
    unfolding add_models occurrences
    add_models-Others [] models h = refl
    add_models-Others ((j, spec) ∷ specs) models h =
        and_then-Returns (λ _. Unit {0}) _ (model_of name p j spec) _
          (Returns-any (model_of name p j spec))
          (λ m _.
            Returns-weaken (λ d. get id d ≡ get id (put j m models)) (λ d. get id d ≡ get id models)
              (add_models name p specs (put j m models))
              (λ d e. grind (arith, e, get-put j id m models, h))
              (add_models-Others specs (put j m models) (ground (arith, h))))

    -- What the models hold for the id, once they are added.
    abbrev pub Added : ModelEntry → Dict String Model → Type 0
    Added spec d = (m : Model) × (get id d ≡ some m) × Models name entry id spec m

    add_models-Added :
        (specs : Dict String ModelEntry) (models : Dict String Model) (spec : ModelEntry)
        → keys_of specs ≤ 1
        → get id specs ≡ some spec
        → Returns (Added spec) (add_models name p specs models)
    unfolding add_models occurrences get
    add_models-Added [] models spec h g = ground (arith, g)
    add_models-Added ((j, spec') ∷ specs) models spec h g =
        and_then-Returns (Models name entry j spec') (Added spec) (model_of name p j spec') _
          (model_of-Models j spec')
          (λ m of_entry. elim (Bool-cases (id =? j)) [
            | inl same ↦
                let j≡id : j ≡ id = sym ((string_eq.beq_iff id j).0 same) in
                let this : spec' ≡ spec = grind (arith, g, same) in
                Returns-weaken (λ d. get id d ≡ get id (put j m models)) (Added spec)
                  (add_models name p specs (put j m models))
                  (λ d e. (
                    m,
                    grind (arith, e, get-put j id m models, same),
                    subst (λ x. Models name entry id x m) this
                        (subst (λ x. Models name entry x spec' m) j≡id of_entry),
                  ))
                  (add_models-Others specs (put j m models) (grind (arith, h, same)))
            | inr other ↦
                add_models-Added specs (put j m models) spec (grind (arith, h, other))
                  (grind (arith, g, other))
          ])

-- The providers' models: an id that stands once among all of them is the model of its entry.
module _ (id : String) where
  add_providers-Others :
      (providers : Dict String ProviderEntry) (models : Dict String Model)
      → occurrences id (model_ids providers) ≡ 0
      → Returns (λ d. get id d ≡ get id models) (add_providers providers models)
  unfolding add_providers model_ids
  add_providers-Others [] models h = refl
  add_providers-Others ((name, entry) ∷ providers) models h =
      let split =
        occurrences-append id (map (λ (e : String × ModelEntry). e.0) entry.models)
          (model_ids providers) in
      and_then-Returns (Named name entry) (λ d. get id d ≡ get id models) (provider_of name entry) _
        (provider_of-Named name entry)
        (λ p named.
          and_then-Returns (λ d. get id d ≡ get id models) (λ d. get id d ≡ get id models)
            (add_models name p entry.models models) _
            (add_models-Others name entry p named id entry.models models (omega (arith, split, h)))
            (λ d e.
              Returns-weaken (λ d'. get id d' ≡ get id d) (λ d'. get id d' ≡ get id models)
                (add_providers providers d) (λ d' e'. e' ∙ e)
                (add_providers-Others providers d (omega (arith, split, h)))))

  get-occurs :
      (specs : Dict String ModelEntry) (spec : ModelEntry)
      → get id specs ≡ some spec
      → 1 ≤ occurrences id (map (λ (e : String × ModelEntry). e.0) specs)
  unfolding get occurrences
  get-occurs [] spec h = ground (arith, h)
  get-occurs ((j, spec') ∷ specs) spec h = ground (arith, get-occurs specs spec)

  -- What the models hold for the specification of the id in the entry.
  abbrev pub Loaded : String → ProviderEntry → ModelEntry → Dict String Model → Type 0
  Loaded name entry spec d = (m : Model) × (get id d ≡ some m) × Models name entry id spec m

  first-Added :
      (name : String) (entry : ProviderEntry) (providers : Dict String ProviderEntry)
      (models : Dict String Model) (spec : ModelEntry)
      → occurrences id (model_ids ((name, entry) ∷ providers)) ≤ 1
      → get id entry.models ≡ some spec
      → Returns (Loaded name entry spec) (add_providers ((name, entry) ∷ providers) models)
  unfolding add_providers model_ids
  first-Added name entry providers models spec h s =
      let split =
        occurrences-append id (map (λ (e : String × ModelEntry). e.0) entry.models)
          (model_ids providers) in
      let once = get-occurs entry.models spec s in
      and_then-Returns (Named name entry) (Loaded name entry spec) (provider_of name entry) _
        (provider_of-Named name entry)
        (λ p named.
          and_then-Returns (Loaded name entry spec) (Loaded name entry spec)
            (add_models name p entry.models models) _
            (add_models-Added name entry p named id entry.models models spec
              (omega (arith, split, h)) s)
            (λ d (m, here, of_entry).
              Returns-weaken (λ d'. get id d' ≡ get id d) (Loaded name entry spec)
                (add_providers providers d) (λ d' e. (m, e ∙ here, of_entry))
                (add_providers-Others providers d (omega (arith, split, h, once)))))

  pub add_providers-Loaded :
      (providers : Dict String ProviderEntry) (models : Dict String Model) (name : String)
      (entry : ProviderEntry) (spec : ModelEntry)
      → occurrences id (model_ids providers) ≤ 1
      → get name providers ≡ some entry
      → get id entry.models ≡ some spec
      → Returns (Loaded name entry spec) (add_providers providers models)
  unfolding get add_providers model_ids
  add_providers-Loaded [] models name entry spec h g s = ground (arith, g)
  add_providers-Loaded ((j, entry') ∷ providers) models name entry spec h g s =
      elim (Bool-cases (name =? j)) [
        | inl same ↦
            let name≡j = (string_eq.beq_iff name j).0 same in
            let this : entry ≡ entry' = grind (arith, g, same) in
            let h' =
              subst (λ x. occurrences id (model_ids ((name, x) ∷ providers)) ≤ 1) (sym this)
                (subst (λ x. occurrences id (model_ids ((x, entry') ∷ providers)) ≤ 1) (sym name≡j)
                  h) in
            subst
              (λ x.
                Returns (Loaded name entry spec) (add_providers ((x, entry') ∷ providers) models))
              name≡j
              (subst
                (λ x.
                  Returns (Loaded name entry spec) (add_providers ((name, x) ∷ providers) models))
                this (first-Added name entry providers models spec h' s))
        | inr other ↦
            let split =
              occurrences-append id (map (λ (e : String × ModelEntry). e.0) entry'.models)
                (model_ids providers) in
            and_then-Returns (λ _. Unit {0}) (Loaded name entry spec) (provider_of j entry') _
              (Returns-any (provider_of j entry'))
              (λ p _.
                and_then-Returns (λ _. Unit {0}) (Loaded name entry spec)
                  (add_models j p entry'.models models) _
                  (Returns-any (add_models j p entry'.models models))
                  (λ d _.
                    add_providers-Loaded providers d name entry spec (omega (arith, split, h))
                      (grind (arith, g, other)) s))
      ]
