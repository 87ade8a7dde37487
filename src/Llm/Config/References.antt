-- ===== src/Llm/Config/References.antt =====
-- What a registry file without problems promises (config/registry.py).
use holahost.Base.{
  ℕ, ◌≤◌, ◌≡◌, refl, String, false, not, Option, none, some, List, [], ◌∷◌, ◌++◌, map, keep, any,
  All, ok, err, if◌then◌else◌, arith, is_some,
}
use holahost.Base.Equality.{◌=?◌, string_eq}
use holahost.Base.Dict.{Dict}
use holahost.Llm.Config.{
  ModelEntry, ModelRef, RegistryFile, Problem, no_candidates, also_a_model_id,
  listed_more_than_once, idle_problems, shared_problems, unknown_target, shared_model_id,
  has_repeat, model_ids, when, is_empty_list, candidate_problems, counter, find_model,
  chain_problems, problems_of_aliases, alias_problems, target_problems, provider_problems, problems,
  check_references,
}
use holahost.Llm.Config.Counting.{occurrences, counter-occurrences, keep-few}

module _ {A : Type 0} where
  append-nil : (xs ys : List A) → xs ++ ys ≡ [] → (xs ≡ []) × (ys ≡ [])
  append-nil [] ys h = (refl, h)
  append-nil (x ∷ xs) ys h = ground (arith, h)

  map-nil : {B : Type 0} → (f : A → B) (xs : List A) → map f xs ≡ [] → xs ≡ []
  map-nil f [] h = refl
  map-nil f (x ∷ xs) h = ground (arith, h)

-- The reference is to a model of the file.
pub record Names (file : RegistryFile) (ref : ModelRef) : Type 0 where
  pub entry : ModelEntry
  pub found : find_model file ref ≡ some entry

module _ (file : RegistryFile) where
  candidate-Names :
      (alias : String) (ref : ModelRef) (o : Option ModelEntry)
      → find_model file ref ≡ o
      → candidate_problems alias ref o ≡ []
      → (n : Names file ref) × (n.entry.deprecated ≡ false)
  candidate-Names alias ref none e h = ground (arith, h)
  candidate-Names alias ref (some entry) e h =
      (record { entry = entry; found = e }, ground (arith, h))

  -- A candidate that may be called.
  abbrev pub IsCurrent : ModelRef → Type 0
  IsCurrent ref = (n : Names file ref) × (n.entry.deprecated ≡ false)

  chain-IsCurrent :
      (alias : String) (refs : List ModelRef)
      → chain_problems file alias refs ≡ []
      → All IsCurrent refs
  unfolding chain_problems
  chain-IsCurrent alias [] h = tt
  chain-IsCurrent alias (ref ∷ refs) h =
      let (here, rest) = append-nil (candidate_problems alias ref (find_model file ref)) _ h in
      (candidate-Names alias ref (find_model file ref) refl here, chain-IsCurrent alias refs rest)

  aliases-IsCurrent :
      (aliases : Dict String (List ModelRef))
      → problems_of_aliases file aliases ≡ []
      → All (λ (e : String × List ModelRef). All IsCurrent e.1) aliases
  unfolding problems_of_aliases
  aliases-IsCurrent [] h = tt
  aliases-IsCurrent ((name, refs) ∷ aliases) h =
      let (_, h₁) = append-nil (when (is_empty_list refs) (no_candidates name)) _ h in
      let (_, h₂) =
        append-nil (when (any (λ id. name =? id) (model_ids file.providers)) (also_a_model_id name))
          _ h₁ in
      let (_, h₃) = append-nil (when (has_repeat refs) (listed_more_than_once name)) _ h₂ in
      let (here, rest) = append-nil (chain_problems file name refs) _ h₃ in
      (chain-IsCurrent name refs here, aliases-IsCurrent aliases rest)

  target-Names :
      (ref : ModelRef) (refs : List ModelRef) (o : Option ModelEntry)
      → find_model file ref ≡ o
      → (if not (is_some o) then ref ∷ refs else refs) ≡ []
      → Names file ref × (refs ≡ [])
  target-Names ref refs none e h = ground (arith, h)
  target-Names ref refs (some entry) e h = (record { entry = entry; found = e }, h)

  targets-Names :
      (refs : List ModelRef)
      → keep (λ ref. not (is_some (find_model file ref))) refs ≡ []
      → All (Names file) refs
  unfolding keep
  targets-Names [] h = tt
  targets-Names (ref ∷ refs) h =
      let (here, rest) = target-Names ref _ (find_model file ref) refl h in
      (here, targets-Names refs rest)

  -- A file without problems: the candidates of every alias are current models of the file, the
  -- downgrade targets are models of it, and no model id stands under two providers.
  pub record Sound : Type 0 where
    pub candidates : All (λ (e : String × List ModelRef). All IsCurrent e.1) file.aliases
    pub targets : All (Names file) file.downgrade_targets
    pub owned_once : (id : String) → occurrences id (model_ids file.providers) ≤ 1

  problems-Sound : problems file ≡ [] → Sound
  unfolding problems alias_problems target_problems provider_problems
  problems-Sound h =
      let (of_aliases, h₁) = append-nil (alias_problems file) _ h in
      let (of_targets, h₂) = append-nil (target_problems file) _ h₁ in
      let (of_providers, _) = append-nil (provider_problems file) _ h₂ in
      let (unknown, _) = append-nil (map unknown_target _) _ of_targets in
      let (_, shared) = append-nil (idle_problems file) (shared_problems file) of_providers in
      record {
        candidates = aliases-IsCurrent file.aliases of_aliases;
        targets = targets-Names file.downgrade_targets (map-nil unknown_target _ unknown);
        owned_once = λ id. omega (
          arith,
          keep-few id (counter (model_ids file.providers) [])
              (map-nil (λ (e : String × ℕ). shared_model_id e.0) _ shared),
          counter-occurrences id (model_ids file.providers) [],
        );
      }

  pub check_references-Sound : check_references file ≡ ok file → Sound
  unfolding check_references
  check_references-Sound h = problems-Sound (accepted (problems file) h)
    where
      accepted :
          (ps : List Problem) → (if is_empty_list ps then ok file else err ps) ≡ ok file → ps ≡ []
      accepted [] h = refl
      accepted (p ∷ ps) h = ground (arith, h)
