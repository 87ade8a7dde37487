-- ===== src/Llm/Providers/Built.antt =====
-- The chat models that are built at the start (infrastructure/providers).
use holahost.Base.{
  ◌≡◌, refl, ap, ◌⊎◌, inl, inr, String, true, false, Option, none, some, [], ◌∷◌, map, All,
  All-weaken, any, is_some, Bool-cases, ok, arith,
}
use holahost.Base.Equality.{◌=?◌, string_eq, pair_eq}
use holahost.Base.Dict.{Dict, get, put, get-put, get-put_self}
use holahost.Llm.Config.{ModelEntry, ProviderEntry}
use holahost.Llm.Config.Keys.Complete.{Has}
use holahost.Llm.Dialects.{Dialect, ChatModel}
use holahost.Llm.Providers.{add_chat_models, entry_chat_models, all_chat_models}

-- There is a chat model for the provider's model.
abbrev pub HasModel : String × String → Dict (String × String) ChatModel → Type 0
HasModel key chat_models = is_some (get key chat_models) ≡ true

pub any-get :
    {V : Type 0}
    → (name : String) (table : Dict String V)
    → any (λ n. name =? n) (map (λ (e : String × V). e.0) table) ≡ true
    → is_some (get name table) ≡ true
unfolding any get
any-get name [] h = ground (arith, h)
any-get name ((j, v) ∷ table) h = ground (arith, h, any-get name table)

HasModel-put :
    (k j : String × String) (c : ChatModel) (cm : Dict (String × String) ChatModel)
    → HasModel k cm
    → HasModel k (put j c cm)
HasModel-put k j c cm h = grind (arith, get-put j k c cm, h)

module _ (dialect : Dialect) (provider key : String) (base_url : Option String) where
  add_chat_models-Keeps :
      (specs : Dict String ModelEntry) (cm : Dict (String × String) ChatModel) (k : String × String)
      → HasModel k cm
      → HasModel k (add_chat_models dialect provider key base_url specs cm)
  unfolding add_chat_models
  add_chat_models-Keeps [] cm k h = h
  add_chat_models-Keeps ((id, spec) ∷ specs) cm k h =
      add_chat_models-Keeps specs _ k (HasModel-put k (provider, id) _ cm h)

  add_chat_models-Has :
      (specs : Dict String ModelEntry) (cm : Dict (String × String) ChatModel)
      → All
          (λ (e : String × ModelEntry).
            HasModel (provider, e.0) (add_chat_models dialect provider key base_url specs cm))
          specs
  unfolding add_chat_models
  add_chat_models-Has [] cm = tt
  add_chat_models-Has ((id, spec) ∷ specs) cm = (
    add_chat_models-Keeps specs _ (provider, id)
        (ap is_some (get-put_self (provider, id) (dialect.chat_model id key base_url) cm)),
    add_chat_models-Has specs (put (provider, id) (dialect.chat_model id key base_url) cm),
  )

  entry-ok :
      (specs : Dict String ModelEntry) (cm : Dict (String × String) ChatModel)
      → entry_chat_models (some dialect) (some key) provider base_url specs cm
        ≡ ok (add_chat_models dialect provider key base_url specs cm)
  unfolding add_chat_models
  entry-ok [] cm = refl
  entry-ok (e ∷ specs) cm = refl

-- Switched off, or with a chat model for each of its models.
abbrev pub IsBuilt : Dict (String × String) ChatModel → String × ProviderEntry → Type 0
IsBuilt cm (name, entry) =
    (entry.enabled ≡ false)
    ⊎ All (λ (e : String × ModelEntry). HasModel (name, e.0) cm) entry.models

module _ (table : Dict String Dialect) (keys : Dict String String) (base_url : Option String) where
  -- Switched off, or with an adapter and a key.
  unfoldable pub IsSupplied : String × ProviderEntry → Type 0
  IsSupplied (name, entry) =
      (entry.enabled ≡ false) ⊎ ((is_some (get name table) ≡ true) × Has name keys)

  -- The chat models of every enabled provider's models are among them, and those before.
  pub record Built (providers : Dict String ProviderEntry)
      (cm cm' : Dict (String × String) ChatModel) : Type 0 where
    pub kept : (k : String × String) → HasModel k cm → HasModel k cm'
    pub all : All (IsBuilt cm') providers

  skipped-Built :
      (name : String) (entry : ProviderEntry) (providers : Dict String ProviderEntry)
      (cm cm' : Dict (String × String) ChatModel)
      → entry.enabled ≡ false
      → Built providers cm cm'
      → Built ((name, entry) ∷ providers) cm cm'
  skipped-Built name entry providers cm cm' off b = record { kept = b.kept; all = (inl off, b.all) }

  added-Built :
      (name : String) (entry : ProviderEntry) (providers : Dict String ProviderEntry)
      (dialect : Dialect) (key : String) (cm cm' : Dict (String × String) ChatModel)
      → Built providers (add_chat_models dialect name key base_url entry.models cm) cm'
      → Built ((name, entry) ∷ providers) cm cm'
  added-Built name entry providers dialect key cm cm' b = record {
    kept = λ k h. b.kept k (add_chat_models-Keeps dialect name key base_url entry.models cm k h);
    all = (
      inr (
          All-weaken _ (λ (e : String × ModelEntry). HasModel (name, e.0) cm')
            (λ e h. b.kept (name, e.0) h) entry.models
            (add_chat_models-Has dialect name key base_url entry.models cm)),
      b.all,
    );
  }

  found : {V : Type 0} → (o : Option V) → is_some o ≡ true → (v : V) × (o ≡ some v)
  found none h = ground (arith, h)
  found (some v) h = (v, refl)

  pub all_chat_models-Built :
      (providers : Dict String ProviderEntry)
      → All IsSupplied providers
      → (cm : Dict (String × String) ChatModel)
      → (cm' : Dict (String × String) ChatModel) × (all_chat_models table keys base_url providers cm
          ≡ ok cm')
        × Built providers cm cm'
  unfolding all_chat_models IsSupplied get
  all_chat_models-Built [] h cm = (cm, refl, record { kept = λ k h. h; all = tt })
  all_chat_models-Built ((name, entry) ∷ providers) (inl off, hs) cm =
      let (cm', e, b) = all_chat_models-Built providers hs cm in
      (cm', ground (arith, off, e), skipped-Built name entry providers cm cm' off b)
  all_chat_models-Built ((name, entry) ∷ providers) (inr (d, k), hs) cm =
      elim (Bool-cases entry.enabled) [
        | inl on ↦
            let (dialect, at_table) = found (get name table) d in
            let (key, at_keys) = found (get name keys) k in
            let cm₁ = add_chat_models dialect name key base_url entry.models cm in
            let (cm', e, b) = all_chat_models-Built providers hs cm₁ in
            (
              cm',
              rw on (
                  rw at_table
                    (rw at_keys (rw (entry-ok dialect name key base_url entry.models cm) e))),
              added-Built name entry providers dialect key cm cm' b,
            )
        | inr off ↦
            let (cm', e, b) = all_chat_models-Built providers hs cm in
            (cm', ground (arith, off, e), skipped-Built name entry providers cm cm' off b)
      ]
