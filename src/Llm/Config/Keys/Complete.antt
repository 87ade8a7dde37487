-- ===== src/Llm/Config/Keys/Complete.antt =====
-- Keys that are read are all that were asked for (config/provider_keys.py).
use holahost.Base.{
  ◌≡◌, refl, String, Bool, true, false, Option, none, some, List, [], ◌∷◌, ◌++◌, ok, Returns,
  Returns-weaken, Returns-both, Returns-ok, ap, ◌⊎◌, inl, inr, if-cases, is_some, All, arith,
}
use holahost.Base.Equality.{string_eq}
use holahost.Base.Text.{is_blank}
use holahost.Base.Dict.{Dict, get, put, get-put, get-put_self}
use holahost.Llm.Config.{ProviderEntry, RegistryFile, key_ref_of, key_refs, enabled_key_refs}
use holahost.Llm.Config.Keys.{key_variable, or_empty, read_keys, read_provider_keys}

-- There is a key under the name.
abbrev pub Has : String → Dict String String → Type 0
Has name keys = is_some (get name keys) ≡ true

Has-put :
    (name j : String) (v : String) (keys : Dict String String)
    → Has name keys
    → Has name (put j v keys)
Has-put name j v keys h = grind (arith, get-put j name v keys, h)

module _ (environ : Dict String String) where
  read_keys-missing :
      (refs keys : Dict String String) (m : String) (ms : List String)
      → Returns (λ _. ⊥) (read_keys environ refs keys (m ∷ ms))
  unfolding read_keys
  read_keys-missing [] keys m ms = tt
  read_keys-missing ((name, ref) ∷ refs) keys m ms =
      if-cases (Returns (λ _. ⊥)) (is_blank (or_empty (get (key_variable ref) environ))) _ _
        (λ _. read_keys-missing refs keys m (ms ++ (key_variable ref ∷ [])))
        (λ _. read_keys-missing refs (put name _ keys) m ms)

  read_keys-snoc :
      (refs keys : Dict String String) (missing : List String) (m : String)
      → Returns (λ _. ⊥) (read_keys environ refs keys (missing ++ (m ∷ [])))
  read_keys-snoc refs keys [] m = read_keys-missing refs keys m []
  read_keys-snoc refs keys (x ∷ xs) m = read_keys-missing refs keys x (xs ++ (m ∷ []))

  read_keys-Keeps :
      (refs keys : Dict String String) (missing : List String) (name : String)
      → Has name keys
      → Returns (Has name) (read_keys environ refs keys missing)
  unfolding read_keys
  read_keys-Keeps [] keys [] name h = h
  read_keys-Keeps [] keys (m ∷ ms) name h = tt
  read_keys-Keeps ((j, ref) ∷ refs) keys missing name h =
      if-cases (Returns (Has name)) (is_blank (or_empty (get (key_variable ref) environ))) _ _
        (λ _. read_keys-Keeps refs keys (missing ++ (key_variable ref ∷ [])) name h)
        (λ _. read_keys-Keeps refs (put j _ keys) missing name (Has-put name j _ keys h))

  read_keys-All :
      (refs keys : Dict String String) (missing : List String)
      → Returns
          (λ ks. All (λ (e : String × String). Has e.0 ks) refs)
          (read_keys environ refs keys missing)
  unfolding read_keys
  read_keys-All [] keys [] = tt
  read_keys-All [] keys (m ∷ ms) = tt
  read_keys-All ((name, ref) ∷ refs) keys missing =
      if-cases (Returns (λ ks. All (λ (e : String × String). Has e.0 ks) ((name, ref) ∷ refs)))
        (is_blank (or_empty (get (key_variable ref) environ))) _ _
        (λ _.
          Returns-weaken (λ _. ⊥)
            (λ ks. All (λ (e : String × String). Has e.0 ks) ((name, ref) ∷ refs)) _
            (λ _ none. absurd none) (read_keys-snoc refs keys missing (key_variable ref)))
        (λ _.
          let value = or_empty (get (key_variable ref) environ) in
          Returns-both (Has name) (λ ks. All (λ (e : String × String). Has e.0 ks) refs)
            (read_keys environ refs (put name value keys) missing)
            (read_keys-Keeps refs (put name value keys) missing name
              (ap is_some (get-put_self name value keys)))
            (read_keys-All refs (put name value keys) missing))

-- The enabled providers that have a reference are asked for.
module _ (P : String → Type 0) where
  WhenAsked : String × ProviderEntry → Type 0
  WhenAsked (name, entry) = (entry.enabled ≡ false) ⊎ ((entry.api_key_ref ≡ none) ⊎ P name)

  asked-All :
      (providers : Dict String ProviderEntry)
      → All (λ (e : String × String). P e.0) (key_refs providers)
      → All WhenAsked providers
  unfolding WhenAsked key_refs
  asked-All [] h = tt
  asked-All ((name, entry) ∷ providers) h =
      let (here, rest) = asked entry.enabled entry.api_key_ref (key_refs providers) h in
      (here, asked-All providers rest)
    where
      asked :
          (on : Bool) (o : Option String) (rest : Dict String String)
          → All (λ (e : String × String). P e.0) (key_ref_of name on o ++ rest)
          → ((on ≡ false) ⊎ ((o ≡ none) ⊎ P name)) × All (λ (e : String × String). P e.0) rest
      asked false none rest h = (inl refl, h)
      asked true none rest h = (inr (inl refl), h)
      asked false (some ref) rest h = (inl refl, h)
      asked true (some ref) rest h = (inr (inr h.0), h.1)

-- With the keys read, every enabled provider that has a key reference has its key.
pub read_provider_keys-Has :
    (file : RegistryFile) (environ keys : Dict String String)
    → read_provider_keys file environ ≡ ok keys
    → All
        (λ (e : String × ProviderEntry).
          (e.1.enabled ≡ false) ⊎ ((e.1.api_key_ref ≡ none) ⊎ Has e.0 keys))
        file.providers
unfolding read_provider_keys enabled_key_refs WhenAsked
read_provider_keys-Has file environ keys h =
    asked-All (λ name. Has name keys) file.providers
      (Returns-ok (λ ks. All (λ (e : String × String). Has e.0 ks) (key_refs file.providers)) _ keys
        h (read_keys-All environ (key_refs file.providers) [] []))
