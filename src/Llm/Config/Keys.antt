-- ===== src/Llm/Config/Keys.antt =====
-- The providers' keys (config/provider_keys.py).
pub mod Complete
use Prim.Native.Char.{Char, code}
use Prim.Native.String.{◌++◌ as ◌⧺◌}
use holahost.Base.{
  ℕ, String, Bool, Option, none, some, List, [], ◌∷◌, ◌++◌, Result, ok, err, ◌==◌, if◌then◌else◌,
}
use holahost.Base.Equality.{string_eq}
use holahost.Base.Text.{is_blank}
use holahost.Base.Dict.{Dict, get, put}
use holahost.Llm.Config.{RegistryFile, enabled_key_refs}

-- A character, or the one that stands in its place in the other text
abbrev translated : Char → String → String → String
translated c String.[] _ = String.◌∷◌ c String.[]
translated c (String.◌∷◌ x from) String.[] = String.◌∷◌ c String.[]
translated c (String.◌∷◌ x from) (String.◌∷◌ y to) =
    let rest = translated c from to in if code c == code x then String.◌∷◌ y String.[] else rest

-- `ref.upper().replace("-", "_")`, of a reference as the schema has it
unfoldable pub key_variable : String → String
key_variable String.[] = String.[]
key_variable (String.◌∷◌ c ref) =
    translated c "abcdefghijklmnopqrstuvwxyz-" "ABCDEFGHIJKLMNOPQRSTUVWXYZ_" ⧺ key_variable ref

-- `environ.get(…, "")`
abbrev pub or_empty : Option String → String
or_empty none = ""
or_empty (some value) = value

-- The loop over the references, with the keys and the missing variables so far
unfoldable pub read_keys :
    Dict String String
    → Dict String String
    → Dict String String
    → List String
    → Result (List String) (Dict String String)
unfolding key_variable
read_keys environ [] keys [] = ok keys
read_keys environ [] keys (name ∷ missing) = err (name ∷ missing)
read_keys environ ((provider, ref) ∷ refs) keys missing =
    let value = or_empty (get (key_variable ref) environ) in
    let more = read_keys environ refs (put provider value keys) missing in
    let without = read_keys environ refs keys (missing ++ (key_variable ref ∷ [])) in
    if is_blank value then without else more

-- `read_provider_keys`, which raises `MissingProviderKeyError` of every variable that is missing
unfoldable pub read_provider_keys :
    RegistryFile → Dict String String → Result (List String) (Dict String String)
read_provider_keys file environ = read_keys environ (enabled_key_refs file) [] []
