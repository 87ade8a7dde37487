-- ===== src/Guest/Settings.antt =====
-- The settings (guest_reply/config.py). How pydantic-settings reads the environment, applying the
-- validator of the origins, and how `httpx.URL` reads a text are not of this program.
use Prim.Native.Char.{code}
use Prim.Native.String.{◌++◌ as ◌⧺◌}
use holahost.Base.{
  String, Bool, not, none, ◌&&◌, ◌||◌, List, [], ◌∷◌, Result, ok, err, ◌==◌, if◌then◌else◌,
}
use holahost.Base.Equality.{◌=?◌, string_eq}
use holahost.Base.Dict.{Dict, put}
use holahost.Base.Action.{pure, raise}
use holahost.Auth.{Members, text, member, last, is_empty}
use holahost.Guest.Errors.{failed, new_error, configuration}
use holahost.Guest.World.{M}

pub record Url : Type 0 where
  pub scheme : String
  pub host : String
  pub path : String
  pub query : String

pub data Field : Type 0 where
  rag_documents_url llm_client_url token model_alias : Field

-- A missing variable, or another problem with its message.
pub record ErrorDetails : Type 0 where
  pub loc : Field
  pub kind : String
  pub msg : String

pub record Settings : Type 0 where
  pub rag_documents_url : String
  pub llm_client_url : String
  pub token : String
  pub model_alias : String

-- `_LOCAL_HOSTS`
abbrev pub is_local : String → Bool
is_local host = (host =? "localhost") || (host =? "127.0.0.1") || (host =? "::1")

-- `value.rstrip("/")`
unfoldable pub rstrip_slashes : String → String
rstrip_slashes String.[] = String.[]
rstrip_slashes (String.◌∷◌ c s) =
    let rest = rstrip_slashes s in
    if code c == 47 && is_empty rest then String.[] else String.◌∷◌ c rest

abbrev pub origin_of : String → Result String Url → Result String String
origin_of value (err problem) = err problem
origin_of value (ok url) =
    if not ((url.scheme =? "http") || (url.scheme =? "https")) || is_empty url.host
    then err "expected an origin such as http://localhost:8080"
    else if not (is_empty url.path || (url.path =? "/")) || not (is_empty url.query)
    then err "expected an origin without a path — the client adds /api/<service>"
    else if (url.scheme =? "http") && not (is_local url.host)
    then err "a non-local address requires https"
    else ok (rstrip_slashes value)

-- `Settings._an_origin`
unfoldable pub an_origin : (String → Result String Url) → String → Result String String
an_origin read_url value = origin_of value (read_url value)

-- `_problem`
abbrev problem : ErrorDetails → String
problem item = if item.kind =? "missing" then "not set" else item.msg

-- `_variable`
abbrev pub variable : Field → String
variable rag_documents_url = "HOLAHOST_RAG_DOCUMENTS_URL"
variable llm_client_url = "HOLAHOST_LLM_CLIENT_URL"
variable token = "HOLAHOST_TOKEN"
variable model_alias = "HOLAHOST_MODEL_ALIAS"

-- `{_variable(item): _problem(item) for item in error.errors()}`, after the problems so far
unfoldable pub problems_of : List ErrorDetails → Dict String String → Dict String String
problems_of [] problems = problems
problems_of (item ∷ items) problems =
    problems_of items (put (variable item.loc) (problem item) problems)

abbrev pub text_members : Dict String String → Members
text_members [] = last
text_members ((name, value) ∷ d) = member name (text value) (text_members d)

-- `"; ".join(f"{name}: {problem}" …)`
unfoldable pub listed : Dict String String → String
listed [] = ""
listed ((name, problem) ∷ []) = name ⧺ (": " ⧺ problem)
listed ((name, problem) ∷ p ∷ d) = name ⧺ (": " ⧺ (problem ⧺ ("; " ⧺ listed (p ∷ d))))

abbrev invalid : Dict String String → M Settings
invalid problems = raise (
    failed
      (new_error configuration ("invalid configuration — " ⧺ listed problems) none
        (text_members problems))
      none)

abbrev pub loaded : Result (List ErrorDetails) Settings → M Settings
loaded (ok settings) = pure settings
loaded (err errors) = invalid (problems_of errors [])

-- `Settings()`, given the validator of the two origins.
abbrev pub Reader : Type 0
Reader = (String → Result String String) → Result (List ErrorDetails) Settings

unfoldable pub load_settings : (String → Result String Url) → Reader → M Settings
load_settings read_url settings = loaded (settings (an_origin read_url))
