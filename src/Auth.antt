-- ===== src/Auth.antt =====
-- libs/holahost-auth: `authenticate` (holahost_auth/validator.py) and the middleware that calls it
-- (holahost_auth/middleware.py). What PyJWT and its key client answer is the environment's.
pub mod Trust
mod Tests
use Prim.Native.Char.{code}
use holahost.Base.{
  ℕ, ◌+◌, String, Bool, true, false, ◌&&◌, ◌||◌, not, Option, none, some, List, [], ◌∷◌, map,
  Result, ok, err, any, and_then, leb, ◌==◌, if◌then◌else◌,
}
use holahost.Base.Int.{ℤ}
use holahost.Base.Equality.{Eq, ◌=?◌, string_eq}
use holahost.Base.Dict.{Dict, get}
use holahost.Base.Octets.{same_name}

-- A value of a token's claims.
mutual
  pub data Json : Type 0 where
    null : Json
    boolean : Bool → Json
    number : ℤ → Json
    text : String → Json
    array : Items → Json
    object : Members → Json

  pub data Items : Type 0 where
    end : Items
    item : Json → Items → Items

  pub data Members : Type 0 where
    last : Members
    member : String → Json → Members → Members

pub data Failure : Type 0 where
  authentication_error jwks_unavailable key_error : Failure

-- What `get_signing_key_from_jwt` raises.
pub data KeyFailure : Type 0 where
  connection_error json_decode_error client_error invalid_token : KeyFailure

-- The key client and `jwt.decode` under the service's configuration, which may refuse the token.
pub record Jwt : Type 0 where
  pub signing_key : String → Result KeyFailure ℕ
  pub decode : String → ℕ → Option (Dict String Json)

pub record TokenContext : Type 0 where
  pub subject : Json
  pub client_id : Json
  pub roles : List String
  pub act : Option String

-- `value.partition(" ")`, without the separator
unfoldable pub partition : String → String × String
partition String.[] = (String.[], String.[])
partition (String.◌∷◌ c s) =
    let (before, after) = partition s in
    if code c == 32 then (String.[], s) else (String.◌∷◌ c before, after)

abbrev pub is_empty : String → Bool
is_empty String.[] = true
is_empty (String.◌∷◌ c s) = false

-- A key client's failure: only an outage is not the token's fault.
abbrev pub failure_of : KeyFailure → Failure
failure_of connection_error = jwks_unavailable
failure_of json_decode_error = jwks_unavailable
failure_of client_error = authentication_error
failure_of invalid_token = authentication_error

-- The items, where each is a string.
unfoldable pub strings : Items → Result Failure (List String)
strings end = ok []
strings (item (text s) items) = and_then (strings items) (λ rest. ok (s ∷ rest))
strings (item null items) = err authentication_error
strings (item (boolean b) items) = err authentication_error
strings (item (number n) items) = err authentication_error
strings (item (array xs) items) = err authentication_error
strings (item (object ms) items) = err authentication_error

-- `_validated_roles`, of `claims.get("roles", [])`
unfoldable pub validated_roles : Option Json → Result Failure (List String)
validated_roles none = ok []
validated_roles (some (array items)) = strings items
validated_roles (some null) = err authentication_error
validated_roles (some (boolean b)) = err authentication_error
validated_roles (some (number n)) = err authentication_error
validated_roles (some (text s)) = err authentication_error
validated_roles (some (object ms)) = err authentication_error

-- `act_claim.get("sub")`
unfoldable pub member_of : String → Members → Option Json
member_of name last = none
member_of name (member other value members) =
    if name =? other then some value else member_of name members

-- A delegating subject is a text that is not empty.
abbrev pub delegate : Option Json → Result Failure (Option String)
delegate (some (text s)) = if is_empty s then err authentication_error else ok (some s)
delegate _ = err authentication_error

-- `_validated_act`, of `claims.get("act")`
unfoldable pub validated_act : Option Json → Result Failure (Option String)
validated_act none = ok none
validated_act (some null) = ok none
validated_act (some (object members)) = delegate (member_of "sub" members)
validated_act (some (boolean b)) = err authentication_error
validated_act (some (number n)) = err authentication_error
validated_act (some (text s)) = err authentication_error
validated_act (some (array xs)) = err authentication_error

-- `claims[name]`
abbrev pub claim : String → Dict String Json → Result Failure Json
claim name claims = elim (get name claims) [ some value ↦ ok value | none ↦ err key_error ]

-- `TokenContext(…)`, whose arguments are read in this order
unfoldable pub context_of : Dict String Json → Result Failure TokenContext
context_of claims = and_then (claim "sub" claims) (λ subject.
    and_then (claim "client_id" claims) (λ client_id.
      and_then (validated_roles (get "roles" claims)) (λ roles.
        and_then (validated_act (get "act" claims)) (λ act.
          ok (record { subject = subject; client_id = client_id; roles = roles; act = act })))))

module _ (jwt : Jwt) where
  abbrev pub decoded : Option (Dict String Json) → Result Failure TokenContext
  decoded none = err authentication_error
  decoded (some claims) = context_of claims

  abbrev pub verified : String → Result KeyFailure ℕ → Result Failure TokenContext
  verified token (ok key) = decoded (jwt.decode token key)
  verified token (err e) = err (failure_of e)

  abbrev pub bearer : String × String → Result Failure TokenContext
  bearer (scheme, token) =
      if not (scheme =? "Bearer") || is_empty token
      then err authentication_error
      else verified token (jwt.signing_key token)

  -- `authenticate`
  unfoldable pub authenticate : Option String → Result Failure TokenContext
  authenticate none = err authentication_error
  authenticate (some header) = bearer (partition header)

-- `b"authorization"`
abbrev pub authorization_name : List ℕ
authorization_name = 97 ∷ 117 ∷ 116 ∷ 104 ∷ 111 ∷ 114 ∷ 105 ∷ 122 ∷ 97 ∷ 116 ∷ 105 ∷ 111 ∷ 110 ∷ []

-- A header's name is octets, its value the text that latin-1 decodes.
abbrev pub Headers : Type 0
Headers = List (List ℕ × String)

-- The first header of that name.
unfoldable pub authorization : Headers → Option String
authorization [] = none
authorization ((name, value) ∷ headers) =
    if same_name name authorization_name then some value else authorization headers

pub record Scope : Type 0 where
  pub type : String
  pub path : String
  pub headers : Headers

-- The request reaches the application, with a token or without one, is refused with a status, or fails.
pub data Answer : Type 0 where
  by_app : Option TokenContext → Answer
  refused : ℕ → Answer
  failed : Answer

abbrev pub answer_of : Result Failure TokenContext → Answer
answer_of (ok token) = by_app (some token)
answer_of (err authentication_error) = refused 401
answer_of (err jwks_unavailable) = refused 503
answer_of (err key_error) = failed

-- `HolahostAuthMiddleware.__call__`, of its public paths
unfoldable pub call : Jwt → List String → Scope → Answer
unfolding any
call jwt public_paths scope =
    if not (scope.type =? "http") || any (λ path. path =? scope.path) public_paths
    then by_app none
    else answer_of (authenticate jwt (authorization scope.headers))
