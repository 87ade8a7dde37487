-- ===== src/Http/RequestId.antt =====
-- `RequestIdMiddleware` (libs/holahost-http/holahost_http/request_id.py): what it does with a request.
-- The echo on the response is left out.
mod Tests
use holahost.Base.{
  ℕ, ◌≡◌, refl, String, Bool, true, false, ◌&&◌, not, Option, none, some, List, [], ◌∷◌, map, any,
  if◌then◌else◌, if-cases, arith, ap, ◌++◌, All, ◌⊎◌, inl, inr, Bool-cases,
}
use holahost.Base.Equality.{◌=?◌, string_eq}
use holahost.Base.Octets.{same_name}
use holahost.Base.Text.{is_blank, strip}
use holahost.Base.Text.Strip.{strip-text}

-- A header's name is octets, its value the text that latin-1 decodes.
pub record Scope : Type 0 where
  pub type : String
  pub path : String
  pub headers : List (List ℕ × String)

-- Whether the header is required, the status of a refusal, and the exempt paths.
pub record RequestIdMiddleware : Type 0 where
  pub required : Bool
  pub status : ℕ
  pub exempt_paths : List String

-- The request is not HTTP, is refused with a status, or reaches the application with what the state
-- says of its identifier.
pub data Answer : Type 0 where
  passed : Answer
  refused : ℕ → Answer
  by_app : Option String → Answer

-- `b"x-request-id"`
abbrev pub request_id_name : List ℕ
request_id_name = 120 ∷ 45 ∷ 114 ∷ 101 ∷ 113 ∷ 117 ∷ 101 ∷ 115 ∷ 116 ∷ 45 ∷ 105 ∷ 100 ∷ []

-- `value.strip() or None`
abbrev or_none : String → Option String
or_none s = if is_blank s then none else some (strip s)

-- The first header of that name.
unfoldable pub request_id : List (List ℕ × String) → Option String
request_id [] = none
request_id ((name, value) ∷ headers) =
    if same_name name request_id_name then or_none value else request_id headers

abbrev identified : RequestIdMiddleware → Scope → Option String → Answer
identified m scope (some id) = by_app (some id)
identified m scope none =
    if m.required && not (any (λ path. path =? scope.path) m.exempt_paths)
    then refused m.status
    else by_app none

-- `__call__`
unfoldable pub call : RequestIdMiddleware → Scope → Answer
unfolding any
call m scope =
    if not (scope.type =? "http") then passed else identified m scope (request_id scope.headers)

abbrev pub IsOther : List ℕ × String → Type 0
IsOther (name, value) = same_name name request_id_name ≡ false

-- A list of headers, taken apart at its first `X-Request-ID`.
pub record First (headers : List (List ℕ × String)) : Type 0 where
  pub before : List (List ℕ × String)
  pub name : List ℕ
  pub value : String
  pub after : List (List ℕ × String)
  pub in_order : headers ≡ before ++ (name, value) ∷ after
  pub others : All IsOther before
  pub is_header : same_name name request_id_name ≡ true

-- What the headers carry: what is left of the first `X-Request-ID` without the space around it, or
-- nothing, where there is no such header or the first is blank.
abbrev pub Carries : List (List ℕ × String) → Option String → Type 0
Carries headers (some id) =
    (first : First headers) × (is_blank first.value ≡ false) × (id ≡ strip first.value)
Carries headers none =
    All IsOther headers ⊎ ((first : First headers) × (is_blank first.value ≡ true))

-- What each answer says of the request.
abbrev pub IsIdentified : RequestIdMiddleware → Scope → Answer → Type 0
IsIdentified m scope passed = (scope.type =? "http") ≡ false
IsIdentified m scope (refused status) =
    ((scope.type =? "http") ≡ true)
    × Carries scope.headers none
    × (m.required ≡ true)
    × (any (λ path. path =? scope.path) m.exempt_paths ≡ false)
    × (status ≡ m.status)
IsIdentified m scope (by_app (some id)) =
    ((scope.type =? "http") ≡ true)
    × Carries scope.headers (some id)
    × (is_blank id ≡ false)
    × (strip id ≡ id)
IsIdentified m scope (by_app none) =
    ((scope.type =? "http") ≡ true)
    × Carries scope.headers none
    × ((m.required ≡ false) ⊎ (any (λ path. path =? scope.path) m.exempt_paths ≡ true))

module _ (name : List ℕ) (value : String) (headers : List (List ℕ × String)) where
  first-Carries :
      same_name name request_id_name ≡ true → Carries ((name, value) ∷ headers) (or_none value)
  first-Carries e = elim (Bool-cases (is_blank value)) [
    | inl blank ↦ rw blank (inr (here, blank))
    | inr text ↦ rw text (here, text, refl)
  ]
    where
      here : First ((name, value) ∷ headers)
      here = record {
        before = [];
        name = name;
        value = value;
        after = headers;
        in_order = refl;
        others = tt;
        is_header = e;
      }

  module _ (e : same_name name request_id_name ≡ false) where
    later : First headers → First ((name, value) ∷ headers)
    later f = record {
      before = (name, value) ∷ f.before;
      name = f.name;
      value = f.value;
      after = f.after;
      in_order = ap (λ hs. (name, value) ∷ hs) f.in_order;
      others = (e, f.others);
      is_header = f.is_header;
    }

    later-Carries : (o : Option String) → Carries headers o → Carries ((name, value) ∷ headers) o
    unfolding later
    later-Carries (some id) (f, text, same) = (later f, text, same)
    later-Carries none (inl h) = inl (e, h)
    later-Carries none (inr (f, blank)) = inr (later f, blank)

request_id-Carries : (headers : List (List ℕ × String)) → Carries headers (request_id headers)
unfolding request_id
request_id-Carries [] = inl tt
request_id-Carries ((name, value) ∷ headers) =
    if-cases (Carries ((name, value) ∷ headers)) (same_name name request_id_name) (or_none value)
      (request_id headers) (first-Carries name value headers)
      (λ e. later-Carries name value headers e (request_id headers) (request_id-Carries headers))

-- A request that is not HTTP is passed by, and no other. An HTTP request reaches the application with
-- the text of its first `X-Request-ID` header without the space around it, on every path, where that
-- is not blank: an identifier is no blank text and has no space around it. Where there is none or it is blank, the request is refused with the middleware's
-- status if the header is required and the path not exempt, and reaches the application with no
-- identifier otherwise.
pub call-IsIdentified :
    (m : RequestIdMiddleware) (scope : Scope) → IsIdentified m scope (call m scope)
unfolding call
call-IsIdentified m scope =
    if-cases (IsIdentified m scope) (not (scope.type =? "http")) passed
      (identified m scope (request_id scope.headers)) (λ e. ground (arith, e))
      (λ e. both (request_id scope.headers) (ground (arith, e)) (request_id-Carries scope.headers))
  where
    both :
        (o : Option String)
        → (scope.type =? "http") ≡ true
        → Carries scope.headers o
        → IsIdentified m scope (identified m scope o)
    both (some id) http (f, text, same) =
        let (full, stripped) = strip-text f.value text in
        (http, (f, text, same), rw same full, rw same stripped)
    both none http h =
        if-cases (IsIdentified m scope)
          (m.required && not (any (λ path. path =? scope.path) m.exempt_paths)) (refused m.status)
          (by_app none) (λ e. (http, h, ground (arith, e), ground (arith, e), refl))
          (λ e. (http, h, ground (arith, e)))
