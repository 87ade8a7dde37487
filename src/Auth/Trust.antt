-- ===== src/Auth/Trust.antt =====
-- What a request that reaches the application has shown.
use holahost.Base.{
  ℕ, ◌≡◌, ◌⊎◌, inl, inr, refl, ap, ◌∙◌, String, true, ◌||◌, not, Option, none, some, List, Result,
  ok, err, any, arith, if-cases, Returns, Returns-itself, Returns-ok, and_then-Returns,
}
use holahost.Base.Equality.{◌=?◌, string_eq}
use holahost.Base.Dict.{Dict, get}
use holahost.Auth.{
  Json, null, boolean, number, text, array, object, Failure, KeyFailure, authentication_error,
  jwks_unavailable, key_error, Jwt, TokenContext, partition, is_empty, validated_roles,
  validated_act, claim, delegate, member_of, context_of, decoded, verified, bearer, authenticate,
  authorization, Scope, Answer, by_app, refused, failed, answer_of, call,
}

-- The claims say what the context says, and a token that is delegated is never read as one that is not.
pub record IsClaimed (claims : Dict String Json) (c : TokenContext) : Type 0 where
  pub subject : get "sub" claims ≡ some c.subject
  pub client_id : get "client_id" claims ≡ some c.client_id
  pub roles : validated_roles (get "roles" claims) ≡ ok c.roles
  pub act : validated_act (get "act" claims) ≡ ok c.act

-- The header carries a bearer token that a known key has signed, and the context has its claims.
pub record IsTrusted (jwt : Jwt) (header : Option String) (c : TokenContext) : Type 0 where
  pub line : String
  pub token : String
  pub key : ℕ
  pub claims : Dict String Json
  pub sent : header ≡ some line
  pub bears : partition line ≡ ("Bearer", token)
  pub signed : jwt.signing_key token ≡ ok key
  pub accepted : jwt.decode token key ≡ some claims
  pub claimed : IsClaimed claims c

claim-get :
    (name : String) (claims : Dict String Json)
    → Returns (λ v. get name claims ≡ some v) (claim name claims)
claim-get name claims = both (get name claims)
  where
    both :
        (o : Option Json)
        → Returns (λ v. o ≡ some v) (elim o [ some value ↦ ok value | none ↦ err key_error ])
    both (some v) = refl
    both none = tt

context_of-IsClaimed : (claims : Dict String Json) → Returns (IsClaimed claims) (context_of claims)
unfolding context_of
context_of-IsClaimed claims =
    and_then-Returns _ _ (claim "sub" claims) _ (claim-get "sub" claims) (λ subject s.
      and_then-Returns _ _ (claim "client_id" claims) _ (claim-get "client_id" claims)
        (λ client_id i.
          and_then-Returns _ _ (validated_roles (get "roles" claims)) _ (Returns-itself _)
            (λ roles r.
              and_then-Returns _ _ (validated_act (get "act" claims)) _ (Returns-itself _)
                (λ act a. record { subject = s; client_id = i; roles = r; act = a }))))

module _ (jwt : Jwt) where
  decoded-IsClaimed :
      (token : String) (key : ℕ) (o : Option (Dict String Json))
      → jwt.decode token key ≡ o
      → (line : String) → partition line ≡ ("Bearer", token)
      → jwt.signing_key token ≡ ok key
      → Returns (IsTrusted jwt (some line)) (decoded jwt o)
  decoded-IsClaimed token key none e line p k = tt
  decoded-IsClaimed token key (some claims) e line p k =
      both (context_of claims) (context_of-IsClaimed claims)
    where
      both :
          (r : Result Failure TokenContext)
          → Returns (IsClaimed claims) r
          → Returns (IsTrusted jwt (some line)) r
      both (ok c) h = record {
        line = line;
        token = token;
        key = key;
        claims = claims;
        sent = refl;
        bears = p;
        signed = k;
        accepted = e;
        claimed = h;
      }
      both (err x) h = tt

  verified-IsTrusted :
      (token : String) (r : Result KeyFailure ℕ)
      → jwt.signing_key token ≡ r
      → (line : String) → partition line ≡ ("Bearer", token)
      → Returns (IsTrusted jwt (some line)) (verified jwt token r)
  verified-IsTrusted token (ok key) e line p =
      decoded-IsClaimed token key (jwt.decode token key) refl line p e
  verified-IsTrusted token (err x) e line p = tt

  bearer-IsTrusted :
      (line : String) (p : String × String)
      → partition line ≡ p
      → Returns (IsTrusted jwt (some line)) (bearer jwt p)
  bearer-IsTrusted line (scheme, token) e =
      if-cases (Returns (IsTrusted jwt (some line))) (not (scheme =? "Bearer") || is_empty token)
        (err authentication_error) _ (λ _. tt)
        (λ h.
          verified-IsTrusted token (jwt.signing_key token) refl line
            (e ∙ ap (λ s. (s, token)) (ground (arith, h, string_eq.beq_iff scheme "Bearer"))))

  pub authenticate-IsTrusted :
      (header : Option String) → Returns (IsTrusted jwt header) (authenticate jwt header)
  unfolding authenticate
  authenticate-IsTrusted none = tt
  authenticate-IsTrusted (some line) = bearer-IsTrusted line (partition line) refl

-- What an answer that reaches the application stands for.
abbrev pub Reached : Jwt → List String → Scope → Answer → Type 0
Reached jwt public_paths scope (by_app none) =
    (not (scope.type =? "http") || any (λ path. path =? scope.path) public_paths) ≡ true
Reached jwt public_paths scope (by_app (some c)) = IsTrusted jwt (authorization scope.headers) c
Reached jwt public_paths scope (refused status) = Unit
Reached jwt public_paths scope failed = Unit

-- A request reaches the application without a token only if it is no HTTP request or its path is public, and with
-- a token's context only if its first authorization header bears a token that a known key has signed, that the
-- service's configuration accepts, and whose claims the context has: the subject, the client, the roles and the
-- delegating subject.
pub call-Reached :
    (jwt : Jwt) (public_paths : List String) (scope : Scope)
    → Reached jwt public_paths scope (call jwt public_paths scope)
unfolding call
call-Reached jwt public_paths scope =
    if-cases (Reached jwt public_paths scope)
      (not (scope.type =? "http") || any (λ path. path =? scope.path) public_paths) (by_app none)
      (answer_of (authenticate jwt (authorization scope.headers))) (λ e. e)
      (λ _.
        both (authenticate jwt (authorization scope.headers))
          (authenticate-IsTrusted jwt (authorization scope.headers)))
  where
    both :
        (r : Result Failure TokenContext)
        → Returns (IsTrusted jwt (authorization scope.headers)) r
        → Reached jwt public_paths scope (answer_of r)
    both (ok c) h = h
    both (err authentication_error) h = tt
    both (err jwks_unavailable) h = tt
    both (err key_error) h = tt

-- What reads as no delegation.
abbrev Undelegated : Option Json → Option String → Type 0
Undelegated o act = act ≡ none → (o ≡ none) ⊎ (o ≡ some null)

delegate-some : (o o' : Option Json) → Returns (Undelegated o) (delegate o')
delegate-some o (some (text s)) =
    if-cases (Returns (Undelegated o)) (is_empty s) (err authentication_error) (ok (some s))
      (λ _. tt) (λ _ e. ground (arith, e))
delegate-some o none = tt
delegate-some o (some null) = tt
delegate-some o (some (boolean b)) = tt
delegate-some o (some (number n)) = tt
delegate-some o (some (array xs)) = tt
delegate-some o (some (object ms)) = tt

validated_act-Undelegated : (o : Option Json) → Returns (Undelegated o) (validated_act o)
unfolding validated_act
validated_act-Undelegated none = λ _. inl refl
validated_act-Undelegated (some null) = λ _. inr refl
validated_act-Undelegated (some (object members)) = delegate-some _ (member_of "sub" members)
validated_act-Undelegated (some (boolean b)) = tt
validated_act-Undelegated (some (number n)) = tt
validated_act-Undelegated (some (text s)) = tt
validated_act-Undelegated (some (array xs)) = tt

-- Where a context has the claims and no delegating subject, the claims have none either: there is no such
-- claim, or it is null.
pub act-none :
    (claims : Dict String Json) (c : TokenContext)
    → IsClaimed claims c
    → c.act ≡ none
    → (get "act" claims ≡ none) ⊎ (get "act" claims ≡ some null)
act-none claims c h e =
    Returns-ok (Undelegated (get "act" claims)) _ c.act h.act
      (validated_act-Undelegated (get "act" claims)) e
