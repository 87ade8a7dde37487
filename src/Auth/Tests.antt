-- ===== src/Auth/Tests.antt =====
-- Examples of the middleware's theorems.
use holahost.Base.{◌≡◌, ◌⊎◌, refl, String, none, some, [], ◌∷◌, ok, any}
use holahost.Base.Equality.{string_eq}
use holahost.Base.Dict.{Dict, get}
use holahost.Auth.{
  Json, null, text, array, item, end, Jwt, TokenContext, Scope, by_app, call, authorization_name,
  validated_roles, validated_act, strings, authorization, authenticate, partition, context_of,
}
use holahost.Auth.Trust.{IsClaimed, Reached, call-Reached, act-none}

abbrev claims : Dict String Json
claims =
    ("sub", text "ann")
    ∷ ("client_id", text "web")
    ∷ ("roles", array (item (text "host") end))
    ∷ ("act", null)
    ∷ []

abbrev context : TokenContext
context = record { subject = text "ann"; client_id = text "web"; roles = "host" ∷ []; act = none }

abbrev jwt : Jwt
jwt = record { signing_key = λ token. ok 1; decode = λ token key. some claims }

abbrev request : Scope
request = record {
  type = "http";
  path = "/documents";
  headers = (authorization_name, "Bearer abc") ∷ [];
}

call-Reached_example : Reached jwt ("/health" ∷ []) request (call jwt ("/health" ∷ []) request)
call-Reached_example = call-Reached jwt ("/health" ∷ []) request

call-answers : call jwt ("/health" ∷ []) request ≡ by_app (some context)
unfolding call any authorization authenticate partition context_of get validated_roles validated_act
    strings
call-answers = refl

context-IsClaimed : IsClaimed claims context
unfolding get validated_roles validated_act strings
context-IsClaimed = record { subject = refl; client_id = refl; roles = refl; act = refl }

act-none_example : (get "act" claims ≡ none) ⊎ (get "act" claims ≡ some null)
act-none_example = act-none claims context context-IsClaimed refl
