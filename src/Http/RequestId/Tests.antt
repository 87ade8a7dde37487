-- ===== src/Http/RequestId/Tests.antt =====
-- Examples of the request's identifier.
use holahost.Base.{◌≡◌, refl, true, some, [], ◌∷◌, any}
use holahost.Base.Text.{is_blank, is_space, strip}
use holahost.Http.RequestId.{
  Scope, RequestIdMiddleware, by_app, refused, request_id_name, request_id, call, IsIdentified,
  call-IsIdentified,
}

abbrev strict : RequestIdMiddleware
strict = record { required = true; status = 422; exempt_paths = "/health" ∷ [] }

abbrev request : Scope
request = record { type = "http"; path = "/documents"; headers = (request_id_name, " abc ") ∷ [] }

abbrev blank : Scope
blank = record { type = "http"; path = "/documents"; headers = (request_id_name, "  ") ∷ [] }

request-identified : call strict request ≡ by_app (some "abc")
unfolding call request_id is_blank is_space strip
request-identified = refl

blank-refused : call strict blank ≡ refused 422
unfolding call request_id is_blank is_space any
blank-refused = refl

call-IsIdentified_example : IsIdentified strict request (call strict request)
call-IsIdentified_example = call-IsIdentified strict request
