-- ===== src/Http/BodyLimit/Tests.antt =====
-- The body limit at requests.
use holahost.Base.{◌≤◌, ◌≡◌, refl, false, none, some, List, [], ◌∷◌, keep, arith}
use holahost.Base.Int.{pos, negsuc}
use holahost.Http.BodyLimit.{
  Bytes, Message, request, App, returns, unwinds, starts, receives, plain, counted_run, call,
  by_app, payload_too_large, Scope, BodySizeLimitMiddleware, declared_length, parse_int, same_bytes,
}
use holahost.Http.BodyLimit.Bounds.{given, reads, call-bounded, call-plain, call-cuts}

-- Reads two messages, then answers.
abbrev reader : App
reader = receives (λ m. receives (λ m'. starts returns) unwinds) unwinds

abbrev limit : BodySizeLimitMiddleware
limit = record { max_bytes = 3; reported_limit = 2 }

abbrev declared : Bytes → Scope
declared value = record {
  type = "http";
  headers =
      (67 ∷ 111 ∷ 110 ∷ 116 ∷ 101 ∷ 110 ∷ 116 ∷ 45 ∷ 76 ∷ 101 ∷ 110 ∷ 103 ∷ 116 ∷ 104 ∷ [], value)
      ∷ [];
}

abbrev chunk : Message
chunk = request (some (7 ∷ 8 ∷ []))

parse_int_runs : parse_int (32 ∷ 45 ∷ 49 ∷ 95 ∷ 50 ∷ 10 ∷ []) ≡ some (negsuc 11)
unfolding parse_int keep
parse_int_runs = refl

-- A length that is declared over the limit is refused before anything is read.
declared_over :
    call limit (declared (52 ∷ [])) reader (chunk ∷ []) ≡ payload_too_large 2 (some (pos 4)) []
unfolding call declared_length parse_int same_bytes keep
declared_over = refl

-- A body that grows over the limit is cut off.
cut_off :
    call limit (declared []) reader (chunk ∷ chunk ∷ []) ≡ payload_too_large 2 none (chunk ∷ [])
unfolding call declared_length parse_int same_bytes keep counted_run
cut_off = refl

call-bounded_example : given (call limit (declared []) reader (chunk ∷ chunk ∷ [])) ≤ 3
call-bounded_example = call-bounded limit (declared []) reader (chunk ∷ chunk ∷ []) refl

call-plain_example :
    call limit (declared (50 ∷ [])) reader (chunk ∷ []) ≡ by_app (plain reader (chunk ∷ []) false)
unfolding declared_length parse_int same_bytes keep plain
call-plain_example =
    call-plain limit (declared (50 ∷ [])) reader (chunk ∷ []) (omega arith) refl (λ e. cc)

call-cuts_example :
    (seen : List Message) × (call limit (declared []) (reads 2 returns) (chunk ∷ chunk ∷ [])
      ≡ payload_too_large 2 none seen)
unfolding declared_length parse_int same_bytes keep
call-cuts_example =
    call-cuts limit (declared []) 2 returns (chunk ∷ chunk ∷ []) refl refl (omega arith)
      (omega arith)
