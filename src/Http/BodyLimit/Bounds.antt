-- ===== src/Http/BodyLimit/Bounds.antt =====
-- What the body limit lets through.
use holahost.Base.{
  ℕ, zero, suc, length, ◌+◌, ◌-◌, ◌≤◌, ◌<◌, ◌≡◌, ◌≢◌, refl, Bool, true, false, none, List, [], ◌∷◌,
  arith,
}
use holahost.Base.Equality.{◌=?◌, string_eq}
use holahost.Http.BodyLimit.{
  Message, size, is_request, App, Run, Ending, plain, counted_run, next, Answer, call, answered,
  by_app, payload_too_large, raised, over, declared_length, Scope, BodySizeLimitMiddleware,
}

abbrev pub bytes : List Message → ℕ
bytes [] = 0
bytes (m ∷ ms) = size m + bytes ms

size-other : (m : Message) → is_request m ≡ false → size m ≡ 0
size-other (Message.request body) h = cc
size-other Message.disconnect h = refl

size-next : (stream : List Message) → size (next stream).0 + bytes (next stream).1 ≡ bytes stream
size-next [] = refl
size-next (m ∷ stream) = refl

-- With `received` bytes counted the application is given at most what is left of the limit.
counted_run-bounded :
    (max_bytes : ℕ) (app : App) (stream : List Message) (received : ℕ) (started : Bool)
    → bytes (counted_run max_bytes app stream received started).seen ≤ max_bytes - received
unfolding counted_run
counted_run-bounded max_bytes App.returns stream received started = omega arith
counted_run-bounded max_bytes App.fails stream received started = omega arith
counted_run-bounded max_bytes App.unwinds stream received started = omega arith
counted_run-bounded max_bytes (App.starts app) stream received started =
    counted_run-bounded max_bytes app stream received true
counted_run-bounded max_bytes (App.sends app) stream received started =
    counted_run-bounded max_bytes app stream received started
counted_run-bounded max_bytes (App.receives continue handle) stream received started =
    let (m, rest) = next stream in
    let total = received + size m in
    ground (
      arith,
      counted_run-bounded max_bytes (continue m) rest total started,
      counted_run-bounded max_bytes handle rest total started,
      size-other m,
    )

-- A stream that stays within the limit is not interfered with.
counted_run-plain :
    (max_bytes : ℕ) (app : App) (stream : List Message) (received : ℕ) (started : Bool)
    → received + bytes stream ≤ max_bytes
    → counted_run max_bytes app stream received started ≡ plain app stream started
unfolding counted_run plain
counted_run-plain max_bytes App.returns stream received started h = refl
counted_run-plain max_bytes App.fails stream received started h = refl
counted_run-plain max_bytes App.unwinds stream received started h = refl
counted_run-plain max_bytes (App.starts app) stream received started h =
    counted_run-plain max_bytes app stream received true h
counted_run-plain max_bytes (App.sends app) stream received started h =
    counted_run-plain max_bytes app stream received started h
counted_run-plain max_bytes (App.receives continue handle) stream received started h =
    let (m, rest) = next stream in
    let total = received + size m in
    ground (
      arith,
      size-next stream,
      counted_run-plain max_bytes (continue m) rest total started (omega (arith, size-next stream)),
    )

-- What the application was given of a request's body.
abbrev pub given : Answer → ℕ
given (by_app r) = bytes r.seen
given (payload_too_large limit actual seen) = bytes seen
given (raised seen) = bytes seen

answered-given :
    (limit : ℕ) (r : Run) (ending : Ending) → given (answered limit r ending) ≡ bytes r.seen
answered-given limit r Ending.returned = refl
answered-given limit r Ending.failed = refl
answered-given limit r Ending.unwound = ground arith

-- Of an HTTP request no application is given more bytes of the body than the limit, whatever the
-- client declares or sends and however the application goes on when a message is refused.
pub call-bounded :
    (m : BodySizeLimitMiddleware) (scope : Scope) (app : App) (stream : List Message)
    → (scope.type =? "http") ≡ true
    → given (call m scope app stream) ≤ m.max_bytes
unfolding call
call-bounded m scope app stream h =
    let r = counted_run m.max_bytes app stream 0 false in
    ground (
      arith,
      answered-given m.reported_limit r r.ending,
      counted_run-bounded m.max_bytes app stream 0 false,
    )

answered-plain :
    (limit : ℕ) (r : Run) → r.ending ≢ Ending.unwound → answered limit r r.ending ≡ by_app r
answered-plain limit r h = ground arith

-- A request whose body is within the limit, and whose declared length is too where there is one, is
-- answered as the application answers it without the middleware. The application does not raise the
-- middleware's own exception by itself.
pub call-plain :
    (m : BodySizeLimitMiddleware) (scope : Scope) (app : App) (stream : List Message)
    → bytes stream ≤ m.max_bytes
    → over m.max_bytes (declared_length scope.headers) ≡ false
    → (plain app stream false).ending ≢ Ending.unwound
    → call m scope app stream ≡ by_app (plain app stream false)
unfolding call
call-plain m scope app stream h o e = ground (
  arith,
  counted_run-plain m.max_bytes app stream 0 false (omega (arith, h)),
  answered-plain m.reported_limit (plain app stream false) e,
)

-- An application that awaits so many messages, lets the middleware's exception out, and then goes on.
unfoldable pub reads : ℕ → App → App
reads zero app = app
reads (suc n) app = App.receives (λ m. reads n app) App.unwinds

reads-unwound :
    (max_bytes n : ℕ) (app : App) (stream : List Message) (received : ℕ)
    → length stream ≤ n
    → received ≤ max_bytes
    → max_bytes < received + bytes stream
    → let r = counted_run max_bytes (reads n app) stream received false in
      (r.ending ≡ Ending.unwound) × (r.response_started ≡ false)
unfolding counted_run reads
reads-unwound max_bytes zero app [] received l h k = absurd (omega (arith, h, k))
reads-unwound max_bytes zero app (m ∷ stream) received l h k = absurd (omega (arith, l))
reads-unwound max_bytes (suc n) app [] received l h k = absurd (omega (arith, h, k))
reads-unwound max_bytes (suc n) app (m ∷ stream) received l h k =
    ground (arith, size-other m, reads-unwound max_bytes n app stream (received + size m))

-- A body over the limit whose declared length, if there is one, is not, as in a chunked upload, is answered with the
-- 413 that advertises the reported limit, if the application reads the body before it answers.
pub call-cuts :
    (m : BodySizeLimitMiddleware) (scope : Scope) (n : ℕ) (app : App) (stream : List Message)
    → (scope.type =? "http") ≡ true
    → over m.max_bytes (declared_length scope.headers) ≡ false
    → length stream ≤ n
    → m.max_bytes < bytes stream
    → (seen : List Message) × (call m scope (reads n app) stream
        ≡ payload_too_large m.reported_limit none seen)
unfolding call
call-cuts m scope n app stream t o l h =
    let r = counted_run m.max_bytes (reads n app) stream 0 false in
    (
      r.seen,
      ground (arith, reads-unwound m.max_bytes n app stream 0 l (omega arith) (omega (arith, h))),
    )
