-- ===== src/Http/BodyLimit.antt =====
-- `BodySizeLimitMiddleware` (libs/holahost-http/holahost_http/body_limit.py). The application and the
-- server are not of this program: an application is what it does with each message that it
-- receives, and the server is the list of the messages that it delivers, then a disconnect.
pub mod Bounds
mod Tests
use mathlib.Core.Option
use holahost.Base.{
  ℕ, zero, suc, keep, not, ◌+◌, ◌*◌, ◌-◌, Bool, true, false, ◌&&◌, ◌||◌, String, Option, none, some,
  List, [], ◌∷◌, ltb, leb, ◌==◌, length, map, if◌then◌else◌,
}
use holahost.Base.Int.{ℤ, pos, negsuc, ltb_ℤ}
use holahost.Base.Equality.{Eq, ◌=?◌, string_eq}

-- Octets.
abbrev pub Bytes : Type 0
Bytes = List ℕ

abbrev pub multipart_overhead_allowance : ℕ
multipart_overhead_allowance = 65536

unfoldable pub body_cap_for_upload : ℕ → ℕ
body_cap_for_upload max_file_bytes = max_file_bytes + multipart_overhead_allowance

-- `http.request`, with its body if it has one, or another message
pub data Message : Type 0 where
  request : Option Bytes → Message
  disconnect : Message

-- `len(message.get("body", b""))`
abbrev pub size : Message → ℕ
size (request none) = 0
size (request (some body)) = length body
size disconnect = 0

abbrev pub is_request : Message → Bool
is_request (request _) = true
is_request disconnect = false

-- What an application does: it returns, fails, sends the start of a response or something else, or
-- awaits a message. Where it awaits one it also has what it does if the middleware's exception is
-- raised there; that it lets the exception out is `unwinds`.
pub data App : Type 0 where
  returns : App
  fails : App
  unwinds : App
  starts : App → App
  sends : App → App
  receives : (Message → App) → App → App

pub data Ending : Type 0 where
  returned failed unwound : Ending

-- How a run of the application ends, whether it started a response, and what it received.
pub record Run : Type 0 where
  pub ending : Ending
  pub response_started : Bool
  pub seen : List Message

abbrev ended : Ending → Bool → Run
ended ending started = record { ending = ending; response_started = started; seen = [] }

abbrev pub saw : Message → Run → Run
saw m r = record r { seen = m ∷ r.seen }

abbrev pub next : List Message → Message × List Message
next [] = (disconnect, [])
next (m ∷ stream) = (m, stream)

-- `self.app(scope, receive, send)`, from a state in which a response is started or not.
unfoldable pub plain : App → List Message → Bool → Run
plain returns stream started = ended returned started
plain fails stream started = ended failed started
plain unwinds stream started = ended unwound started
plain (starts app) stream started = plain app stream true
plain (sends app) stream started = plain app stream started
plain (receives continue handle) stream started =
    let (m, rest) = next stream in saw m (plain (continue m) rest started)

-- `counting_receive`: whether the message is refused, given the bytes counted with it
abbrev pub exceeds : ℕ → ℕ → Message → Bool
exceeds max_bytes received m = is_request m && ltb max_bytes received

-- `self.app(scope, counting_receive, watching_send)`
unfoldable pub counted_run : ℕ → App → List Message → ℕ → Bool → Run
counted_run max_bytes returns stream received started = ended returned started
counted_run max_bytes fails stream received started = ended failed started
counted_run max_bytes unwinds stream received started = ended unwound started
counted_run max_bytes (starts app) stream received started =
    counted_run max_bytes app stream received true
counted_run max_bytes (sends app) stream received started =
    counted_run max_bytes app stream received started
counted_run max_bytes (receives continue handle) stream received started =
    let (m, rest) = next stream in
    let total = received + size m in
    let passed = counted_run max_bytes (continue m) rest total started in
    let refused = counted_run max_bytes handle rest total started in
    if exceeds max_bytes total m then refused else saw m passed

-- `bytes.lower` of one octet
abbrev lower : ℕ → ℕ
lower c = if leb 65 c && leb c 90 then c + 32 else c

abbrev is_space : ℕ → Bool
is_space c = c == 32 || leb 9 c && leb c 13

abbrev is_digit : ℕ → Bool
is_digit c = leb 48 c && leb c 57

-- The digits of `int`: single underscores may stand between them.
digits : Bytes → ℕ → Bool → Option ℕ
digits [] n last = if last then some n else none
digits (c ∷ cs) n last =
    let rest = digits cs (if is_digit c then n * 10 + (c - 48) else n) (is_digit c) in
    if is_digit c || c == 95 && last then rest else none

drop_spaces : Bytes → Bytes
drop_spaces [] = []
drop_spaces (c ∷ cs) = if is_space c then drop_spaces cs else c ∷ cs

drop_last_spaces : Bytes → Bytes
drop_last_spaces [] = []
drop_last_spaces (c ∷ cs) =
    let rest = drop_last_spaces cs in if is_space c && length rest == 0 then [] else c ∷ rest

abbrev negated : ℕ → ℤ
negated zero = pos 0
negated (suc n) = negsuc n

signed : Bytes → Option ℤ
signed [] = none
signed (c ∷ cs) =
    if c == 45
    then Option.map negated (digits cs 0 false)
    else Option.map pos (digits (if c == 43 then cs else c ∷ cs) 0 false)

-- `int(raw_value)` of octets, `none` where it raises `ValueError`; it takes at most 4300 digits.
unfoldable pub parse_int : Bytes → Option ℤ
unfolding drop_spaces drop_last_spaces digits signed
parse_int cs =
    if ltb 4300 (length (keep is_digit cs))
    then none
    else signed (drop_last_spaces (drop_spaces cs))

unfoldable pub same_bytes : Bytes → Bytes → Bool
same_bytes [] [] = true
same_bytes [] (d ∷ ds) = false
same_bytes (c ∷ cs) [] = false
same_bytes (c ∷ cs) (d ∷ ds) = c == d && same_bytes cs ds

-- b"content-length"
abbrev pub content_length_header : Bytes
content_length_header =
    99 ∷ 111 ∷ 110 ∷ 116 ∷ 101 ∷ 110 ∷ 116 ∷ 45 ∷ 108 ∷ 101 ∷ 110 ∷ 103 ∷ 116 ∷ 104 ∷ []

abbrev pub Headers : Type 0
Headers = List (Bytes × Bytes)

-- `_declared_length`: of the first such header
unfoldable pub declared_length : Headers → Option ℤ
declared_length [] = none
declared_length ((raw_name, raw_value) ∷ headers) =
    let rest = declared_length headers in
    if same_bytes (map lower raw_name) content_length_header then parse_int raw_value else rest

pub record Scope : Type 0 where
  pub type : String
  pub headers : Headers

pub record BodySizeLimitMiddleware : Type 0 where
  pub max_bytes : ℕ
  pub reported_limit : ℕ

-- `__init__`
unfoldable pub init : ℕ → Option ℕ → BodySizeLimitMiddleware
init max_bytes none = record { max_bytes = max_bytes; reported_limit = max_bytes }
init max_bytes (some limit) = record { max_bytes = max_bytes; reported_limit = limit }

-- What becomes of a request: the application's own run; the 413 of `PayloadTooLargeError(limit, actual)`
-- after what the application received; or the exception, when a response had started.
pub data Answer : Type 0 where
  by_app : Run → Answer
  payload_too_large : ℕ → Option ℤ → List Message → Answer
  raised : List Message → Answer

abbrev pub over : ℕ → Option ℤ → Bool
over max_bytes none = false
over max_bytes (some declared) = ltb_ℤ (pos max_bytes) declared

-- `except _BodyLimitExceeded`
abbrev pub answered : ℕ → Run → Ending → Answer
answered limit r returned = by_app r
answered limit r failed = by_app r
answered limit r unwound =
    if r.response_started then raised r.seen else payload_too_large limit none r.seen

-- `__call__`
unfoldable pub call : BodySizeLimitMiddleware → Scope → App → List Message → Answer
call m scope app stream =
    if not (scope.type =? "http")
    then by_app (plain app stream false)
    else if over m.max_bytes (declared_length scope.headers)
    then payload_too_large m.reported_limit (declared_length scope.headers) []
    else let r = counted_run m.max_bytes app stream 0 false in answered m.reported_limit r r.ending
