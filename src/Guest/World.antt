-- ===== src/Guest/World.antt =====
-- What a command of guest-reply meets, and what it leaves: its calls, its waits and its output.
use holahost.Base.{ℕ, String, Option, List, Result}
use holahost.Base.Dict.{Dict}
use holahost.Base.Action.{Action}
use holahost.Auth.{Json}
use holahost.Guest.Errors.{GuestReplyError, Raised}

-- Octets.
abbrev pub Bytes : Type 0
Bytes = List ℕ

pub record File : Type 0 where
  pub filename : String
  pub content : Bytes

-- The arguments of `httpx.Client.request`.
pub record Request : Type 0 where
  pub verb : String
  pub url : String
  pub authorization : String
  pub request_id : String
  pub read_timeout : ℕ
  pub connect_timeout : ℕ
  pub json : Option Json
  pub data_fields : Dict String String
  pub file : Option File

-- Its status, its `Retry-After` header, and its body where that is JSON.
pub record Response : Type 0 where
  pub status : ℕ
  pub retry_after : Option String
  pub body : Option Json

-- What `httpx.Client.request` does: it answers, raises one of its errors, or something else is
-- raised, an interrupt among them.
pub data Outcome : Type 0 where
  answered : Response → Outcome
  timed_out transport_failed : String → Outcome
  other_exception : Outcome

-- Read with `Path.read_bytes`; where that raises `OSError`, the reason is given.
pub record FilePath : Type 0 where
  pub name : String
  pub read_bytes : Result String Bytes

-- What a line on stderr is about.
pub data Notice : Type 0 where
  rate_limited : ℕ → Notice
  no_context : Notice
  described : GuestReplyError → Notice
  not_deleted : String → Notice

-- A result's text, or the one JSON object.
pub data Printed : Type 0 where
  line : String → Printed
  json_object : Json → Printed

-- The latest comes first.
pub record World : Type 0 where
  pub sent : List Request
  pub waited : List ℕ
  pub stdout : List Printed
  pub stderr : List Notice

abbrev pub M : Type 0 → Type 0
M = Action World Raised
