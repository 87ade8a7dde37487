-- ===== src/Http/RateLimit.antt =====
-- `RateLimitMiddleware` (libs/holahost-http/holahost_http/rate_limit.py). The application behind it is
-- not of this program: what the middleware decides is whether the request reaches it.
pub mod Reach
mod Tests
use holahost.Base.{ℕ, String, Bool, Option, none, some, Result, ok, err, not, if◌then◌else◌}
use holahost.Base.Equality.{Eq, ◌=?◌, string_eq}
use holahost.Http.RateLimiter.{CheckError, rate_limit_exceeded, key_error, zero_division}

pub record CallerIdentity : Type 0 where
  pub subject : String
  pub client_id : String
  pub is_service_token : Bool

-- The limiter's protocol, over a state of its own and at the present instant.
pub record RateLimiter (S : Type 0) : Type 0 where
  pub check :
      (client_id subject bucket : String) (is_service : Bool) (now : ℕ)
      → S
      → Result CheckError (Unit {0}) × S

pub record Scope : Type 0 where
  pub type : String
  pub method : String
  pub path : String
  -- `scope.get("state", {}).get("token")`
  pub token : Option CallerIdentity

-- The request reaches the application, is answered with a 429, or fails: no caller is authenticated,
-- or the limiter raises something else.
pub data Answer : Type 0 where
  by_app : Answer
  rejected : ℕ → Answer
  runtime_error : Answer
  raised : CheckError → Answer

abbrev pub answer_of : Result CheckError (Unit {0}) → Answer
answer_of (ok _) = by_app
answer_of (err (rate_limit_exceeded retry_after)) = rejected retry_after
answer_of (err key_error) = raised key_error
answer_of (err zero_division) = raised zero_division

module _ {S : Type 0} (limiter : RateLimiter S) (bucket_for : String → String → Option String) where
  abbrev pub limited : String → Option CallerIdentity → ℕ → S → Answer × S
  limited bucket none now s = (runtime_error, s)
  limited bucket (some caller) now s =
      let (r, s') =
        limiter.check caller.client_id caller.subject bucket caller.is_service_token now s in
      (answer_of r, s')

  abbrev pub dispatched : Option String → Option CallerIdentity → ℕ → S → Answer × S
  dispatched none token now s = (by_app, s)
  dispatched (some bucket) token now s = limited bucket token now s

  -- `__call__`
  unfoldable pub call : Scope → ℕ → S → Answer × S
  call scope now s =
      if not (scope.type =? "http")
      then (by_app, s)
      else dispatched (bucket_for scope.method scope.path) scope.token now s
