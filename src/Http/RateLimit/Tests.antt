-- ===== src/Http/RateLimit/Tests.antt =====
-- The rate limit at requests.
use holahost.Base.{◌≡◌, refl, true, if◌then◌else◌, String, Option, none, some, [], ◌∷◌, arith}
use holahost.Base.Equality.{◌=?◌, string_eq}
use holahost.Base.Dict.{get}
use holahost.Http.RateLimiter.{InMemoryRateLimiter, key_beq}
use holahost.Http.RateLimit.{CallerIdentity, Scope}
use holahost.Http.RateLimit.Reach.{reached, reached_within_window}

abbrev bucket_for : String → String → Option String
bucket_for method path = if path =? "/generate" then some "generate" else none

abbrev tool : CallerIdentity
tool = record { subject = "tool"; client_id = "tool"; is_service_token = true }

abbrev post : Scope
post = record { type = "http"; method = "POST"; path = "/generate"; token = some tool }

abbrev limiter : InMemoryRateLimiter
limiter = record {
  cap_by_bucket = (("generate", true), 2) ∷ [];
  window_seconds = 60;
  max_tracked_keys = 2;
  counters = [];
}

reached_within_window_example :
    reached bucket_for post (121_000_000 ∷ 130_500_000 ∷ 179_000_000 ∷ []) limiter ≡ 2
unfolding get key_beq
reached_within_window_example =
    reached_within_window bucket_for post "generate" tool 120 2
      (121_000_000 ∷ 130_500_000 ∷ 179_000_000 ∷ []) limiter refl refl refl refl (omega arith)
      (omega arith) (refl, (refl, (refl, tt)))
