-- ===== src/Http/RateLimit/Reach.antt =====
-- Which requests reach the application behind the rate limit.
use holahost.Base.{
  ℕ, ◌+◌, ◌-◌, ◌≤◌, ◌≡◌, ◌≢◌, refl, ◌∙◌, String, true, some, Option, List, [], ◌∷◌, Result, ok, err,
  length, min, All,
}
use holahost.Base.Equality.{◌=?◌, string_eq, bool_eq, pair_eq}
use holahost.Base.Dict.{get}
use holahost.Http.RateLimiter.{
  check, CheckError, rate_limit_exceeded, key_error, zero_division, InMemoryRateLimiter, caller,
  key_eq, counted, window_start,
}
use holahost.Http.RateLimiter.Bursts.{passes, admitted, admitted_within_window}
use holahost.Http.RateLimit.{
  RateLimiter, CallerIdentity, Scope, Answer, by_app, rejected, runtime_error, raised, answer_of,
  call,
}

-- The in-memory limiter fills the protocol.
abbrev pub in_memory : RateLimiter InMemoryRateLimiter
in_memory = record { check = check }

abbrev pub reaches : Answer → ℕ
reaches by_app = 1
reaches (rejected _) = 0
reaches runtime_error = 0
reaches (raised _) = 0

reaches-answer_of : (r : Result CheckError (Unit {0})) → reaches (answer_of r) ≡ passes r
reaches-answer_of (ok _) = refl
reaches-answer_of (err (rate_limit_exceeded _)) = refl
reaches-answer_of (err key_error) = refl
reaches-answer_of (err zero_division) = refl

module _ (bucket_for : String → String → Option String) (scope : Scope) where
  -- How many such requests at the given times reach the application.
  unfoldable pub reached : List ℕ → InMemoryRateLimiter → ℕ
  reached [] s = 0
  reached (now ∷ times) s =
      let (a, s') = call in_memory bucket_for scope now s in reaches a + reached times s'

  module _ (bucket : String) (who : CallerIdentity) where
    reached-admitted :
        (times : List ℕ) (s : InMemoryRateLimiter)
        → (scope.type =? "http") ≡ true
        → bucket_for scope.method scope.path ≡ some bucket
        → scope.token ≡ some who
        → reached times s ≡ admitted who.client_id who.subject bucket who.is_service_token times s
    unfolding reached admitted call
    reached-admitted [] s t b w = refl
    reached-admitted (now ∷ times) s t b w =
        let (r, s') = check who.client_id who.subject bucket who.is_service_token now s in
        rw (t, b, w) (cc (reaches-answer_of r, reached-admitted times s' t b w))

    -- Of one authenticated HTTP request that is repeated within one window, with no other request
    -- between, exactly as many reach the application as the ceiling of its bucket leaves after those
    -- already counted, where the window has some length and the limiter room for a key.
    pub reached_within_window :
        (start ceiling : ℕ) (times : List ℕ) (s : InMemoryRateLimiter)
        → (scope.type =? "http") ≡ true
        → bucket_for scope.method scope.path ≡ some bucket
        → scope.token ≡ some who
        → get (bucket, who.is_service_token) s.cap_by_bucket ≡ some ceiling
        → s.window_seconds ≢ 0
        → 1 ≤ s.max_tracked_keys
        → All (λ now. window_start s.window_seconds now ≡ start) times
        → reached times s
          ≡ min
              (length times)
              (ceiling - counted start (get (caller who.client_id who.subject bucket) s.counters))
    reached_within_window start ceiling times s t b w found n h a =
        reached-admitted times s t b w
        ∙ admitted_within_window who.client_id who.subject bucket who.is_service_token start ceiling
            times s found n h a
