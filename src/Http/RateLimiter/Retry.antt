-- ===== src/Http/RateLimiter/Retry.antt =====
-- The retry-after that a refusal of the limiter carries.
use Prim.Native.Nat.{max}
use native.Mathlib.Nat.{mod-lt}
use holahost.Base.{ℕ, ◌+◌, ◌*◌, ◌/◌, ◌≤◌, ◌<◌, ◌≡◌, ◌≢◌, String, Bool, some, arith, ok, err}
use holahost.Base.Equality.{pair_eq, string_eq, bool_eq}
use holahost.Base.Dict.{get}
use holahost.Http.RateLimiter.{
  key_eq, second, rate_limit_exceeded, InMemoryRateLimiter, check, window_start, ceil_seconds,
}
use holahost.Http.RateLimiter.Counting.{check_counts}
use holahost.Http.RateLimiter.Bursts.{settings}

retry_reaches_end :
    (window now : ℕ)
    → 0 < window
    → let end = window_start window now + window in
      let r = max 1 (ceil_seconds end now) in
      (1 ≤ r) × (r ≤ window) × (end * second ≤ now + r * second)
retry_reaches_end window now h = omega (arith, mod-lt (now / second) h)

later_window :
    (window now later : ℕ)
    → 0 < window
    → (window_start window now + window) * second ≤ later
    → window_start window now ≢ window_start window later
later_window window now later h e =
    omega (arith, mod-lt (now / second) h, mod-lt (later / second) h)

module _ (client_id subject bucket : String) (is_service : Bool) (now : ℕ)
    (s : InMemoryRateLimiter) where
  -- A refusal's retry-after.
  refused :
      (ceiling r : ℕ)
      → get (bucket, is_service) s.cap_by_bucket ≡ some ceiling
      → s.window_seconds ≢ 0
      → (check client_id subject bucket is_service now s).0 ≡ err (rate_limit_exceeded r)
      → r ≡ max 1 (ceil_seconds (window_start s.window_seconds now + s.window_seconds) now)
  unfolding check
  refused ceiling r found w h = ground arith

  -- A refused caller that makes its next request once it has waited for as long as the refusal says,
  -- which is from one second to one window, passes, where the ceiling of the bucket is positive, the
  -- window has some length and the limiter has room for a key.
  pub check_after_retry :
      (ceiling r later : ℕ)
      → get (bucket, is_service) s.cap_by_bucket ≡ some ceiling
      → 1 ≤ ceiling
      → s.window_seconds ≢ 0
      → 1 ≤ s.max_tracked_keys
      → (check client_id subject bucket is_service now s).0 ≡ err (rate_limit_exceeded r)
      → now + r * second ≤ later
      → let s' = (check client_id subject bucket is_service now s).1 in
        (1 ≤ r)
        × (r ≤ s.window_seconds)
        × ((check client_id subject bucket is_service later s').0 ≡ ok tt)
  check_after_retry ceiling r later found c w h e t =
      let (caps, window, tracked) = settings client_id subject bucket is_service now s in
      let s' = (check client_id subject bucket is_service now s).1 in
      let told = refused ceiling r found w e in
      let (low, high, end) = retry_reaches_end s.window_seconds now (omega arith) in
      let n = later_window s.window_seconds now later (omega arith) (omega (arith, told, end, t)) in
      let counts = check_counts client_id subject bucket is_service now s ceiling found w h in
      let again =
        check_counts client_id subject bucket is_service later s' ceiling (rw caps found)
          (rw window w) (rw tracked h) in
      (rw told low, rw told high, rw (again.0, window, counts.1) (ground (arith, n, c)))
