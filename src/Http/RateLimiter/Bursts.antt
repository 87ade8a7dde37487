-- ===== src/Http/RateLimiter/Bursts.antt =====
-- A caller's requests within one window, in a row.
use holahost.Base.{
  ℕ, ◌+◌, ◌-◌, ◌≤◌, ◌≡◌, ◌≢◌, String, Bool, some, List, [], ◌∷◌, arith, length, ltb, min,
  if◌then◌else◌, Result, ok, err, All,
}
use holahost.Base.Equality.{pair_eq, string_eq, bool_eq}
use holahost.Base.Dict.{get}
use holahost.Http.RateLimiter.{
  key_eq, CheckError, InMemoryRateLimiter, counted, count_request, caller, check, window_start,
}
use holahost.Http.RateLimiter.Counting.{check_counts}

abbrev pub passes : Result CheckError (Unit {0}) → ℕ
passes (ok _) = 1
passes (err _) = 0

module _ (client_id subject bucket : String) (is_service : Bool) where
  -- How many of the requests at the given times pass.
  unfoldable pub admitted : List ℕ → InMemoryRateLimiter → ℕ
  admitted [] s = 0
  admitted (now ∷ times) s =
      let (r, s') = check client_id subject bucket is_service now s in passes r + admitted times s'

  pub settings :
      (now : ℕ) (s : InMemoryRateLimiter)
      → let s' = (check client_id subject bucket is_service now s).1 in
        (s'.cap_by_bucket ≡ s.cap_by_bucket)
        × (s'.window_seconds ≡ s.window_seconds)
        × (s'.max_tracked_keys ≡ s.max_tracked_keys)
  unfolding check count_request
  settings now s = ground arith

  step :
      (start ceiling now : ℕ) (s : InMemoryRateLimiter)
      → get (bucket, is_service) s.cap_by_bucket ≡ some ceiling
      → s.window_seconds ≢ 0
      → 1 ≤ s.max_tracked_keys
      → window_start s.window_seconds now ≡ start
      → let k = caller client_id subject bucket in
        let (r, s') = check client_id subject bucket is_service now s in
        let n = counted start (get k s.counters) in
        (passes r ≡ (if ltb n ceiling then 1 else 0)) × (counted start (get k s'.counters) ≡ n + 1)
  step start ceiling now s found w h e =
      let c = rw e at (check_counts client_id subject bucket is_service now s ceiling found w h) in
      (rw c.0 (ground arith), rw c.1 (ground arith))

  -- Of requests that one caller makes of one bucket within one window, one after the other with no other
  -- request between them, exactly as many pass as the bucket's ceiling leaves after those already
  -- counted, whatever their number, where the bucket has a ceiling, the window some length and the
  -- limiter room for a key.
  pub admitted_within_window :
      (start ceiling : ℕ) (times : List ℕ) (s : InMemoryRateLimiter)
      → get (bucket, is_service) s.cap_by_bucket ≡ some ceiling
      → s.window_seconds ≢ 0
      → 1 ≤ s.max_tracked_keys
      → All (λ now. window_start s.window_seconds now ≡ start) times
      → admitted times s
        ≡ min
            (length times)
            (ceiling - counted start (get (caller client_id subject bucket) s.counters))
  unfolding admitted
  admitted_within_window start ceiling [] s found w h a = omega arith
  admitted_within_window start ceiling (now ∷ times) s found w h a =
      let (caps, window, tracked) = settings now s in
      let s' = (check client_id subject bucket is_service now s).1 in
      ground (
        arith,
        step start ceiling now s found w h a.0,
        admitted_within_window start ceiling times s' (rw caps found) (rw window w) (rw tracked h)
            (rw window a.1),
      )
