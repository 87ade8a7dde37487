-- ===== src/Http/RateLimiter/Counting.antt =====
-- What one `check` does to the counters and what it answers.
use Prim.Native.Nat.{max}
use holahost.Base.{
  ℕ, ◌+◌, ◌≤◌, ◌≡◌, ◌≢◌, refl, ◌⊎◌, String, Bool, false, none, some, arith, length, ltb,
  if◌then◌else◌, ok, err,
}
use holahost.Base.Equality.{◌=?◌, pair_eq, string_eq, bool_eq}
use holahost.Base.Dict.{Dict, get, Distinct}
use holahost.Http.RateLimiter.{
  Key, key_eq, rate_limit_exceeded, InMemoryRateLimiter, counted, count_request, caller, check,
  init, window_start, ceil_seconds,
}
use holahost.Http.RateLimiter.Eviction.{length-evict, get-touch_self, get-touch_ne, touch-Distinct}

-- What `init` builds and every `check` keeps.
pub record IsBounded (s : InMemoryRateLimiter) : Type 0 where
  pub positive : 1 ≤ s.max_tracked_keys
  pub bounded : length s.counters ≤ s.max_tracked_keys
  pub distinct : Distinct s.counters

module _ (k : Key) (start : ℕ) (s : InMemoryRateLimiter) where
  count_request-IsBounded : IsBounded s → IsBounded (count_request k start s).1
  unfolding count_request
  count_request-IsBounded v = record {
    positive = v.positive;
    bounded = length-evict s.max_tracked_keys _;
    distinct = touch-Distinct s.max_tracked_keys k _ s.counters v.distinct;
  }

  pub get-count_request_self :
      1 ≤ s.max_tracked_keys
      → get k (count_request k start s).1.counters
        ≡ some (start, counted start (get k s.counters) + 1)
  unfolding count_request
  get-count_request_self h = get-touch_self s.max_tracked_keys k _ s.counters h

  count_request_lem : (count_request k start s).0 ≡ counted start (get k s.counters) + 1
  unfolding count_request
  count_request_lem = refl

  get-count_request_ne :
      (j : Key)
      → Distinct s.counters
      → (j =? k) ≡ false
      → (get j (count_request k start s).1.counters ≡ none)
        ⊎ (get j (count_request k start s).1.counters ≡ get j s.counters)
  unfolding count_request
  get-count_request_ne j h n = get-touch_ne s.max_tracked_keys k j _ s.counters h n

-- Any answer of `init` that is a limiter is within its bound.
pub init-IsBounded :
    (caps : Dict (String × Bool) ℕ) (window tracked : ℕ) (s : InMemoryRateLimiter)
    → init caps window tracked ≡ ok s
    → IsBounded s
unfolding init
init-IsBounded caps window tracked s h = ground arith

module _ (client_id subject bucket : String) (is_service : Bool) (now : ℕ)
    (s : InMemoryRateLimiter) where
  -- Every `check`, refused or not, keeps the counters within `max_tracked_keys` and no key twice.
  pub check-IsBounded : IsBounded s → IsBounded (check client_id subject bucket is_service now s).1
  unfolding check
  check-IsBounded v = ground (
    arith,
    count_request-IsBounded (caller client_id subject bucket) (window_start s.window_seconds now) s
        v,
  )

  -- On counters within their bound, a caller's request changes no other caller's counter, unless it is
  -- evicted.
  pub check_others :
      (j : Key)
      → IsBounded s
      → (j =? (caller client_id subject bucket)) ≡ false
      → (get j (check client_id subject bucket is_service now s).1.counters ≡ none)
        ⊎ (get j (check client_id subject bucket is_service now s).1.counters ≡ get j s.counters)
  unfolding check
  check_others j v n = ground (
    arith,
    get-count_request_ne (caller client_id subject bucket) (window_start s.window_seconds now) s j
        v.distinct n,
  )

  -- With a ceiling for the bucket, a window of some length and room for a key, a request is counted and is refused
  -- exactly when the window already holds as many requests of the caller as the ceiling.
  pub check_counts :
      (ceiling : ℕ)
      → get (bucket, is_service) s.cap_by_bucket ≡ some ceiling
      → s.window_seconds ≢ 0
      → 1 ≤ s.max_tracked_keys
      → let start = window_start s.window_seconds now in
        let n = counted start (get (caller client_id subject bucket) s.counters) in
        let (r, s') = check client_id subject bucket is_service now s in
        (r ≡ (
          if ltb n ceiling
          then ok tt
          else err (rate_limit_exceeded (max 1 (ceil_seconds (start + s.window_seconds) now)))))
        × (get (caller client_id subject bucket) s'.counters ≡ some (start, n + 1))
  unfolding check
  check_counts ceiling found w h = ground (
    arith,
    get-count_request_self (caller client_id subject bucket) (window_start s.window_seconds now) s
        h,
    count_request_lem (caller client_id subject bucket) (window_start s.window_seconds now) s,
  )
