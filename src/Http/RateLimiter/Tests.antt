-- ===== src/Http/RateLimiter/Tests.antt =====
-- The theorems on the limiter at requests.
use holahost.Base.{◌≤◌, ◌≡◌, ◌⊎◌, refl, true, none, some, [], ◌∷◌, ok, arith}
use holahost.Base.Equality.{pair_eq, string_eq, bool_eq}
use holahost.Base.Dict.{get, put, remove}
use holahost.Http.RateLimiter.{
  key_eq, key_beq, caller, InMemoryRateLimiter, init, check, count_request, evict, move_to_end,
}
use holahost.Http.RateLimiter.Counting.{
  IsBounded, init-IsBounded, check-IsBounded, check_others, check_counts,
}
use holahost.Http.RateLimiter.Bursts.{admitted, admitted_within_window}
use holahost.Http.RateLimiter.Retry.{check_after_retry}

-- Two callers have one request each in the minute that starts at 120 s, of a ceiling of two.
abbrev limiter : InMemoryRateLimiter
limiter = record {
  cap_by_bucket = (("generate", true), 2) ∷ [];
  window_seconds = 60;
  max_tracked_keys = 2;
  counters = (caller "b" "b" "generate", (120, 1)) ∷ (caller "a" "a" "generate", (120, 1)) ∷ [];
}

abbrev fresh : InMemoryRateLimiter
fresh = record limiter { counters = [] }

limiter-IsBounded : IsBounded limiter
unfolding get key_beq
limiter-IsBounded = record {
  positive = omega arith;
  bounded = omega arith;
  distinct = (refl, (refl, tt));
}

fresh-IsBounded : IsBounded fresh
unfolding init
fresh-IsBounded = init-IsBounded ((("generate", true), 2) ∷ []) 60 2 fresh refl

check-IsBounded_example : IsBounded (check "c" "c" "generate" true 130_500_000 limiter).1
check-IsBounded_example =
    check-IsBounded "c" "c" "generate" true 130_500_000 limiter limiter-IsBounded

check_others_example :
    (get (caller "a" "a" "generate") (check "c" "c" "generate" true 130_500_000 limiter).1.counters
      ≡ none)
    ⊎ (get
          (caller "a" "a" "generate")
          (check "c" "c" "generate" true 130_500_000 limiter).1.counters
        ≡ get (caller "a" "a" "generate") limiter.counters)
unfolding key_beq
check_others_example =
    check_others "c" "c" "generate" true 130_500_000 limiter (caller "a" "a" "generate")
      limiter-IsBounded refl

check_counts_example :
    ((check "a" "a" "generate" true 130_500_000 limiter).0 ≡ ok tt)
    × (get
          (caller "a" "a" "generate")
          (check "a" "a" "generate" true 130_500_000 limiter).1.counters
        ≡ some (120, 2))
unfolding get key_beq
check_counts_example =
    check_counts "a" "a" "generate" true 130_500_000 limiter 2 refl (omega arith) (omega arith)

admitted_within_window_example :
    admitted "a" "a" "generate" true (121_000_000 ∷ 130_500_000 ∷ 179_000_000 ∷ []) fresh ≡ 2
unfolding get key_beq
admitted_within_window_example =
    admitted_within_window "a" "a" "generate" true 120 2
      (121_000_000 ∷ 130_500_000 ∷ 179_000_000 ∷ []) fresh refl (omega arith) (omega arith)
      (refl, (refl, (refl, tt)))

-- The caller's third request, half a second into the minute's eleventh second.
abbrev full : InMemoryRateLimiter
full = record limiter { counters = (caller "a" "a" "generate", (120, 2)) ∷ [] }

check_after_retry_example :
    let s' = (check "a" "a" "generate" true 130_500_000 full).1 in
    (1 ≤ 50) × (50 ≤ 60) × ((check "a" "a" "generate" true 180_500_000 s').0 ≡ ok tt)
unfolding get key_beq put move_to_end remove evict count_request check
check_after_retry_example =
    check_after_retry "a" "a" "generate" true 130_500_000 full 2 50 180_500_000 refl (omega arith)
      (omega arith) (omega arith) refl (omega arith)
