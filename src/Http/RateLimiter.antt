-- ===== src/Http/RateLimiter.antt =====
-- `InMemoryRateLimiter` (libs/holahost-http/holahost_http/in_memory_rate_limiter.py): fixed windows
-- counted per caller in an `OrderedDict`, least recently used first. The clock, a float of seconds,
-- is a number of microseconds.
pub mod Eviction
pub mod Counting
pub mod Bursts
pub mod Retry
mod Tests
use holahost.Base.{
  ℕ, ◌+◌, ◌-◌, ◌*◌, ◌/◌, ◌%◌, String, Bool, true, none, some, Option, List, [], ◌∷◌, ◌++◌, ltb,
  ◌==◌, if◌then◌else◌, length, max, Result, ok, err, ◌≡◌, ◌↔◌, ◌&&◌, arith,
}
use holahost.Base.Equality.{Eq, ◌=?◌, pair_eq, string_eq, bool_eq}
use text.Mathlib.TextEquality.{eq_iff}
use holahost.Base.Dict.{Dict, get, put, remove}

abbrev pub second : ℕ
second = 1_000_000

-- `_Key`, the tuple of a caller and its bucket
pub record Key : Type 0 where
  pub client_id : String
  pub subject : String
  pub bucket : String

abbrev pub caller : String → String → String → Key
caller client_id subject bucket = record {
  client_id = client_id;
  subject = subject;
  bucket = bucket;
}

unfoldable pub key_beq : Key → Key → Bool
key_beq a b = a.client_id =? b.client_id && a.subject =? b.subject && a.bucket =? b.bucket

pub key_beq_iff : (a b : Key) → (key_beq a b ≡ true) ↔ (a ≡ b)
unfolding key_beq
key_beq_iff a b =
    ground
      (arith, eq_iff a.client_id b.client_id, eq_iff a.subject b.subject, eq_iff a.bucket b.bucket)

instance abbrev pub key_eq : Eq Key
key_eq = record { beq = key_beq; beq_iff = key_beq_iff }

-- What `check` may raise: an unknown bucket, a window of no length, the refusal.
pub data CheckError : Type 0 where
  key_error : CheckError
  zero_division : CheckError
  rate_limit_exceeded : ℕ → CheckError

pub record InMemoryRateLimiter : Type 0 where
  pub cap_by_bucket : Dict (String × Bool) ℕ
  pub window_seconds : ℕ
  pub max_tracked_keys : ℕ
  -- key to (window start, count), least recently used first
  pub counters : Dict Key (ℕ × ℕ)

pub data InitError : Type 0 where
  value_error : InitError

-- `__init__`
unfoldable pub init : Dict (String × Bool) ℕ → ℕ → ℕ → Result InitError InMemoryRateLimiter
init caps window tracked =
    if ltb tracked 1
    then err value_error
    else ok (record {
      cap_by_bucket = caps;
      window_seconds = window;
      max_tracked_keys = tracked;
      counters = [];
    })

module _ {ℓ κ} {K : Type ℓ} {V : Type κ} ⦃e : Eq K⦄ where
  -- `OrderedDict.move_to_end` of a key that is present
  unfoldable pub move_to_end : K → Dict K V → Dict K V
  move_to_end k d = elim (get k d) [ none ↦ d | some v ↦ remove k d ++ (k, v) ∷ [] ]

-- `while len(d) > limit: d.popitem(last=False)`
unfoldable pub evict {ℓ κ} : {K : Type ℓ} {V : Type κ} → ℕ → Dict K V → Dict K V
evict limit [] = []
evict limit (x ∷ d) = let rest = evict limit d in if ltb limit (length (x ∷ d)) then rest else x ∷ d

-- `int(now) - int(now) % window_seconds`
abbrev pub window_start : ℕ → ℕ → ℕ
window_start window now = now / second - now / second % window

-- The count that the stored entry holds for the window that starts at `start`.
abbrev pub counted : ℕ → Option (ℕ × ℕ) → ℕ
counted start none = 0
counted start (some (stored, count)) = if stored == start then count else 0

-- `math.ceil(window_end - now)`, of an end that is not past
abbrev pub ceil_seconds : ℕ → ℕ → ℕ
ceil_seconds end now = (end * second - now + (second - 1)) / second

-- The part under the lock.
unfoldable pub count_request : Key → ℕ → InMemoryRateLimiter → ℕ × InMemoryRateLimiter
count_request key start s =
    let count = counted start (get key s.counters) + 1 in
    let written = move_to_end key (put key (start, count) s.counters) in
    (count, record s { counters = evict s.max_tracked_keys written })

unfoldable pub check :
    (client_id subject bucket : String) (is_service : Bool) (now : ℕ)
    → InMemoryRateLimiter
    → Result CheckError (Unit {0}) × InMemoryRateLimiter
check client_id subject bucket is_service now s = elim (get (bucket, is_service) s.cap_by_bucket) [
  | none ↦ (err key_error, s)
  | some cap ↦
      if s.window_seconds == 0
      then (err zero_division, s)
      else let start = window_start s.window_seconds now in
        let (count, s') = count_request (caller client_id subject bucket) start s in
        if ltb cap count
        then (err (rate_limit_exceeded (max 1 (ceil_seconds (start + s.window_seconds) now))), s')
        else (ok tt, s')
]
