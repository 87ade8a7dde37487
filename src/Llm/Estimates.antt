-- ===== src/Llm/Estimates.antt =====
-- application/limits.py and application/estimates.py. A time in seconds is a number of microseconds;
-- how long an answer takes is an exact fraction, where the program divides floats; the product of floats
-- that a refusal advertises is rounded as theirs is.
mod Tests
use Prim.Native.String.{len}
use holahost.Base.{
  ℕ, zero, suc, ◌+◌, ◌*◌, ◌/◌, ◌%◌, ◌^◌, ltb, if◌then◌else◌, true, min, String, Bool, false, Option,
  none, some, List, [], ◌∷◌, leb,
}
use holahost.Base.Int.{ℤ, pos, negsuc}
use holahost.Llm.Values.{Message}
use holahost.Llm.Entities.{Model}

abbrev pub second : ℕ
second = 1_000_000

abbrev pub provider_timeout : ℕ
provider_timeout = 20_000_000

abbrev pub retry_max_attempts : ℕ
retry_max_attempts = 2

abbrev pub retry_backoff_base : ℕ
retry_backoff_base = 1_000_000

abbrev pub retry_total_budget : ℕ
retry_total_budget = 25_000_000

abbrev pub max_output_tokens : ℕ
max_output_tokens = 1000

abbrev pub max_stop_sequences : ℕ
max_stop_sequences = 4

abbrev pub message_framing_tokens : ℕ
message_framing_tokens = 16

unfoldable pub sum_parts : List Message → ℕ
sum_parts [] = 0
sum_parts (message ∷ messages) = len message.text + message_framing_tokens + sum_parts messages

-- `len` counts the bytes of UTF-8.
unfoldable pub estimate_input_tokens : String → List Message → ℕ
unfolding sum_parts
estimate_input_tokens system messages = len system + message_framing_tokens + sum_parts messages

unfoldable pub output_ceiling : Model → ℕ
output_ceiling model = min max_output_tokens model.max_output

unfoldable pub effective_max_tokens : Option ℕ → Model → ℕ
unfolding output_ceiling
effective_max_tokens none model = output_ceiling model
effective_max_tokens (some requested) model = min requested (output_ceiling model)

-- `num / den` seconds
pub record Duration : Type 0 where
  pub num : ℕ
  pub den : ℕ

-- The exact quotient. The program's is the double next to it, which compares the same with the double
-- next to a whole number of microseconds: for a count of at most `max_output_tokens` the quotient is
-- that time, or differs from it by at least a part in 10^9, and a double is off by one in 2^53.
unfoldable pub generation_seconds : ℕ → Model → Duration
generation_seconds max_tokens model = record { num = max_tokens; den = model.tokens_per_second }

-- `duration <= time`
abbrev pub within : Duration → ℤ → Bool
within d (pos t) = leb (d.num * second) (t * d.den)
within d (negsuc t) = false

-- `b` doubled until `n * b / d` is at least `2 ^ 52`, at most as often as the least double allows
unfoldable pub scale_up : ℕ → ℕ → ℕ → ℕ → ℕ
scale_up zero n d b = b
scale_up (suc fuel) n d b = elim (leb (2 ^ 52 * d) (n * b)) [
  | true ↦ b
  | false ↦ scale_up fuel n d (b * 2)
]

-- `a` doubled until `n / (d * a)` is less than `2 ^ 53`, at most as often as the greatest double allows
unfoldable pub scale_down : ℕ → ℕ → ℕ → ℕ → ℕ
scale_down zero n d a = a
scale_down (suc fuel) n d a = elim (ltb n (2 ^ 53 * (d * a))) [
  | true ↦ a
  | false ↦ scale_down fuel n d (a * 2)
]

-- `n / d`, rounded to a whole number, and to the even one of two that are equally near
unfoldable pub round_quotient : ℕ → ℕ → ℕ
round_quotient n d =
    let q = n / d in
    let twice = 2 * (n % d) in if ltb twice d then q else if ltb d twice then q + 1 else q + q % 2

-- The double next to `n / d`
unfoldable pub nearest_double : ℕ → ℕ → Duration
unfolding scale_up scale_down round_quotient
nearest_double n d =
    let a = scale_down 971 n d 1 in
    let b = scale_up 1074 n d 1 in record { num = round_quotient (n * b) (d * a) * a; den = b }

-- `seconds * model.tokens_per_second`, of doubles
abbrev pub product : Duration → Duration → Duration
product x y = nearest_double (x.num * y.num) (x.den * y.den)

-- Of a time that is not negative; the outer `max(0, …)` is then the identity.
unfoldable pub max_tokens_within : ℕ → Model → ℕ
unfolding output_ceiling nearest_double
max_tokens_within seconds model =
    let tokens =
      product (nearest_double seconds second) (nearest_double model.tokens_per_second 1) in
    min (tokens.num / tokens.den) (output_ceiling model)
