-- ===== src/Llm/Generate/Calls.antt =====
-- `_attempt`, `_backoff`, `_record` and `_call_candidates`, and the retry of
-- libs/holahost-db/holahost_db/retry.py.
use holahost.Base.{
  ℕ, zero, suc, ◌+◌, ◌-◌, ◌*◌, ◌/◌, ◌%◌, Bool, true, false, Option, none, some, List, [], ◌∷◌, ltb,
  ◌==◌, not, if◌then◌else◌, Result, ok, err,
}
use Prim.Native.Nat.{◌^◌}
use holahost.Base.Int.{ℤ, pos, negsuc, pos_part, sub_ℕ, ◌+ℤ◌, ◌-ℤ◌, max_ℤ}
use holahost.Llm.Values.{Usage, ClientId, IdempotencyKey}
use holahost.Llm.Entities.{Model, UsageRecord, create_usage_record}
use holahost.Llm.Estimates.{
  generation_seconds, within, retry_max_attempts, retry_backoff_base, Duration,
}
use holahost.Llm.Generate.Data.{
  M, Call, Raised, StorageError, usage_not_recorded, content_refused, upstream_llm,
  provider_rejected, Rejection, Outcome, answered, transient, rejected, refused, Generation,
  GenerateResult, Attempt, pure, raise, gets, ◌>>=◌, ◌>>◌, modify_call, modify_world,
}
use holahost.Llm.Generate.Ports.{
  Env, monotonic, wall_now, draw, with_uow, add_record, store_complete, lift,
}
use holahost.Llm.Generate.Budgets.{attempt_budget, requested_tokens, remaining, usable, too_slow}

-- `round(seconds * 1000)`, of microseconds: to the nearest, a half to the even
unfoldable pub round_half_even : ℕ → ℕ
round_half_even micros =
    let q = micros / 1000 in
    let r = micros % 1000 in
    if ltb r 500 then q else if ltb 500 r then q + 1 else if q % 2 == 0 then q else q + 1

unfoldable pub negate : ℕ → ℤ
negate zero = pos 0
negate (suc n) = negsuc n

unfoldable pub to_ms : ℤ → ℤ
unfolding round_half_even negate
to_ms (pos n) = pos (round_half_even n)
to_ms (negsuc n) = negate (round_half_even (suc n))

-- `RETRY_BACKOFF_BASE_SECONDS * 2.0 ** (attempt - 1) * jitter`, where the jitter of a draw of `r`
-- millionths is 1 + 0.2 * (2 r - 1), rounded down to a microsecond
unfoldable pub backoff_time : ℕ → ℕ → ℕ
backoff_time attempt r = retry_backoff_base * 2 ^ (attempt - 1) * (4_000_000 + 2 * r) / 5_000_000

-- A first failure may be retried: `retry_on_concurrent_update`, of what is left of its retries.
unfoldable pub is_conflict : {A : Type 0} → Result Raised A → Bool
is_conflict (err (Raised.storage StorageError.concurrent_update)) = true
is_conflict _ = false

unfoldable pub retry_on_concurrent_update : {A : Type 0} → ℕ → M A → M A
unfolding is_conflict
retry_on_concurrent_update zero fn s = fn s
retry_on_concurrent_update (suc left) fn s =
    let (r, s') = fn s in
    let again = retry_on_concurrent_update left fn s' in if is_conflict r then again else (r, s')

abbrev pub default_max_retries : ℕ
default_max_retries = 2

-- `pause`: what the vendor asks for, or the backoff, and never negative
abbrev pub clamp : ℤ → ℕ
clamp t = pos_part (max_ℤ (pos 0) t)

-- `except (StorageUnavailableError, ConcurrentUpdateError, IntegrityError)` of `_record`
abbrev pub unrecorded : Usage → Model → Result Raised (Unit {0}) → Result Raised (Unit {0})
unrecorded usage model (ok _) = ok tt
unrecorded usage model (err (Raised.storage e)) =
    err (usage_not_recorded usage model.provider.name model.id e)
unrecorded usage model (err e) = err e

abbrev pub one_if_none : Option ℕ → ℕ
one_if_none none = 1
one_if_none (some _) = 0

unfoldable pub note_transient : Option ℕ → Call → Call
note_transient status c = record c {
  transient_failures = c.transient_failures + 1;
  last_transient_status = status;
  provider_timeouts = c.provider_timeouts + one_if_none status;
}

unfoldable pub result_of : Model → Generation → Bool → Call → GenerateResult
result_of model generation failed_over c = record {
  text = generation.text;
  input_tokens = generation.usage.input_tokens.value;
  output_tokens = generation.usage.output_tokens.value;
  provider = model.provider.name.value;
  model = model.id.value;
  finish_reason = generation.finish_reason;
  downgraded = c.downgraded;
  failed_over = failed_over;
  attempts = c.attempts;
  provider_timeouts = c.provider_timeouts;
  provider_ms = to_ms c.provider_time;
}

-- `self.sleep(pause)`
unfoldable pub sleep : ℕ → M (Unit {0})
sleep pause = modify_world (λ w. record w { slept = pause ∷ w.slept })

-- `finally`: what it raises takes the place of the end before it.
abbrev pub finishing : {A : Type 0} → Result Raised A → Result Raised (Unit {0}) → Result Raised A
finishing r (ok _) = r
finishing r (err e) = err e

module _ (env : Env) where
  -- `_backoff`
  unfoldable pub backoff : ℕ → M ℕ
  backoff attempt = do r ← draw env; pure (backoff_time attempt r)

  unfoldable pub pause_after : Option ℤ → ℕ → M ℕ
  pause_after (some retry_after) attempt = pure (clamp retry_after)
  pause_after none attempt = backoff attempt

  -- `generation_provider.generate`, with the reading that the timeout was computed from
  unfoldable pub call_provider : Model → ℕ → ℕ → ℤ → M Outcome
  call_provider model max_tokens at timeout s =
      let w = s.world in
      let outcome = env.vendor w.generations in
      let attempt : Attempt = record {
        model = model;
        max_tokens = max_tokens;
        at = at;
        timeout = timeout;
        in_transaction = w.in_transaction;
        outcome = outcome;
      } in
      (
        ok outcome,
        record s {
          world = record w { generations = w.generations + 1; calls = attempt ∷ w.calls };
        },
      )

  abbrev pub settle : ClientId → Usage → Option IdempotencyKey → M (Unit {0})
  settle client_id usage none = pure tt
  settle client_id usage (some key) = do
    modify_call (λ c. record c { key_settled = true })
    store_complete env client_id key usage

  -- The `finally` of `_record`.
  unfoldable pub settle_key : Usage → M (Unit {0})
  settle_key usage = do call ← gets (λ s. s.call); settle call.client_id usage call.key

  -- `write`
  unfoldable pub write : UsageRecord → M (Unit {0})
  write row = with_uow env (add_record env row)

  unfoldable pub write_and_settle : Model → Usage → UsageRecord → M (Unit {0})
  write_and_settle model usage row s =
      let (written, s') = retry_on_concurrent_update default_max_retries (write row) s in
      let (settled, s'') = settle_key usage s' in
      (finishing (unrecorded usage model written) settled, s'')

  -- `_record`
  unfoldable pub record_usage : Model → Usage → ℤ → Bool → M (Unit {0})
  record_usage model usage elapsed failed_over = do
    now ← wall_now env
    call ← gets (λ s. s.call)
    id ← gets (λ s. env.fresh s.world.instants)
    row ← lift (
        create_usage_record id (record { micros = now; is_aware = true }) call.cmd.request_id
          call.client_id call.subject model.provider.name model.id usage (to_ms elapsed)
          call.downgraded failed_over)
    write_and_settle model usage row

  -- The time spent in the provider call that began at `started`, added to the call's.
  unfoldable pub spend : ℕ → M ℤ
  spend started = do
    ended ← monotonic env
    modify_call (λ c. record c { provider_time = c.provider_time +ℤ sub_ℕ ended started })
    pure (sub_ℕ ended started)

  -- A failed attempt: the pause before the next one, if another still fits.
  unfoldable pub after_transient :
      Duration → ℕ → Option ℤ → M (Option GenerateResult) → M (Option GenerateResult)
  after_transient needed attempt retry_after again =
      if attempt == retry_max_attempts then pure none else (do
        pause ← pause_after retry_after attempt
        left ← remaining env
        if within needed (left -ℤ pos pause) then (do sleep pause; again) else pure none)

  -- What an attempt does with the outcome of its call.
  unfoldable pub conclude :
      Model
      → Bool
      → Duration
      → ℕ
      → ℕ
      → M (Option GenerateResult)
      → Outcome
      → M (Option GenerateResult)
  conclude model failed_over needed attempt started again (transient status retry_after) = do
    spend started
    modify_call (note_transient status)
    after_transient needed attempt retry_after again
  conclude model failed_over needed attempt started again (rejected rejection) = do
    spend started
    modify_call (λ c. record c { rejection = some rejection })
    pure none
  conclude model failed_over needed attempt started again (refused usage) = do
    elapsed ← spend started
    record_usage model usage elapsed failed_over
    raise (content_refused model.provider.name model.id usage)
  conclude model failed_over needed attempt started again (answered generation) = do
    elapsed ← spend started
    record_usage model generation.usage elapsed failed_over
    gets (λ s. some (result_of model generation failed_over s.call))

  -- The rounds of `_attempt` that are left, from round `attempt` on.
  unfoldable pub rounds : Model → Bool → ℕ → ℕ → M (Option GenerateResult)
  rounds model failed_over zero attempt = pure none
  rounds model failed_over (suc left) attempt =
      let again = rounds model failed_over left (attempt + 1) in
      do
        max_tokens ← gets (requested_tokens model)
        let needed = generation_seconds max_tokens model
        now ← monotonic env
        timeout ← gets (λ s. attempt_budget (sub_ℕ s.call.deadline now))
        if not (within needed timeout) then pure none else (do
          modify_call (λ c. record c { attempts = c.attempts + 1 })
          started ← monotonic env
          outcome ← call_provider model max_tokens now timeout
          conclude model failed_over needed attempt started again outcome)

  -- `_attempt`
  unfoldable pub attempt_model : Model → Bool → M (Option GenerateResult)
  attempt_model model failed_over = rounds model failed_over retry_max_attempts 1

  abbrev pub rejected_or_slow : Call → Option Rejection → M GenerateResult
  rejected_or_slow call (some rejection) = raise (provider_rejected rejection)
  rejected_or_slow call none = do left ← remaining env; raise (too_slow call.requested_model left)

  -- The end of `_call_candidates`: no candidate answered.
  unfoldable pub give_up : M GenerateResult
  give_up = do
    call ← gets (λ s. s.call)
    if ltb 0 call.transient_failures
        then raise (upstream_llm call.attempts call.last_transient_status call.provider_timeouts)
        else rejected_or_slow call call.rejection

  abbrev pub answer_or : M GenerateResult → Option GenerateResult → M GenerateResult
  answer_or next (some answer) = pure answer
  answer_or next none = next

  -- `_call_candidates`, from the candidate at `index` on
  unfoldable pub call_candidates : ℕ → List Model → M GenerateResult
  call_candidates index [] = give_up
  call_candidates index (model ∷ models) =
      let next = call_candidates (index + 1) models in
      do
        able ← usable env model
        if not able
            then next
            else (do result ← attempt_model model (ltb 0 index); answer_or next result)
