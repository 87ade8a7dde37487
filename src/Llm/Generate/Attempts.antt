-- ===== src/Llm/Generate/Attempts.antt =====
-- What every provider call of an execution satisfies.
use holahost.Base.{
  ℕ, zero, suc, ◌+◌, ◌*◌, ◌-◌, ◌≤◌, ◌<◌, ◌≡◌, refl, Bool, true, false, Option, none, some, Result,
  ok, err, not, leb, min, ◌==◌, if◌then◌else◌, arith, All, Bool-cases, inl, inr,
}
use holahost.Base.Int.{ℤ, pos, sub_ℕ, ◌-ℤ◌}
use holahost.Llm.Values.{ClientId, IdempotencyKey, Usage}
use holahost.Llm.Entities.{Model}
use holahost.Llm.Estimates.{
  second, Duration, generation_seconds, within, retry_max_attempts, provider_timeout,
  output_ceiling, effective_max_tokens,
}
use holahost.Llm.Generate.Data.{
  M, State, Attempt, Outcome, answered, transient, rejected, refused, Raised, GenerateResult, pure,
  gets, continue, ◌>>=◌, modify_call, modify_world,
}
use holahost.Llm.Generate.Ports.{Env, monotonic, wall_now, store_complete}
use holahost.Llm.Generate.Budgets.{attempt_budget, requested_tokens}
use holahost.Llm.Generate.Calls.{
  settle, settle_key, write, write_and_settle, record_usage, default_max_retries, after_transient,
  conclude, call_provider, rounds,
}
use holahost.Llm.Generate.Quiet.{
  view, Quiet, Quiet-pure, Quiet-raise, Quiet-gets, Quiet-lift, Quiet-monotonic, Quiet-wall_now,
  Quiet-remaining,
}
use holahost.Llm.Generate.Phases.{retry-Quiet, Quiet-write, Quiet-pause_after}
use holahost.Llm.Generate.Settlement.{
  Quiet-sleep, Quiet-note_transient, Quiet-note_rejection, Quiet-spend,
}

-- A provider call under a deadline: no transaction is open, the answer asked for is within the
-- ceiling, and all of it fits both the timeout of a call and what is left until the deadline.
pub record IsSound (deadline : ℕ) (a : Attempt) : Type 0 where
  pub outside : a.in_transaction ≡ false
  pub allowed : a.max_tokens ≤ output_ceiling a.model
  pub in_timeout : a.max_tokens * second ≤ provider_timeout * a.model.tokens_per_second
  pub in_deadline :
      a.at * a.model.tokens_per_second + a.max_tokens * second
      ≤ deadline * a.model.tokens_per_second

-- A time that fits both ends, from one that fits the smaller.
fits_both :
    (a limit now left t time : ℕ)
    → a ≤ time * t
    → time ≤ limit
    → time ≤ left
    → (a ≤ limit * t) × (now * t + a ≤ (now + left) * t)
fits_both a limit now left t time h k l = grind arith

early :
    (deadline now : ℕ)
    → now ≤ deadline
    → attempt_budget (sub_ℕ deadline now) ≡ pos (min (deadline - now) provider_timeout)
early deadline now h = ground arith

late :
    (needed : Duration) (deadline now : ℕ)
    → deadline < now
    → within needed (attempt_budget (sub_ℕ deadline now)) ≡ false
late needed deadline now h = ground arith

fitting_early :
    (deadline now tokens t : ℕ)
    → now ≤ deadline
    → tokens * second ≤ min (deadline - now) provider_timeout * t
    → (tokens * second ≤ provider_timeout * t) × (now * t + tokens * second ≤ deadline * t)
fitting_early deadline now tokens t h k =
    let (a, b) =
      fits_both (tokens * second) provider_timeout now (deadline - now) t
        (min (deadline - now) provider_timeout) k (omega arith) (omega arith) in
    let whole : now + (deadline - now) ≡ deadline = omega arith in (a, rw whole at b)

fitting :
    (deadline now tokens : ℕ) (model : Model)
    → within (generation_seconds tokens model) (attempt_budget (sub_ℕ deadline now)) ≡ true
    → (tokens * second ≤ provider_timeout * model.tokens_per_second)
      × (now * model.tokens_per_second + tokens * second ≤ deadline * model.tokens_per_second)
unfolding generation_seconds
fitting deadline now tokens model h = elim (Bool-cases (leb now deadline)) [
  | inl e ↦
      fitting_early deadline now tokens model.tokens_per_second (ground arith)
        (ground (arith, rw (early deadline now (ground arith)) at h))
  | inr e ↦
      absurd (ground (arith, h, late (generation_seconds tokens model) deadline now (ground arith)))
]

allowed_tokens : (model : Model) (s : State) → requested_tokens model s ≤ output_ceiling model
unfolding requested_tokens effective_max_tokens
allowed_tokens model s = ground arith

module _ (env : Env) (deadline : ℕ) where
  pub record Sound (s : State) : Type 0 where
    pub closed : s.world.in_transaction ≡ false
    pub until : (view s).rest.deadline ≡ deadline
    pub calls : All (IsSound deadline) (view s).calls

  abbrev pub Keeps : {A : Type 0} → M A → Type 0
  Keeps m = (s : State) → Sound s → Sound (m s).1

  module _ {A : Type 0} where
    pub Quiet-Keeps : (m : M A) → Quiet m → Keeps m
    Quiet-Keeps m q s h = record {
      closed = q.closed s h.closed;
      until = rw (q.same s) h.until;
      calls = rw (q.same s) h.calls;
    }

    pub if-Keeps : (b : Bool) (m n : M A) → Keeps m → Keeps n → Keeps (if b then m else n)
    if-Keeps true m n km kn = km
    if-Keeps false m n km kn = kn

  module _ {A B : Type 0} where
    continue-Keeps :
        (r : Result Raised A) (f : A → M B) (s : State)
        → ((a : A) → Keeps (f a))
        → Sound s
        → Sound (continue r f s).1
    continue-Keeps (ok a) f s k h = k a s h
    continue-Keeps (err e) f s k h = h

    pub bind-Keeps : (m : M A) (f : A → M B) → Keeps m → ((a : A) → Keeps (f a)) → Keeps (m >>= f)
    unfolding ◌>>=◌
    bind-Keeps m f km kf s h = let (r, s') = m s in continue-Keeps r f s' kf (km s h)

    -- After a quiet action.
    pub then-Keeps : (m : M A) (f : A → M B) → Quiet m → ((a : A) → Keeps (f a)) → Keeps (m >>= f)
    then-Keeps m f q = bind-Keeps m f (Quiet-Keeps m q)

  settle-Keeps :
      (client_id : ClientId) (usage : Usage) (key : Option IdempotencyKey)
      → Keeps (settle env client_id usage key)
  unfolding store_complete wall_now modify_call modify_world ◌>>=◌ view pure
  settle-Keeps client_id usage none s h = h
  settle-Keeps client_id usage (some key) s h = record {
    closed = h.closed;
    until = h.until;
    calls = h.calls;
  }

  settle_key-Keeps : (usage : Usage) → Keeps (settle_key env usage)
  unfolding settle_key ◌>>=◌ gets
  settle_key-Keeps usage s h = settle-Keeps s.call.client_id usage s.call.key s h

  record_usage-Keeps :
      (model : Model) (usage : Usage) (elapsed : ℤ) (failed_over : Bool)
      → Keeps (record_usage env model usage elapsed failed_over)
  unfolding record_usage write_and_settle
  record_usage-Keeps model usage elapsed failed_over = then-Keeps _ _ (Quiet-wall_now env) (λ now.
      then-Keeps _ _ (Quiet-gets _) (λ call. then-Keeps _ _ (Quiet-gets _) (λ id.
        then-Keeps _ _ (Quiet-lift _) (λ row s h. settle_key-Keeps usage _ (
          Quiet-Keeps _ (retry-Quiet env default_max_retries (write env row) (Quiet-write env row))
            s h)))))

  module _ (again : M (Option GenerateResult)) (again-Keeps : Keeps again) where
    after_transient-Keeps :
        (needed : Duration) (attempt : ℕ) (retry_after : Option ℤ)
        → Keeps (after_transient env needed attempt retry_after again)
    unfolding after_transient
    after_transient-Keeps needed attempt retry_after =
        if-Keeps (attempt == retry_max_attempts) _ _ (Quiet-Keeps _ (Quiet-pure none)) (
          then-Keeps _ _ (Quiet-pause_after env retry_after attempt) (λ pause.
            then-Keeps _ _ (Quiet-remaining env) (λ left.
              if-Keeps (within needed (left -ℤ pos pause)) _ _
                (then-Keeps _ _ (Quiet-sleep pause) (λ _. again-Keeps))
                (Quiet-Keeps _ (Quiet-pure none)))))

    conclude-Keeps :
        (model : Model) (failed_over : Bool) (needed : Duration) (attempt started : ℕ)
        (outcome : Outcome)
        → Keeps (conclude env model failed_over needed attempt started again outcome)
    unfolding conclude
    conclude-Keeps model failed_over needed attempt started (transient status retry_after) =
        then-Keeps _ _ (Quiet-spend env started) (λ _.
          then-Keeps _ _ (Quiet-note_transient status)
            (λ _. after_transient-Keeps needed attempt retry_after))
    conclude-Keeps model failed_over needed attempt started (rejected rejection) =
        then-Keeps _ _ (Quiet-spend env started) (λ _.
          then-Keeps _ _ (Quiet-note_rejection rejection) (λ _. Quiet-Keeps _ (Quiet-pure none)))
    conclude-Keeps model failed_over needed attempt started (refused usage) =
        then-Keeps _ _ (Quiet-spend env started) (λ elapsed.
          bind-Keeps _ _ (record_usage-Keeps model usage elapsed failed_over)
            (λ _. Quiet-Keeps _ (Quiet-raise _)))
    conclude-Keeps model failed_over needed attempt started (answered generation) =
        then-Keeps _ _ (Quiet-spend env started) (λ elapsed.
          bind-Keeps _ _ (record_usage-Keeps model generation.usage elapsed failed_over)
            (λ _. Quiet-Keeps _ (Quiet-gets _)))

    called-Keeps :
        (model : Model) (failed_over : Bool) (attempt max_tokens now limit : ℕ) (s : State)
        → limit ≡ deadline
        → within (generation_seconds max_tokens model) (attempt_budget (sub_ℕ limit now)) ≡ true
        → max_tokens ≤ output_ceiling model
        → Sound s
        → Sound
            ((modify_call (λ c. record c { attempts = c.attempts + 1 }) >>= λ _.
                monotonic env >>= λ started.
                call_provider env model max_tokens now (attempt_budget (sub_ℕ limit now))
                >>= λ outcome.
                    conclude env model failed_over
                      (generation_seconds max_tokens model)
                      attempt
                      started
                      again
                      outcome)
              s).1
    unfolding ◌>>=◌ monotonic call_provider modify_call view
    called-Keeps model failed_over attempt max_tokens now limit s same e a h =
        let (in_timeout, in_deadline) = fitting deadline now max_tokens model (rw same at e) in
        conclude-Keeps model failed_over (generation_seconds max_tokens model) attempt
          (env.readings s.world.monotonics) (env.vendor s.world.generations) _
          (record {
            closed = h.closed;
            until = h.until;
            calls = (
              record {
                outside = h.closed;
                allowed = a;
                in_timeout = in_timeout;
                in_deadline = in_deadline;
              },
              h.calls,
            );
          })

  unless-Sound :
      {A : Type 0} (b : Bool) (a : A) (m : M A) (s : State)
      → (b ≡ true → Sound (m s).1)
      → Sound s
      → Sound ((if not b then pure a else m) s).1
  unfolding pure
  unless-Sound true a m s k h = k refl
  unless-Sound false a m s k h = h

  pub rounds-Keeps :
      (model : Model) (failed_over : Bool) (left attempt : ℕ)
      → Keeps (rounds env model failed_over left attempt)
  unfolding rounds ◌>>=◌ gets monotonic view
  rounds-Keeps model failed_over zero attempt s h = Quiet-Keeps _ (Quiet-pure none) s h
  rounds-Keeps model failed_over (suc left) attempt s h =
      let again = rounds env model failed_over left (attempt + 1) in
      let max_tokens = requested_tokens model s in
      let now = env.readings s.world.monotonics in
      let (r, s') = monotonic env s in
      unless-Sound
        (within (generation_seconds max_tokens model) (attempt_budget (sub_ℕ s'.call.deadline now)))
        none _ s'
        (λ e.
          called-Keeps again (rounds-Keeps model failed_over left (attempt + 1)) model failed_over
            attempt max_tokens now s'.call.deadline s' h.until e (allowed_tokens model s)
            (Quiet-Keeps _ (Quiet-monotonic env) s h))
        (Quiet-Keeps _ (Quiet-monotonic env) s h)
