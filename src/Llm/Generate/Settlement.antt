-- ===== src/Llm/Generate/Settlement.antt =====
-- One execution pays at most once, and settles what it paid.
use holahost.Base.{
  ℕ, zero, suc, ◌+◌, ◌≤◌, ◌≡◌, refl, ◌⊎◌, inl, inr, Bool, true, false, Option, none, some, List, [],
  ◌∷◌, Result, ok, err, not, ◌==◌, if◌then◌else◌,
}
use holahost.Base.Int.{ℤ, pos, sub_ℕ, ◌-ℤ◌}
use holahost.Llm.Values.{ClientId, IdempotencyKey, Usage}
use holahost.Llm.Entities.{Model}
use holahost.Llm.Estimates.{Duration, generation_seconds, within, retry_max_attempts}
use holahost.Llm.Idempotency.{InMemoryIdempotencyStore}
use holahost.Llm.Generate.Data.{
  M, State, Call, Attempt, Rejection, Outcome, answered, transient, rejected, refused, Raised,
  GenerateResult, pure, raise, gets, continue, ◌>>=◌, modify_call, modify_world,
}
use holahost.Llm.Generate.Ports.{Env, monotonic}
use holahost.Llm.Generate.Calls.{
  record_usage, sleep, spend, note_transient, after_transient, conclude, call_provider, rounds,
}
use holahost.Llm.Generate.Quiet.{
  View, view, Quiet, Quiet-pure, Quiet-gets, Quiet-bind, Quiet-modify_call, Quiet-monotonic,
  Quiet-remaining,
}
use holahost.Llm.Generate.Phases.{
  charge, Unpaid, PaidOnce, IsUnsettled, IsOpen, IsCharged, IsSettled, Quiet-pause_after,
  to_ms_nonneg, record_usage-IsSettled,
}

-- Python's documented `time.monotonic`: it never goes backwards.
abbrev pub IsMonotonic : Env → Type 0
IsMonotonic env = (i : ℕ) → env.readings i ≤ env.readings (i + 1)

-- The latest call ended so, and none before it charged anything.
abbrev LatestIs : Outcome → List Attempt → Type 0
LatestIs outcome [] = ⊥
LatestIs outcome (a ∷ calls) = (a.outcome ≡ outcome) × Unpaid calls

Latest-Unpaid :
    (outcome : Outcome) (calls : List Attempt)
    → charge outcome ≡ none
    → LatestIs outcome calls
    → Unpaid calls
Latest-Unpaid outcome [] e h = absurd h
Latest-Unpaid outcome (a ∷ calls) e h = (rw h.0 e, h.1)

Latest-PaidOnce :
    (outcome : Outcome) (usage : Usage) (calls : List Attempt)
    → charge outcome ≡ some usage
    → LatestIs outcome calls
    → PaidOnce usage calls
Latest-PaidOnce outcome usage [] e h = h
Latest-PaidOnce outcome usage (a ∷ calls) e h = (rw h.0 e, h.1)

pub Quiet-sleep : (pause : ℕ) → Quiet (sleep pause)
unfolding sleep modify_world view
Quiet-sleep pause = record { same = λ s. refl; closed = λ s h. h }

pub Quiet-note_transient : (status : Option ℕ) → Quiet (modify_call (note_transient status))
unfolding note_transient
Quiet-note_transient status = Quiet-modify_call _ (λ c. refl)

abbrev pub note_rejection : Rejection → Call → Call
note_rejection rejection c = record c { rejection = some rejection }

pub Quiet-note_rejection : (rejection : Rejection) → Quiet (modify_call (note_rejection rejection))
Quiet-note_rejection rejection = Quiet-modify_call (note_rejection rejection) (λ c. refl)

pub Quiet-spend : (env : Env) (started : ℕ) → Quiet (spend env started)
unfolding spend
Quiet-spend env started =
    Quiet-bind _ _ (Quiet-monotonic env)
      (λ ended. Quiet-bind _ _ (Quiet-modify_call _ (λ c. refl)) (λ _. Quiet-pure _))

spend_lem :
    (env : Env) (started : ℕ) (s : State)
    → (spend env started s).0 ≡ ok (sub_ℕ (env.readings s.world.monotonics) started)
unfolding spend monotonic modify_call pure ◌>>=◌
spend_lem env started s = refl

module _ (env : Env) (key : Option IdempotencyKey) (client_id : ClientId)
    (store : InMemoryIdempotencyStore) where
  abbrev pub Open : State → Type 0
  Open s = IsOpen key client_id store (view s)

  abbrev pub Settled : State → Type 0
  Settled s = IsSettled key client_id store (view s)

  -- How an action that may pay ends: without an answer nothing is paid, an answer is paid and
  -- settled, and an error is either.
  abbrev pub Settles : Result Raised (Option GenerateResult) × State → Type 0
  Settles (ok none, s) = Open s
  Settles (ok (some _), s) = Settled s
  Settles (err _, s) = Open s ⊎ Settled s

  continue-Settles :
      {A : Type 0} (r : Result Raised A) (f : A → M (Option GenerateResult)) (s : State)
      → ((a : A) (s : State) → Open s → Settles (f a s))
      → Open s
      → Settles (continue r f s)
  continue-Settles (ok a) f s h o = h a s o
  continue-Settles (err e) f s h o = inl o

  bind-Settles :
      {A : Type 0} (m : M A) (f : A → M (Option GenerateResult)) (s : State)
      → Quiet m
      → ((a : A) (s : State) → Open s → Settles (f a s))
      → Open s
      → Settles ((m >>= f) s)
  unfolding ◌>>=◌
  bind-Settles m f s q h o = let (r, s') = m s in continue-Settles r f s' h (rw (q.same s) o)

  none-Settles : (s : State) → Open s → Settles (pure none s)
  unfolding pure
  none-Settles s o = o

  if-Settles :
      (b : Bool) (m n : M (Option GenerateResult)) (s : State)
      → Settles (m s)
      → Settles (n s)
      → Settles ((if b then m else n) s)
  if-Settles true m n s h k = h
  if-Settles false m n s h k = k

  module _ (again : M (Option GenerateResult))
      (again-Settles : (s : State) → Open s → Settles (again s)) where
    after_transient-Settles :
        (needed : Duration) (attempt : ℕ) (retry_after : Option ℤ) (s : State)
        → Open s
        → Settles (after_transient env needed attempt retry_after again s)
    unfolding after_transient
    after_transient-Settles needed attempt retry_after s o =
        if-Settles (attempt == retry_max_attempts) _ _ s (none-Settles s o) (
          bind-Settles _ _ s (Quiet-pause_after env retry_after attempt)
            (λ pause s o.
              bind-Settles _ _ s (Quiet-remaining env)
                (λ left s o.
                  if-Settles (within needed (left -ℤ pos pause)) _ _ s
                    (bind-Settles _ _ s (Quiet-sleep pause) (λ _. again-Settles) o)
                    (none-Settles s o))
                o)
            o)

  -- A provider call has just ended.
  record IsTaken (outcome : Outcome) (v : View) : Type 0 where
    latest : LatestIs outcome v.calls
    unsettled : IsUnsettled key client_id store v

  taken-Open :
      (outcome : Outcome) (v : View)
      → charge outcome ≡ none
      → IsTaken outcome v
      → IsOpen key client_id store v
  taken-Open outcome v e h = record {
    unpaid = Latest-Unpaid outcome v.calls e h.latest;
    unsettled = h.unsettled;
  }

  recorded-Settles :
      (r : Result Raised (Unit {0})) (f : Unit {0} → M (Option GenerateResult)) (s : State)
      → ((s : State) → Settled s → Settles (f tt s))
      → Settled s
      → Settles (continue r f s)
  recorded-Settles (ok _) f s h p = h s p
  recorded-Settles (err e) f s h p = inr p

  -- The charge is recorded with the time since `started`, which is not negative.
  paid-Settles :
      (model : Model) (failed_over : Bool) (started : ℕ) (outcome : Outcome) (usage : Usage)
      (f : Unit {0} → M (Option GenerateResult)) (s : State)
      → charge outcome ≡ some usage
      → started ≤ env.readings s.world.monotonics
      → IsTaken outcome (view s)
      → ((s : State) → Settled s → Settles (f tt s))
      → Settles (
          (spend env started >>= λ elapsed. record_usage env model usage elapsed failed_over >>= f)
            s)
  unfolding ◌>>=◌
  paid-Settles model failed_over started outcome usage f s e h t k =
      let elapsed = sub_ℕ (env.readings s.world.monotonics) started in
      let (n, ms) = to_ms_nonneg started (env.readings s.world.monotonics) h in
      let s' = (spend env started s).1 in
      let charged : IsCharged key client_id store usage (view s) = record {
        paid = Latest-PaidOnce outcome usage (view s).calls e t.latest;
        unsettled = t.unsettled;
      } in
      let settled =
        record_usage-IsSettled env key client_id store model usage elapsed failed_over n s' ms
          (rw ((Quiet-spend env started).same s) charged) in
      let (r, s'') = record_usage env model usage elapsed failed_over s' in
      rw (spend_lem env started s) (recorded-Settles r f s'' k settled)

  Settled-raise : (e : Raised) (s : State) → Settled s → Settles (raise e s)
  unfolding raise
  Settled-raise e s p = inr p

  module _ (again : M (Option GenerateResult))
      (again-Settles : (s : State) → Open s → Settles (again s)) where
    conclude-Settles :
        (model : Model) (failed_over : Bool) (needed : Duration) (attempt started : ℕ)
        (outcome : Outcome) (s : State)
        → started ≤ env.readings s.world.monotonics
        → IsTaken outcome (view s)
        → Settles (conclude env model failed_over needed attempt started again outcome s)
    unfolding conclude
    conclude-Settles model failed_over needed attempt started (transient status retry_after) s h t =
        bind-Settles _ _ s (Quiet-spend env started)
          (λ _ s o.
            bind-Settles _ _ s (Quiet-note_transient status)
              (λ _ s o. after_transient-Settles again again-Settles needed attempt retry_after s o)
              o)
          (taken-Open (transient status retry_after) (view s) refl t)
    conclude-Settles model failed_over needed attempt started (rejected rejection) s h t =
        bind-Settles _ _ s (Quiet-spend env started)
          (λ _ s o. bind-Settles _ _ s (Quiet-note_rejection rejection) (λ _. none-Settles) o)
          (taken-Open (rejected rejection) (view s) refl t)
    conclude-Settles model failed_over needed attempt started (refused usage) s h t =
        paid-Settles model failed_over started (refused usage) usage _ s refl h t (Settled-raise _)
    conclude-Settles model failed_over needed attempt started (answered generation) s h t =
        paid-Settles model failed_over started (answered generation) generation.usage _ s refl h t
          (λ s p. unfold gets in p)

    module _ (forward : IsMonotonic env) where
      called-Settles :
          (model : Model) (failed_over : Bool) (needed : Duration) (attempt max_tokens now : ℕ)
          (timeout : ℤ) (s : State)
          → Open s
          → Settles (
              (monotonic env >>= λ started.
              call_provider env model max_tokens now timeout >>= λ outcome.
              conclude env model failed_over needed attempt started again outcome)
                s)
      unfolding ◌>>=◌ monotonic call_provider view
      called-Settles model failed_over needed attempt max_tokens now timeout s o =
          conclude-Settles model failed_over needed attempt (env.readings s.world.monotonics)
            (env.vendor s.world.generations) _ (forward s.world.monotonics)
            (record {
              latest = (refl, o.unpaid);
              unsettled = record {
                unmarked = o.unsettled.unmarked;
                untouched = o.unsettled.untouched;
                same_key = o.unsettled.same_key;
                same_client = o.unsettled.same_client;
              };
            })

  module _ (forward : IsMonotonic env) where
    pub rounds-Settles :
        (model : Model) (failed_over : Bool) (left attempt : ℕ) (s : State)
        → Open s
        → Settles (rounds env model failed_over left attempt s)
    unfolding rounds
    rounds-Settles model failed_over zero attempt s o = none-Settles s o
    rounds-Settles model failed_over (suc left) attempt s o =
        let again = rounds env model failed_over left (attempt + 1) in
        bind-Settles _ _ s (Quiet-gets _)
          (λ max_tokens s o.
            bind-Settles _ _ s (Quiet-monotonic env)
              (λ now s o.
                bind-Settles _ _ s (Quiet-gets _)
                  (λ timeout s o.
                    if-Settles (not (within (generation_seconds max_tokens model) timeout)) _ _ s
                      (none-Settles s o)
                      (bind-Settles _ _ s
                        (Quiet-modify_call (λ c. record c { attempts = c.attempts + 1 })
                          (λ c. refl))
                        (λ _ s o.
                          called-Settles again (rounds-Settles model failed_over left (attempt + 1))
                            forward model failed_over (generation_seconds max_tokens model) attempt
                            max_tokens now timeout s o)
                        o))
                  o)
              o)
          o
