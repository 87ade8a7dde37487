-- ===== src/Llm/Generate/Payment.antt =====
-- From the candidates to the end of `execute`: at most one charge, and what becomes of the key.
use holahost.Base.{
  ℕ, ◌+◌, ◌⊎◌, inl, Bool, true, false, Option, none, some, List, [], ◌∷◌, Result, ok, err, not, ltb,
  if◌then◌else◌,
}
use holahost.Llm.Values.{ClientId, IdempotencyKey}
use holahost.Llm.Entities.{Model}
use holahost.Llm.Estimates.{retry_max_attempts}
use holahost.Llm.Idempotency.{InMemoryIdempotencyStore}
use holahost.Llm.Generate.{generate}
use holahost.Llm.Generate.Data.{
  M, State, Call, Rejection, Raised, GenerateResult, pure, raise, continue, ◌>>=◌,
}
use holahost.Llm.Generate.Ports.{Env}
use holahost.Llm.Generate.Calls.{
  rounds, attempt_model, call_candidates, give_up, rejected_or_slow, answer_or,
}
use holahost.Llm.Generate.Quiet.{
  Quiet, Quiet-gets, Quiet-remaining, Quiet-judge, Quiet-apply_budget, Quiet-usable,
}
use holahost.Llm.Generate.Settlement.{IsMonotonic, Open, Settled, Settles, rounds-Settles}

module _ (env : Env) (key : Option IdempotencyKey) (client_id : ClientId)
    (store : InMemoryIdempotencyStore) where
  -- How the calls of the candidates end: an answer is paid and settled, and an error is either free
  -- or paid and settled.
  abbrev pub Answers : Result Raised GenerateResult × State → Type 0
  Answers (ok _, s) = Settled env key client_id store s
  Answers (err _, s) = Open env key client_id store s ⊎ Settled env key client_id store s

  continue-Answers :
      {A : Type 0} (r : Result Raised A) (f : A → M GenerateResult) (s : State)
      → ((a : A) (s : State) → Open env key client_id store s → Answers (f a s))
      → Open env key client_id store s
      → Answers (continue r f s)
  continue-Answers (ok a) f s h o = h a s o
  continue-Answers (err e) f s h o = inl o

  bind-Answers :
      {A : Type 0} (m : M A) (f : A → M GenerateResult) (s : State)
      → Quiet m
      → ((a : A) (s : State) → Open env key client_id store s → Answers (f a s))
      → Open env key client_id store s
      → Answers ((m >>= f) s)
  unfolding ◌>>=◌
  bind-Answers m f s q h o = let (r, s') = m s in continue-Answers r f s' h (rw (q.same s) o)

  if-Answers :
      (b : Bool) (m n : M GenerateResult) (s : State)
      → Answers (m s)
      → Answers (n s)
      → Answers ((if b then m else n) s)
  if-Answers true m n s h k = h
  if-Answers false m n s h k = k

  raise-Answers : (e : Raised) (s : State) → Open env key client_id store s → Answers (raise e s)
  unfolding raise
  raise-Answers e s o = inl o

  rejected_or_slow-Answers :
      (c : Call) (o : Option Rejection) (s : State)
      → Open env key client_id store s
      → Answers (rejected_or_slow env c o s)
  rejected_or_slow-Answers c (some rejection) s o = raise-Answers _ s o
  rejected_or_slow-Answers c none s o =
      bind-Answers _ _ s (Quiet-remaining env) (λ left. raise-Answers _) o

  give_up-Answers : (s : State) → Open env key client_id store s → Answers (give_up env s)
  unfolding give_up
  give_up-Answers s o =
      bind-Answers _ _ s (Quiet-gets _)
        (λ c s o.
          if-Answers (ltb 0 c.transient_failures) _ _ s (raise-Answers _ s o)
            (rejected_or_slow-Answers c c.rejection s o))
        o

  module _ (next : M GenerateResult)
      (next-Answers : (s : State) → Open env key client_id store s → Answers (next s)) where
    answered-Answers :
        (r : Result Raised (Option GenerateResult)) (s : State)
        → Settles env key client_id store (r, s)
        → Answers (continue r (answer_or env next) s)
    unfolding pure
    answered-Answers (ok none) s h = next-Answers s h
    answered-Answers (ok (some answer)) s h = h
    answered-Answers (err e) s h = h

    attempted-Answers :
        (forward : IsMonotonic env) (model : Model) (failed_over : Bool) (s : State)
        → Open env key client_id store s
        → Answers ((attempt_model env model failed_over >>= λ result. answer_or env next result) s)
    unfolding attempt_model ◌>>=◌
    attempted-Answers forward model failed_over s o =
        let (r, s') = rounds env model failed_over retry_max_attempts 1 s in
        answered-Answers r s' (
          rounds-Settles env key client_id store forward model failed_over retry_max_attempts 1 s o)

  module _ (forward : IsMonotonic env) where
    call_candidates-Answers :
        (index : ℕ) (models : List Model) (s : State)
        → Open env key client_id store s
        → Answers (call_candidates env index models s)
    unfolding call_candidates
    call_candidates-Answers index [] s o = give_up-Answers s o
    call_candidates-Answers index (model ∷ models) s o =
        let next = call_candidates env (index + 1) models in
        let next-Answers = call_candidates-Answers (index + 1) models in
        bind-Answers _ _ s (Quiet-usable env model)
          (λ able s o.
            if-Answers (not able) _ _ s (next-Answers s o)
              (attempted-Answers next next-Answers forward model (ltb 0 index) s o))
          o

    pub generate-Answers :
        (first : Model) (others : List Model) (s : State)
        → Open env key client_id store s
        → Answers (generate env first others s)
    unfolding generate
    generate-Answers first others s o =
        bind-Answers _ _ s (Quiet-judge env first)
          (λ _ s o.
            bind-Answers _ _ s (Quiet-apply_budget env first others)
              (λ candidates. call_candidates-Answers 0 candidates) o)
          o
