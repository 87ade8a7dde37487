-- ===== src/Llm/Generate/Deadline.antt =====
-- From the candidates to the end of `execute`: what every provider call satisfies.
use holahost.Base.{
  ℕ, ◌+◌, ◌≡◌, refl, Bool, true, false, Option, none, some, List, [], ◌∷◌, Result, ok, err, not,
  ltb, if◌then◌else◌, All,
}
use holahost.Llm.Values.{ClientId, IdempotencyKey}
use holahost.Llm.Entities.{Model}
use holahost.Llm.Estimates.{retry_total_budget, retry_max_attempts}
use holahost.Llm.Idempotency
use holahost.Llm.Idempotency.{DuplicateRequestError}
use holahost.Llm.Generate.{generate, handle, guarded, keyed, perform, performing, execute, reraise}
use holahost.Llm.Generate.Data.{
  M, State, World, Call, Rejection, Raised, GenerateCmd, GenerateResult, ◌>>=◌, modify_world,
}
use holahost.Llm.Generate.Ports.{Env, wall_now, store_begin, store_release, began}
use holahost.Llm.Generate.Checks.{prepare, Checked}
use holahost.Llm.Generate.Calls.{
  attempt_model, call_candidates, give_up, rejected_or_slow, answer_or,
}
use holahost.Llm.Generate.Quiet.{
  view, Quiet-pure, Quiet-raise, Quiet-gets, Quiet-remaining, Quiet-judge, Quiet-apply_budget,
  Quiet-usable, Quiet-wall_now,
}
use holahost.Llm.Generate.Keys.{prepare_fresh}
use holahost.Llm.Generate.Attempts.{
  IsSound, Sound, Keeps, Quiet-Keeps, if-Keeps, bind-Keeps, then-Keeps, rounds-Keeps,
}

module _ (env : Env) (deadline : ℕ) where
  rejected_or_slow-Keeps :
      (c : Call) (o : Option Rejection) → Keeps env deadline (rejected_or_slow env c o)
  rejected_or_slow-Keeps c (some rejection) = Quiet-Keeps env deadline _ (Quiet-raise _)
  rejected_or_slow-Keeps c none =
      then-Keeps env deadline _ _ (Quiet-remaining env)
        (λ left. Quiet-Keeps env deadline _ (Quiet-raise _))

  give_up-Keeps : Keeps env deadline (give_up env)
  unfolding give_up
  give_up-Keeps = then-Keeps env deadline _ _ (Quiet-gets _) (λ c.
      if-Keeps env deadline (ltb 0 c.transient_failures) _ _
        (Quiet-Keeps env deadline _ (Quiet-raise _)) (rejected_or_slow-Keeps c c.rejection))

  answer_or-Keeps :
      (next : M GenerateResult) (o : Option GenerateResult)
      → Keeps env deadline next
      → Keeps env deadline (answer_or env next o)
  answer_or-Keeps next (some answer) k = Quiet-Keeps env deadline _ (Quiet-pure answer)
  answer_or-Keeps next none k = k

  attempt_model-Keeps :
      (model : Model) (failed_over : Bool)
      → Keeps env deadline (attempt_model env model failed_over)
  unfolding attempt_model
  attempt_model-Keeps model failed_over =
      rounds-Keeps env deadline model failed_over retry_max_attempts 1

  call_candidates-Keeps :
      (index : ℕ) (models : List Model) → Keeps env deadline (call_candidates env index models)
  unfolding call_candidates
  call_candidates-Keeps index [] s h = give_up-Keeps s h
  call_candidates-Keeps index (model ∷ models) s h =
      let next-Keeps = call_candidates-Keeps (index + 1) models in
      then-Keeps env deadline _ _ (Quiet-usable env model)
        (λ able. if-Keeps env deadline (not able) _ _ next-Keeps (
          bind-Keeps env deadline _ _ (attempt_model-Keeps model (ltb 0 index))
            (λ o. answer_or-Keeps _ o next-Keeps)))
        s h

  generate-Keeps :
      (first : Model) (others : List Model) → Keeps env deadline (generate env first others)
  unfolding generate
  generate-Keeps first others = then-Keeps env deadline _ _ (Quiet-judge env first) (λ _.
      then-Keeps env deadline _ _ (Quiet-apply_budget env first others)
        (λ candidates. call_candidates-Keeps 0 candidates))

  either-Sound :
      {A : Type 0} (b : Bool) (x y : Result Raised A × State)
      → Sound env deadline x.1
      → Sound env deadline y.1
      → Sound env deadline (if b then x else y).1
  either-Sound true x y h k = h
  either-Sound false x y h k = k

  handle-Keeps :
      (key : IdempotencyKey) (r : Result Raised GenerateResult)
      → Keeps env deadline (handle env key r)
  unfolding handle view store_release wall_now modify_world ◌>>=◌
  handle-Keeps key (ok answer) s h = h
  handle-Keeps key (err e) s h =
      either-Sound s.call.key_settled (err e, s)
        (let (r, s') = store_release env s.call.client_id key s in (reraise env e r, s')) h
        (record { closed = h.closed; until = h.until; calls = h.calls })

  guarded-Keeps :
      (key : IdempotencyKey) (m : M GenerateResult)
      → Keeps env deadline m
      → Keeps env deadline (guarded env key m)
  unfolding guarded
  guarded-Keeps key m k s h = let (r, s') = m s in handle-Keeps key r s' (k s h)

  began-Keeps : (r : Result DuplicateRequestError (Unit {0})) → Keeps env deadline (began env r)
  began-Keeps (ok _) s h = h
  began-Keeps (err e) s h = h

  store_begin-Keeps :
      (client_id : ClientId) (key : IdempotencyKey)
      → Keeps env deadline (store_begin env client_id key)
  unfolding store_begin view
  store_begin-Keeps client_id key = then-Keeps env deadline _ _ (Quiet-wall_now env) (λ now s h.
      let (r, store) = Idempotency.begin client_id key now s.world.store in
      began-Keeps r (record s { world = record s.world { store = store } })
        (record { closed = h.closed; until = h.until; calls = h.calls }))

  keyed-Keeps :
      (first : Model) (others : List Model) (call : Call) (o : Option IdempotencyKey)
      → Keeps env deadline (keyed env first others call o)
  keyed-Keeps first others call none = generate-Keeps first others
  keyed-Keeps first others call (some key) =
      bind-Keeps env deadline _ _ (store_begin-Keeps call.client_id key)
        (λ _. guarded-Keeps key _ (generate-Keeps first others))

  perform-Keeps :
      (first : Model) (others : List Model) → Keeps env deadline (perform env first others)
  unfolding perform
  perform-Keeps first others =
      then-Keeps env deadline _ _ (Quiet-gets _) (λ call. keyed-Keeps first others call call.key)

-- The deadline of an execution that starts now.
abbrev pub deadline_of : Env → World → ℕ
deadline_of env w = env.readings w.monotonics + retry_total_budget

-- The provider calls that a world has seen are sound, and no transaction is open.
abbrev pub IsCareful : ℕ → World → Type 0
IsCareful deadline w = (w.in_transaction ≡ false) × All (IsSound deadline) w.calls

-- The `_Call` that the checks made has the deadline.
abbrev IsUntil : ℕ → Checked (Call × Model × List Model) → Type 0
IsUntil deadline (err e) = Unit
IsUntil deadline (ok (call, first, others)) = call.deadline ≡ deadline

IsUntil-ok :
    (deadline : ℕ) (r : Checked (Call × Model × List Model))
    → ((call : Call) (first : Model) (others : List Model)
        → r ≡ ok (call, first, others)
        → call.deadline ≡ deadline)
    → IsUntil deadline r
IsUntil-ok deadline (err e) h = tt
IsUntil-ok deadline (ok (call, first, others)) h = h call first others refl

prepare-IsUntil :
    (env : Env) (cmd : GenerateCmd) (now : ℕ)
    → IsUntil (now + retry_total_budget) (prepare env.repo cmd now)
prepare-IsUntil env cmd now =
    IsUntil-ok (now + retry_total_budget) (prepare env.repo cmd now)
      (λ call first others e. (prepare_fresh env cmd now call first others e).1)

performing-IsCareful :
    (env : Env) (deadline : ℕ) (w : World) (r : Checked (Call × Model × List Model))
    → IsUntil deadline r
    → IsCareful deadline w
    → IsCareful deadline (performing env w r).1
unfolding view
performing-IsCareful env deadline w (err e) k h = h
performing-IsCareful env deadline w (ok (call, first, others)) k h =
    let sound =
      perform-Keeps env deadline first others (record { call = call; world = w })
        (record { closed = h.0; until = k; calls = h.1 }) in
    (sound.closed, sound.calls)

-- From a world whose calls so far are so and with no transaction open, every provider call of an
-- execution, whatever its command and its end, is made with no transaction
-- open, asks for no more than the service and the model allow, and is made only when a full answer
-- fits both the timeout of a call and the time left until the deadline of the execution. And the
-- execution leaves no transaction open.
pub execute-IsCareful :
    (env : Env) (cmd : GenerateCmd) (w : World)
    → IsCareful (deadline_of env w) w
    → IsCareful (deadline_of env w) (execute env cmd w).1
unfolding execute
execute-IsCareful env cmd w h =
    performing-IsCareful env (deadline_of env w) (record w { monotonics = w.monotonics + 1 })
      (prepare env.repo cmd (env.readings w.monotonics))
      (prepare-IsUntil env cmd (env.readings w.monotonics)) h
