-- ===== src/Llm/Generate.antt =====
-- `GenerateUseCase.execute` and `_generate` (application/use_cases/generate.py). The data is in Data,
-- what lies behind the ports in Ports, the checks of the command in Checks, `_judge` and the budget
-- checks in Budgets, and the provider calls with their accounting in Calls.
pub mod Data
pub mod Ports
pub mod Checks
pub mod Budgets
pub mod Calls
pub mod Quiet
pub mod Phases
pub mod Settlement
pub mod Payment
pub mod Attempts
pub mod Deadline
pub mod Charges
pub mod Retries
pub mod Keys
pub mod Samples
mod Tests
use holahost.Base.{
  ℕ, ◌+◌, Bool, true, false, Option, none, some, List, [], ◌∷◌, Result, ok, err, if◌then◌else◌,
}
use holahost.Llm.Values.{IdempotencyKey}
use holahost.Llm.Entities.{Model}
use holahost.Llm.Generate.Data.{
  M, State, World, Call, Raised, GenerateCmd, GenerateResult, pure, raise, gets, ◌>>=◌, ◌>>◌,
}
use holahost.Llm.Generate.Ports.{Env, store_begin, store_release}
use holahost.Llm.Generate.Checks.{prepare, Checked}
use holahost.Llm.Generate.Budgets.{judge, apply_budget}
use holahost.Llm.Generate.Calls.{call_candidates}

module _ (env : Env) where
  -- `_generate`
  unfoldable pub generate : Model → List Model → M GenerateResult
  generate first others = do
    judge env first
    candidates ← apply_budget env first others
    call_candidates env 0 candidates

  abbrev pub reraise : Raised → Result Raised (Unit {0}) → Result Raised GenerateResult
  reraise e (ok _) = err e
  reraise e (err e') = err e'

  -- `except Exception: if not call.key_settled: …release…; raise`
  unfoldable pub handle : IdempotencyKey → Result Raised GenerateResult → M GenerateResult
  handle key (ok answer) s = (ok answer, s)
  handle key (err e) s =
      if s.call.key_settled
      then (err e, s)
      else let (r, s') = store_release env s.call.client_id key s in (reraise e r, s')

  unfoldable pub guarded : IdempotencyKey → M GenerateResult → M GenerateResult
  guarded key m s = let (r, s') = m s in handle key r s'

  abbrev pub keyed : Model → List Model → Call → Option IdempotencyKey → M GenerateResult
  keyed first others call none = generate first others
  keyed first others call (some key) = do
    store_begin env call.client_id key
    guarded key (generate first others)

  -- `execute` from the `_Call` on
  unfoldable pub perform : Model → List Model → M GenerateResult
  perform first others = do call ← gets (λ s. s.call); keyed first others call call.key

  abbrev pub performing :
      World → Checked (Call × Model × List Model) → Result Raised GenerateResult × World
  performing w (err e) = (err e, w)
  performing w (ok (call, first, others)) =
      let (r, s) = perform first others (record { call = call; world = w }) in (r, s.world)

  -- `execute`
  unfoldable pub execute : GenerateCmd → World → Result Raised GenerateResult × World
  execute cmd w =
      performing (record w { monotonics = w.monotonics + 1 })
        (prepare env.repo cmd (env.readings w.monotonics))
