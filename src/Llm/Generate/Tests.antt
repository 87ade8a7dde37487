-- ===== src/Llm/Generate/Tests.antt =====
-- Runs of the use case, and its theorems at them.
use holahost.Base.{
  ℕ, inr, ◌==◌, if◌then◌else◌, ◌≡◌, refl, none, some, Option, [], ◌∷◌, Result, ok, err, arith,
  String, any,
}
use holahost.Base.Int.{◌+ℤ◌, ◌-ℤ◌}
use holahost.Base.Dict.{get, put, remove}
use holahost.Base.Text.{is_blank}
use holahost.Llm.Values.{
  make_client_id, make_subject, make_idempotency_key, make_message, make_role, IdempotencyState,
}
use holahost.Llm.Entities.{is_exhausted, make_budget, create_usage_record, same_model}
use holahost.Llm.Estimates.{effective_max_tokens, generation_seconds, estimate_input_tokens}
use holahost.Llm.Registry.{resolve}
use holahost.Llm.Idempotency
use holahost.Llm.Idempotency.{identity_beq}
use holahost.Llm.Generate.{execute, perform, generate, guarded, handle}
use holahost.Llm.Generate.Data.{
  M, State, StorageError, World, GenerateResult, Raised, pure, raise, gets, ◌>>=◌, modify_call,
  modify_world,
}
use holahost.Llm.Generate.Ports.{
  Env, lift, monotonic, wall_now, draw, enter, exit, with_uow, execute_statement, budget_of,
  client_state, provider_state, add_record, insert_row, store_begin, store_complete, store_release,
  current_window_start, sum_window,
}
use holahost.Llm.Generate.Checks.{
  prepare, check_messages, check_max_tokens, check_temperature, check_stop, check_idempotency_key,
}
use holahost.Llm.Generate.Budgets.{
  requested_tokens, remaining, judge, fits, provider_budget, open_to, any_open, open_targets,
  policy_of, check_budgets, apply_budget, usable,
}
use holahost.Llm.Generate.Calls.{
  is_conflict, to_ms, backoff, backoff_time, pause_after, call_provider, settle_key, write,
  write_and_settle, record_usage, spend, note_transient, result_of, sleep, after_transient,
  conclude, rounds, attempt_model, call_candidates, give_up, retry_on_concurrent_update,
}
use holahost.Llm.Generate.Keys.{Finishes, Duplicates, begun, execute_settles, execute_duplicate}
use holahost.Llm.Generate.Deadline.{IsCareful, deadline_of, execute-IsCareful}
use holahost.Llm.Generate.Charges.{PaysOnce, execute-PaysOnce}
use holahost.Llm.Generate.Retries.{after, retry-after}
use holahost.Llm.Generate.Samples.{
  env, world, busy, client, cmd, call, key, sonnet, haiku, overloaded_once,
}

-- The functions that a run computes with.
abbrev run_all : Env → World → Result Raised GenerateResult × World
unfolding execute prepare check_messages check_max_tokens check_temperature check_stop
    check_idempotency_key make_client_id make_subject make_idempotency_key make_message make_role
    is_blank resolve get put remove estimate_input_tokens perform generate guarded handle pure raise
    gets ◌>>=◌ modify_call modify_world lift monotonic wall_now draw enter exit with_uow
    execute_statement budget_of client_state provider_state add_record insert_row store_begin
    store_complete store_release current_window_start sum_window requested_tokens remaining judge
    fits provider_budget open_to any_open open_targets policy_of check_budgets apply_budget usable
    effective_max_tokens generation_seconds is_exhausted make_budget create_usage_record same_model
    any to_ms backoff backoff_time pause_after call_provider settle_key write write_and_settle
    record_usage spend note_transient result_of sleep after_transient conclude rounds attempt_model
    call_candidates give_up retry_on_concurrent_update ◌+ℤ◌ ◌-ℤ◌ Idempotency.begin
    Idempotency.complete Idempotency.release identity_beq
run_all e w = execute e cmd w

answered_text : Result Raised GenerateResult × World → Option String
answered_text (ok r, w) = some r.text
answered_text (err e, w) = none

run_all_answers : answered_text (run_all (env overloaded_once) world) ≡ some "hello"
unfolding run_all answered_text
run_all_answers = refl

execute_settles_example :
    Finishes client key
      (begun (env overloaded_once) client key world)
      (execute (env overloaded_once) cmd world)
unfolding prepare check_messages check_max_tokens check_temperature check_stop check_idempotency_key
    make_client_id make_subject make_idempotency_key make_message make_role is_blank resolve get
    estimate_input_tokens Idempotency.begin
execute_settles_example =
    execute_settles (env overloaded_once) cmd world call sonnet (haiku ∷ []) key (λ i. omega arith)
      refl refl tt refl

execute_duplicate_example :
    Duplicates busy
      (record { state = IdempotencyState.in_flight })
      (begun (env overloaded_once) client key busy)
      (execute (env overloaded_once) cmd busy)
unfolding prepare check_messages check_max_tokens check_temperature check_stop check_idempotency_key
    make_client_id make_subject make_idempotency_key make_message make_role is_blank resolve get
    estimate_input_tokens Idempotency.begin identity_beq
execute_duplicate_example =
    execute_duplicate (env overloaded_once) cmd busy call sonnet (haiku ∷ []) key
      (record { state = IdempotencyState.in_flight }) refl refl refl

execute-IsCareful_example :
    IsCareful (deadline_of (env overloaded_once) world) (execute (env overloaded_once) cmd world).1
execute-IsCareful_example = execute-IsCareful (env overloaded_once) cmd world (refl, tt)

execute-PaysOnce_example :
    let (r, w) = execute (env overloaded_once) cmd world in PaysOnce r w.calls
execute-PaysOnce_example = execute-PaysOnce (env overloaded_once) cmd world (λ i. omega arith) tt

abbrev start : State
start = record { call = call; world = world }

-- Loses a conflict once, then returns.
abbrev flaky : M ℕ
flaky s =
    if s.world.units == 0
    then (
      err (Raised.storage StorageError.concurrent_update),
      record s { world = record s.world { units = 1 } },
    )
    else (ok 7, s)

retry-after_example : retry_on_concurrent_update 2 flaky start ≡ flaky (after flaky 1 start)
unfolding is_conflict after
retry-after_example = retry-after flaky 2 1 start (omega arith) (refl, tt) (inr refl)
