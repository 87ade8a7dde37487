-- ===== src/Llm/Generate/Budgets.antt =====
-- `_judge`, `_fits`, `_usable`, `_provider_budget` and `_apply_budget`.
use holahost.Base.{
  ℕ, ◌+◌, Bool, true, false, Option, none, some, List, [], ◌∷◌, ltb, not, any, if◌then◌else◌,
}
use holahost.Base.Int.{ℤ, pos, pos_part, sub_ℕ, min_ℤ, max_ℤ}
use holahost.Base.Dict.{get, put}
use holahost.Llm.Values.{
  ClientId, ProviderName, BudgetPolicy, BudgetScope, client_id_eq, provider_name_eq,
}
use holahost.Llm.Entities.{Model, Budget, is_exhausted, resets_at, same_model}
use holahost.Llm.Registry.{downgrade_targets}
use holahost.Llm.Estimates.{
  effective_max_tokens, generation_seconds, within, max_tokens_within, provider_timeout,
}
use holahost.Llm.Generate.Data.{
  M, State, Raised, context_overflow, request_too_slow, budget_exhausted, pure, raise, gets, ◌>>=◌,
  ◌>>◌, modify_call,
}
use holahost.Llm.Generate.Ports.{Env, monotonic, with_uow, client_state, provider_state}

-- `min(remaining, PROVIDER_TIMEOUT_SECONDS)`
abbrev pub attempt_budget : ℤ → ℤ
attempt_budget remaining = min_ℤ remaining (pos provider_timeout)

-- `_too_slow`
unfoldable pub too_slow : Model → ℤ → Raised
too_slow model remaining =
    let seconds = pos_part (max_ℤ (attempt_budget remaining) (pos 0)) in
    request_too_slow (max_tokens_within seconds model) seconds

-- `_exhausted`
unfoldable pub exhausted : Budget → Raised
exhausted budget = budget_exhausted budget.scope (resets_at budget)

unfoldable pub requested_tokens : Model → State → ℕ
requested_tokens model s = effective_max_tokens s.call.max_tokens model

module _ (env : Env) where
  -- `_remaining`
  unfoldable pub remaining : M ℤ
  remaining = do now ← monotonic env; gets (λ s. sub_ℕ s.call.deadline now)

  -- `_judge`
  unfoldable pub judge : Model → M (Unit {0})
  judge model = do
    max_tokens ← gets (requested_tokens model)
    estimated ← gets (λ s. s.call.input_tokens + max_tokens)
    if ltb model.max_context estimated
        then raise (context_overflow model.max_context estimated)
        else (do
          left ← remaining
          if not (within (generation_seconds max_tokens model) (attempt_budget left))
              then raise (too_slow model left)
              else pure tt)

  -- `_fits`
  unfoldable pub fits : Model → M Bool
  fits model = do
    max_tokens ← gets (requested_tokens model)
    input ← gets (λ s. s.call.input_tokens)
    if ltb model.max_context (input + max_tokens) then pure false else (do
      left ← remaining
      pure (within (generation_seconds max_tokens model) (attempt_budget left)))

  abbrev pub found_or_read : ProviderName → Option Budget → M Budget
  found_or_read provider (some budget) = pure budget
  found_or_read provider none = do
    budget ← provider_state env provider
    modify_call (λ c. record c { provider_budgets = put provider budget c.provider_budgets })
    pure budget

  -- `_provider_budget`
  unfoldable pub provider_budget : ProviderName → M Budget
  provider_budget provider = do
    found ← gets (λ s. get provider s.call.provider_budgets)
    found_or_read provider found

  -- `_fits(…) and not _provider_budget(…).is_exhausted`
  unfoldable pub open_to : Model → M Bool
  open_to model = do
    fit ← fits model
    if fit
        then (do budget ← provider_budget model.provider.name; pure (not (is_exhausted budget)))
        else pure false

  -- `any(… for model in candidates[1:])`
  unfoldable pub any_open : List Model → M Bool
  any_open [] = pure false
  any_open (model ∷ models) =
      let rest = any_open models in do usable ← open_to model; if usable then pure true else rest

  -- The comprehension of the downgrade targets.
  unfoldable pub open_targets : List Model → List Model → M (List Model)
  open_targets candidates [] = pure []
  open_targets candidates (target ∷ targets) =
      let rest = open_targets candidates targets in
      if any (same_model target) candidates
      then rest
      else (do usable ← open_to target; kept ← rest; pure (if usable then target ∷ kept else kept))

  unfoldable pub policy_of : ClientId → BudgetPolicy
  unfolding get
  policy_of client_id = elim (get client_id env.budget_policy_overrides) [
    | some policy ↦ policy
    | none ↦ env.default_budget_policy
  ]

  abbrev pub unless_empty : Budget → List Model → M (Option (List Model))
  unless_empty client_budget [] = raise (exhausted client_budget)
  unless_empty client_budget (target ∷ targets) = pure (some (target ∷ targets))

  -- The client's own budget is exhausted: its policy refuses or downgrades.
  abbrev pub downgrade : List Model → ClientId → Budget → BudgetPolicy → M (Option (List Model))
  downgrade candidates client_id client_budget BudgetPolicy.reject = raise (exhausted client_budget)
  downgrade candidates client_id client_budget BudgetPolicy.downgrade = do
    pool ← client_state env BudgetScope.client_downgrade client_id
    if is_exhausted pool then raise (exhausted pool) else (do
      targets ← open_targets candidates (downgrade_targets env.repo)
      unless_empty client_budget targets)

  -- The body of the transaction of `_apply_budget`: `none` for the candidates as they are, or the
  -- downgrade targets.
  unfoldable pub check_budgets : Model → List Model → M (Option (List Model))
  check_budgets first others = do
    budget ← provider_budget first.provider.name
    rescued ← (if is_exhausted budget then any_open others else pure true)
    if not rescued then raise (exhausted budget) else (do
      client_id ← gets (λ s. s.call.client_id)
      client_budget ← client_state env BudgetScope.client client_id
      if not (is_exhausted client_budget)
          then pure none
          else downgrade (first ∷ others) client_id client_budget (policy_of client_id))

  abbrev pub chosen : List Model → Option (List Model) → M (List Model)
  chosen candidates none = pure candidates
  chosen candidates (some models) = do
    modify_call (λ c. record c { downgraded = true })
    pure models

  -- `_apply_budget`
  unfoldable pub apply_budget : Model → List Model → M (List Model)
  apply_budget first others = do
    targets ← with_uow env (check_budgets first others)
    chosen (first ∷ others) targets

  abbrev pub found_or_open : ProviderName → Option Budget → M Budget
  found_or_open provider (some budget) = pure budget
  found_or_open provider none = with_uow env (provider_budget provider)

  -- `_usable`
  unfoldable pub usable : Model → M Bool
  usable model = do
    fit ← fits model
    if not fit then pure false else (do
      found ← gets (λ s. get model.provider.name s.call.provider_budgets)
      budget ← found_or_open model.provider.name found
      pure (not (is_exhausted budget)))
