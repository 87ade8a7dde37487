-- ===== src/Llm/Generate/Quiet.antt =====
-- Actions that make no provider call and settle no key: reading clocks and budgets, writing rows. They
-- leave the calls made, the store and the key of the `_Call` as they are, and no transaction
-- open that was not.
use holahost.Base.{
  ◌≡◌, refl, ◌∙◌, Bool, true, false, Option, none, some, List, [], ◌∷◌, Result, ok, err, arith, any,
  if◌then◌else◌,
}
use holahost.Base.Int.{pos}
use holahost.Llm.Values.{provider_name_eq, Valid, ClientId, ProviderName, BudgetScope, BudgetPolicy}
use holahost.Llm.Entities.{same_model, Model, Budget, BudgetKey, UsageRecord}
use holahost.Llm.Idempotency.{InMemoryIdempotencyStore}
use holahost.Llm.Generate.Data.{
  M, State, Call, Attempt, Raised, pure, raise, gets, continue, ◌>>=◌, modify_call, modify_world,
}
use holahost.Llm.Generate.Ports.{
  Env, lift, monotonic, wall_now, draw, enter, exit, with_uow, closing, execute_statement,
  budget_of, client_state, provider_state, add_record, insert_row,
}
use holahost.Llm.Generate.Budgets.{
  remaining, judge, fits, provider_budget, open_to, any_open, open_targets, downgrade,
  check_budgets, apply_budget, usable, unless_empty, chosen, found_or_open, found_or_read,
}

-- What quiet actions keep; of the call, neither the budgets read nor the downgrade nor the counters.
pub record View : Type 0 where
  pub calls : List Attempt
  pub store : InMemoryIdempotencyStore
  pub rest : Call

abbrev pub core : Call → Call
core c = record c {
  provider_budgets = [];
  downgraded = false;
  attempts = 0;
  provider_time = pos 0;
  transient_failures = 0;
  provider_timeouts = 0;
  last_transient_status = none;
  rejection = none;
}

unfoldable pub view : State → View
view s = record { calls = s.world.calls; store = s.world.store; rest = core s.call }

pub record Quiet {A : Type 0} (m : M A) : Type 0 where
  pub same : (s : State) → view (m s).1 ≡ view s
  pub closed : (s : State) → s.world.in_transaction ≡ false → (m s).1.world.in_transaction ≡ false

module _ {A : Type 0} where
  pub Quiet-pure : (a : A) → Quiet (pure a)
  unfolding pure
  Quiet-pure a = record { same = λ s. refl; closed = λ s h. h }

  pub Quiet-raise : (e : Raised) → Quiet (raise {A = A} e)
  unfolding raise
  Quiet-raise e = record { same = λ s. refl; closed = λ s h. h }

  pub Quiet-gets : (f : State → A) → Quiet (gets f)
  unfolding gets
  Quiet-gets f = record { same = λ s. refl; closed = λ s h. h }

  pub Quiet-lift : (r : Valid A) → Quiet (lift r)
  unfolding lift
  Quiet-lift (ok a) = record { same = λ s. refl; closed = λ s h. h }
  Quiet-lift (err e) = record { same = λ s. refl; closed = λ s h. h }

  pub Quiet-if : (b : Bool) (m n : M A) → Quiet m → Quiet n → Quiet (if b then m else n)
  Quiet-if true m n km kn = km
  Quiet-if false m n km kn = kn

module _ {A B : Type 0} where
  continue-view :
      (r : Result Raised A) (f : A → M B) (s : State)
      → ((a : A) → Quiet (f a))
      → view (continue r f s).1 ≡ view s
  continue-view (ok a) f s q = (q a).same s
  continue-view (err e) f s q = refl

  continue-closed :
      (r : Result Raised A) (f : A → M B) (s : State)
      → ((a : A) → Quiet (f a))
      → s.world.in_transaction ≡ false
      → (continue r f s).1.world.in_transaction ≡ false
  continue-closed (ok a) f s q h = (q a).closed s h
  continue-closed (err e) f s q h = h

  pub Quiet-bind : (m : M A) (f : A → M B) → Quiet m → ((a : A) → Quiet (f a)) → Quiet (m >>= f)
  unfolding ◌>>=◌
  Quiet-bind m f qm qf = record {
    same = λ s. let (r, s') = m s in continue-view r f s' qf ∙ qm.same s;
    closed = λ s h. let (r, s') = m s in continue-closed r f s' qf (qm.closed s h);
  }

pub Quiet-modify_call :
    (f : Call → Call) → ((c : Call) → core (f c) ≡ core c) → Quiet (modify_call f)
unfolding modify_call view
Quiet-modify_call f h = record {
  same = λ s i. record { calls = s.world.calls; store = s.world.store; rest = h s.call i };
  closed = λ s k. k;
}

ruleset quiet_rules = (Quiet-pure, Quiet-raise, Quiet-gets, Quiet-lift, Quiet-if, Quiet-bind)

Quiet-insert : (row : UsageRecord) → Quiet (modify_world (insert_row row))
unfolding modify_world insert_row view
Quiet-insert row = record { same = λ s. ground arith; closed = λ s h. ground arith }

module _ (env : Env) where
  pub Quiet-monotonic : Quiet (monotonic env)
  unfolding monotonic view
  Quiet-monotonic = record { same = λ s. refl; closed = λ s h. h }

  pub Quiet-wall_now : Quiet (wall_now env)
  unfolding wall_now view
  Quiet-wall_now = record { same = λ s. refl; closed = λ s h. h }

  pub Quiet-draw : Quiet (draw env)
  unfolding draw view
  Quiet-draw = record { same = λ s. refl; closed = λ s h. h }

  Quiet-execute_statement : Quiet (execute_statement env)
  unfolding execute_statement view
  Quiet-execute_statement = record { same = λ s. ground arith; closed = λ s h. ground arith }

  pub view-enter : (s : State) → view (enter env s).1 ≡ view s
  unfolding enter view
  view-enter s = ground arith

  view-exit : {A : Type 0} (r : Result Raised A) (s : State) → view (exit env r s).1 ≡ view s
  unfolding exit view
  view-exit (ok a) s = ground arith
  view-exit (err e) s = ground arith

  -- Leaving always closes.
  pub exit-closed :
      {A : Type 0} (r : Result Raised A) (s : State) → (exit env r s).1.world.in_transaction ≡ false
  unfolding exit
  exit-closed (ok a) s = ground arith
  exit-closed (err e) s = ground arith

  closing-view :
      {A : Type 0} (r : Result Raised (Unit {0})) (m : M A) (s : State)
      → Quiet m
      → view (closing env r m s).1 ≡ view s
  closing-view (ok _) m s q = let (r, s') = m s in view-exit r s' ∙ q.same s
  closing-view (err e) m s q = refl

  closing-closed :
      {A : Type 0} (r : Result Raised (Unit {0})) (m : M A) (s : State)
      → ((e : Raised) → r ≡ err e → s.world.in_transaction ≡ false)
      → (closing env r m s).1.world.in_transaction ≡ false
  closing-closed (ok _) m s h = let (r, s') = m s in exit-closed r s'
  closing-closed (err e) m s h = h e refl

  enter-refused :
      (s : State) (e : Raised)
      → s.world.in_transaction ≡ false
      → (enter env s).0 ≡ err e
      → (enter env s).1.world.in_transaction ≡ false
  unfolding enter
  enter-refused s e h r = ground arith

  pub Quiet-with_uow : {A : Type 0} (m : M A) → Quiet m → Quiet (with_uow env m)
  unfolding with_uow
  Quiet-with_uow m q = record {
    same = λ s. let (r, s') = enter env s in closing-view r m s' q ∙ view-enter s;
    closed = λ s h. let (r, s') = enter env s in closing-closed r m s' (λ e. enter-refused s e h);
  }

  pub Quiet-add_record : (row : UsageRecord) → Quiet (add_record env row)
  unfolding add_record
  Quiet-add_record row =
      Quiet-bind (execute_statement env) _ Quiet-execute_statement (λ _. Quiet-insert row)

  Quiet-budget_of : (scope : BudgetScope) (key : BudgetKey) → Quiet (budget_of env scope key)
  unfolding budget_of
  Quiet-budget_of scope key = search (quiet_rules, Quiet-wall_now, Quiet-execute_statement)

  Quiet-client_state :
      (scope : BudgetScope) (client_id : ClientId) → Quiet (client_state env scope client_id)
  unfolding client_state
  Quiet-client_state scope client_id = Quiet-budget_of scope _

  Quiet-provider_state : (provider : ProviderName) → Quiet (provider_state env provider)
  unfolding provider_state
  Quiet-provider_state provider = Quiet-budget_of _ _

  pub Quiet-remaining : Quiet (remaining env)
  unfolding remaining
  Quiet-remaining = search (quiet_rules, Quiet-monotonic)

  pub Quiet-judge : (model : Model) → Quiet (judge env model)
  unfolding judge
  Quiet-judge model = search (quiet_rules, Quiet-remaining) depth 8

  Quiet-fits : (model : Model) → Quiet (fits env model)
  unfolding fits
  Quiet-fits model = search (quiet_rules, Quiet-remaining) depth 8

  Quiet-found_or_read :
      (provider : ProviderName) (o : Option Budget) → Quiet (found_or_read env provider o)
  Quiet-found_or_read provider (some budget) = Quiet-pure budget
  Quiet-found_or_read provider none =
      Quiet-bind _ _ (Quiet-provider_state provider)
        (λ budget. Quiet-bind _ _ (Quiet-modify_call _ (λ c. refl)) (λ _. Quiet-pure budget))

  Quiet-provider_budget : (provider : ProviderName) → Quiet (provider_budget env provider)
  unfolding provider_budget
  Quiet-provider_budget provider =
      Quiet-bind _ _ (Quiet-gets _) (λ o. Quiet-found_or_read provider o)

  Quiet-open_to : (model : Model) → Quiet (open_to env model)
  unfolding open_to
  Quiet-open_to model = search (quiet_rules, Quiet-fits, Quiet-provider_budget) depth 8

  Quiet-any_open : (models : List Model) → Quiet (any_open env models)
  unfolding any_open
  Quiet-any_open [] = Quiet-pure false
  Quiet-any_open (model ∷ models) =
      Quiet-bind _ _ (Quiet-open_to model)
        (λ b. Quiet-if b _ _ (Quiet-pure true) (Quiet-any_open models))

  Quiet-open_targets :
      (candidates targets : List Model) → Quiet (open_targets env candidates targets)
  unfolding open_targets
  Quiet-open_targets candidates [] = Quiet-pure []
  Quiet-open_targets candidates (target ∷ targets) =
      let rest = Quiet-open_targets candidates targets in
      Quiet-if (any (same_model target) candidates) _ _ rest (
        Quiet-bind _ _ (Quiet-open_to target)
          (λ usable. Quiet-bind _ _ rest (λ kept. Quiet-pure _)))

  Quiet-unless_empty :
      (budget : Budget) (targets : List Model) → Quiet (unless_empty env budget targets)
  Quiet-unless_empty budget [] = Quiet-raise _
  Quiet-unless_empty budget (target ∷ targets) = Quiet-pure _

  Quiet-downgrade :
      (candidates : List Model) (client_id : ClientId) (budget : Budget) (policy : BudgetPolicy)
      → Quiet (downgrade env candidates client_id budget policy)
  Quiet-downgrade candidates client_id budget BudgetPolicy.reject = Quiet-raise _
  Quiet-downgrade candidates client_id budget BudgetPolicy.downgrade =
      search (quiet_rules, Quiet-client_state, Quiet-open_targets, Quiet-unless_empty) depth 9

  Quiet-check_budgets :
      (first : Model) (others : List Model) → Quiet (check_budgets env first others)
  unfolding check_budgets
  Quiet-check_budgets first others =
      search
        (quiet_rules, Quiet-provider_budget, Quiet-any_open, Quiet-client_state, Quiet-downgrade)
        depth 10

  Quiet-chosen :
      (candidates : List Model) (targets : Option (List Model))
      → Quiet (chosen env candidates targets)
  Quiet-chosen candidates none = Quiet-pure _
  Quiet-chosen candidates (some models) =
      Quiet-bind _ _ (Quiet-modify_call _ (λ c. refl)) (λ _. Quiet-pure _)

  pub Quiet-apply_budget :
      (first : Model) (others : List Model) → Quiet (apply_budget env first others)
  unfolding apply_budget
  Quiet-apply_budget first others =
      Quiet-bind _ _ (Quiet-with_uow _ (Quiet-check_budgets first others)) (Quiet-chosen _)

  Quiet-found_or_open :
      (provider : ProviderName) (o : Option Budget) → Quiet (found_or_open env provider o)
  Quiet-found_or_open provider (some budget) = Quiet-pure budget
  Quiet-found_or_open provider none = Quiet-with_uow _ (Quiet-provider_budget provider)

  pub Quiet-usable : (model : Model) → Quiet (usable env model)
  unfolding usable
  Quiet-usable model = search (quiet_rules, Quiet-fits, Quiet-found_or_open) depth 9
