-- ===== src/Llm/Generate/Ports.antt =====
-- What the use case reaches through its ports: the clocks, the unit of work
-- (libs/holahost-db/holahost_db/uow.py), the budget repository and the usage log
-- (infrastructure/db), the idempotency store. The database, the clocks and the providers are not of
-- this program: an environment answers for them, one answer for each time that it is asked.
use holahost.Base.{
  ℕ, ◌+◌, ◌-◌, ◌%◌, Bool, true, false, ◌&&◌, Option, none, some, List, [], ◌∷◌, ◌++◌, Result, ok,
  err, leb, not, any, if◌then◌else◌, ◌==◌,
}
use holahost.Base.Equality.{◌=?◌, string_eq}
use holahost.Base.Dict.{Dict}
use holahost.Llm.Values.{
  Valid, ClientId, ProviderName, IdempotencyKey, Usage, BudgetScope, BudgetPolicy, GenerationId,
}
use holahost.Llm.Entities.{Budget, BudgetKey, of_client, of_provider, UsageRecord, make_budget}
use holahost.Llm.Idempotency
use holahost.Llm.Registry.{ConfigProvidersRepo}
use holahost.Llm.Generate.Data.{
  M, State, World, Raised, StorageError, Outcome, gets, ◌>>=◌, ◌>>◌, modify_world,
}

pub record Env : Type 0 where
  -- `time.monotonic` and `datetime.now`, in microseconds, and `random`, in millionths
  pub readings : ℕ → ℕ
  pub wall : ℕ → ℕ
  pub random : ℕ → ℕ
  -- the identifier that `uuid4` draws
  pub fresh : ℕ → GenerationId
  -- how the provider calls end
  pub vendor : ℕ → Outcome
  -- the rows that other requests committed before a unit of work was entered
  pub others : ℕ → List UsageRecord
  -- whether entering a unit of work, leaving it, or a statement fails, translated
  pub connect : ℕ → Option StorageError
  pub leave : ℕ → Option StorageError
  pub query : ℕ → Option StorageError
  -- configuration
  pub repo : ConfigProvidersRepo
  pub caps : BudgetScope → Usage
  pub default_budget_policy : BudgetPolicy
  pub budget_policy_overrides : Dict ClientId BudgetPolicy

unfoldable pub lift : {A : Type 0} → Valid A → M A
lift (ok a) s = (ok a, s)
lift (err e) s = (err (Raised.domain_validation e), s)

-- one day, in microseconds
abbrev pub day : ℕ
day = 86_400_000_000

-- Midnight UTC of the day.
unfoldable pub current_window_start : ℕ → ℕ
current_window_start now = now - now % day

-- The rows that a budget sums: `and_(client_id == …, pool)`, or `provider == …`
unfoldable pub is_subject : BudgetScope → BudgetKey → UsageRecord → Bool
is_subject BudgetScope.client (of_client c) row =
    row.client_id.value =? c.value && not row.downgraded
is_subject BudgetScope.client_downgrade (of_client c) row =
    row.client_id.value =? c.value && row.downgraded
is_subject BudgetScope.provider (of_provider p) row = row.provider.value =? p.value
is_subject BudgetScope.client (of_provider _) row = false
is_subject BudgetScope.client_downgrade (of_provider _) row = false
is_subject BudgetScope.provider (of_client _) row = false

unfoldable pub add_usage : Usage → Usage → Usage
add_usage a b = record {
  input_tokens = record { value = a.input_tokens.value + b.input_tokens.value };
  output_tokens = record { value = a.output_tokens.value + b.output_tokens.value };
}

abbrev pub no_usage : Usage
no_usage = record { input_tokens = record { value = 0 }; output_tokens = record { value = 0 } }

-- `select(coalesce(sum(…), 0), …).where(subject, created_at >= window_start)`
unfoldable pub sum_window : BudgetScope → BudgetKey → ℕ → List UsageRecord → Usage
unfolding is_subject add_usage
sum_window scope key start [] = no_usage
sum_window scope key start (row ∷ rows) =
    let rest = sum_window scope key start rows in
    if is_subject scope key row && leb start row.created_at.micros
    then add_usage row.usage rest
    else rest

-- `INSERT … ON CONFLICT DO NOTHING` on the identifier
unfoldable pub insert_row : UsageRecord → World → World
unfolding any
insert_row row w =
    if any (λ (other : UsageRecord). other.id.value == row.id.value) (w.table ++ w.pending)
    then w
    else record w { pending = w.pending ++ row ∷ [] }

module _ (env : Env) where
  unfoldable pub monotonic : M ℕ
  monotonic s = (
    ok (env.readings s.world.monotonics),
    record s { world = record s.world { monotonics = s.world.monotonics + 1 } },
  )

  unfoldable pub wall_now : M ℕ
  wall_now s = (
    ok (env.wall s.world.instants),
    record s { world = record s.world { instants = s.world.instants + 1 } },
  )

  unfoldable pub draw : M ℕ
  draw s = (
    ok (env.random s.world.randoms),
    record s { world = record s.world { randoms = s.world.randoms + 1 } },
  )

  -- `SqlAlchemyUnitOfWork.__enter__`
  unfoldable pub enter : M (Unit {0})
  enter s =
      let w = record s.world { units = s.world.units + 1 } in
      elim (env.connect s.world.units) [
        | some e ↦ (err (Raised.storage e), record s { world = w })
        | none ↦ (
          ok tt,
          record s {
            world = record w {
              in_transaction = true;
              pending = [];
              table = w.table ++ env.others s.world.units;
            };
          },
        )
      ]

  -- The rows that leaving commits: all that were inserted, or none.
  abbrev pub committed : {A : Type 0} → Result Raised A → World → World
  committed (ok _) w = record w {
    in_transaction = false;
    pending = [];
    table = w.table ++ w.pending;
  }
  committed (err _) w = record w { in_transaction = false; pending = [] }

  -- `SqlAlchemyUnitOfWork.__exit__`: a failing commit or rollback takes the place of the body's end.
  unfoldable pub exit : {A : Type 0} → Result Raised A → M A
  exit r s =
      if s.world.in_transaction
      then elim (env.leave s.world.units) [
        | some e ↦ (
          err (Raised.storage e),
          record s { world = record s.world { in_transaction = false; pending = [] } },
        )
        | none ↦ (r, record s { world = committed r s.world })
      ]
      else (err Raised.no_transaction, s)

  abbrev pub closing : {A : Type 0} → Result Raised (Unit {0}) → M A → M A
  closing (ok _) m s = let (r, s') = m s in exit r s'
  closing (err e) m s = (err e, s)

  -- `with self.uow: …`
  unfoldable pub with_uow : {A : Type 0} → M A → M A
  with_uow m s = let (r, s') = enter s in closing r m s'

  -- A statement on `uow.connection()`, under `translate_db_errors`.
  unfoldable pub execute_statement : M (Unit {0})
  execute_statement s =
      if s.world.in_transaction
      then (let s' = record s { world = record s.world { queries = s.world.queries + 1 } } in
          elim (env.query s.world.queries) [
            | some e ↦ (err (Raised.storage e), s')
            | none ↦ (ok tt, s')
          ])
      else (err Raised.no_transaction, s)

  -- `SqlAlchemyBudgetRepo._budget`
  unfoldable pub budget_of : BudgetScope → BudgetKey → M Budget
  budget_of scope key = do
    now ← wall_now
    execute_statement
    rows ← gets (λ s. s.world.table ++ s.world.pending)
    let start = current_window_start now
    lift (
        make_budget scope key (record { micros = start; is_aware = true })
          (sum_window scope key start rows) (env.caps scope))

  unfoldable pub client_state : BudgetScope → ClientId → M Budget
  client_state scope client_id = budget_of scope (of_client client_id)

  unfoldable pub provider_state : ProviderName → M Budget
  provider_state provider = budget_of BudgetScope.provider (of_provider provider)

  -- `SqlAlchemyUsageRepo.add`
  unfoldable pub add_record : UsageRecord → M (Unit {0})
  add_record row = do execute_statement; modify_world (insert_row row)

  -- The idempotency store's methods, at the present instant.
  abbrev pub began :
      Result Idempotency.DuplicateRequestError (Unit {0}) → State → Result Raised (Unit {0}) × State
  began (ok _) s = (ok tt, s)
  began (err e) s = (err (Raised.duplicate_request e.state), s)

  unfoldable pub store_begin : ClientId → IdempotencyKey → M (Unit {0})
  store_begin client_id key = do
    now ← wall_now
    λ s.
        let (r, store) = Idempotency.begin client_id key now s.world.store in
        began r (record s { world = record s.world { store = store } })

  unfoldable pub store_complete : ClientId → IdempotencyKey → Usage → M (Unit {0})
  store_complete client_id key usage = do
    now ← wall_now
    modify_world (λ w. record w { store = Idempotency.complete client_id key usage now w.store })

  unfoldable pub store_release : ClientId → IdempotencyKey → M (Unit {0})
  store_release client_id key = do
    now ← wall_now
    modify_world (λ w. record w { store = Idempotency.release client_id key now w.store })
