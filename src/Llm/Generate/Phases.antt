-- ===== src/Llm/Generate/Phases.antt =====
-- The phases of one execution: nothing is paid for yet, a provider has charged, the charge is settled.
use holahost.Base.{
  ℕ, zero, suc, ◌+◌, ◌-◌, ◌≤◌, ◌≡◌, refl, Bool, true, false, Option, none, some, List, [], ◌∷◌, ok,
  arith, All, is_some,
}
use holahost.Base.Int.{ℤ, pos, sub_ℕ}
use holahost.Llm.Values.{ClientId, IdempotencyKey, Usage, GenerationId}
use holahost.Llm.Entities.{Model, UsageRecord, DateTime, create_usage_record}
use holahost.Llm.Idempotency
use holahost.Llm.Idempotency.{InMemoryIdempotencyStore}
use holahost.Llm.Generate.Data.{
  M, State, Call, Attempt, Outcome, answered, transient, rejected, refused, pure, gets, ◌>>=◌,
  modify_call, modify_world,
}
use holahost.Llm.Generate.Ports.{Env, lift, wall_now, store_complete}
use holahost.Llm.Generate.Calls.{
  settle, settle_key, write, retry_on_concurrent_update, default_max_retries, write_and_settle,
  record_usage, to_ms, pause_after, backoff, round_half_even,
}
use holahost.Llm.Generate.Quiet.{
  View, view, Quiet, Quiet-with_uow, Quiet-add_record, Quiet-pure, Quiet-bind, Quiet-draw,
}

-- What a provider call charged.
abbrev pub charge : Outcome → Option Usage
charge (answered generation) = some generation.usage
charge (refused usage) = some usage
charge (transient _ _) = none
charge (rejected _) = none

abbrev pub Unpaid : List Attempt → Type 0
Unpaid = All (λ (a : Attempt). charge a.outcome ≡ none)

-- The latest call charged the usage, and none before it charged anything.
abbrev pub PaidOnce : Usage → List Attempt → Type 0
PaidOnce usage [] = ⊥
PaidOnce usage (a ∷ calls) = (charge a.outcome ≡ some usage) × Unpaid calls

-- What the settlement of a charge makes of the store.
abbrev pub settled_store :
    Option IdempotencyKey
    → ClientId
    → Usage
    → ℕ
    → InMemoryIdempotencyStore
    → InMemoryIdempotencyStore
settled_store none client_id usage now store = store
settled_store (some key) client_id usage now store =
    Idempotency.complete client_id key usage now store

module _ (key : Option IdempotencyKey) (client_id : ClientId)
    (store : InMemoryIdempotencyStore) where
  -- Nothing is settled: the store is the given one, and the key is not marked.
  pub record IsUnsettled (v : View) : Type 0 where
    pub unmarked : v.rest.key_settled ≡ false
    pub untouched : v.store ≡ store
    pub same_key : v.rest.key ≡ key
    pub same_client : v.rest.client_id ≡ client_id

  -- No provider has charged.
  pub record IsOpen (v : View) : Type 0 where
    pub unpaid : Unpaid v.calls
    pub unsettled : IsUnsettled v

  -- A provider has charged the usage, and the charge is not settled.
  pub record IsCharged (usage : Usage) (v : View) : Type 0 where
    pub paid : PaidOnce usage v.calls
    pub unsettled : IsUnsettled v

  -- A charge is settled: one call charged, the key is marked and completed with its usage.
  abbrev pub IsSettled : View → Type 0
  IsSettled v =
      (usage : Usage) × (now : ℕ) × PaidOnce usage v.calls
      × (v.store ≡ settled_store key client_id usage now store)
      × (v.rest.key_settled ≡ is_some key)

module _ (env : Env) where
  pub Quiet-write : (row : UsageRecord) → Quiet (write env row)
  unfolding write
  Quiet-write row = Quiet-with_uow env _ (Quiet-add_record env row)

  pub retry-Quiet :
      {A : Type 0} (left : ℕ) (m : M A) → Quiet m → Quiet (retry_on_concurrent_update left m)
  unfolding retry_on_concurrent_update
  retry-Quiet zero m q = q
  retry-Quiet (suc left) m q = record {
    same = λ s. ground (arith, q.same s, (retry-Quiet left m q).same (m s).1);
    closed = λ s h. ground (arith, q.closed s h, (retry-Quiet left m q).closed (m s).1);
  }

  pub Quiet-pause_after :
      (retry_after : Option ℤ) (attempt : ℕ) → Quiet (pause_after env retry_after attempt)
  unfolding pause_after backoff
  Quiet-pause_after (some t) attempt = Quiet-pure _
  Quiet-pause_after none attempt = Quiet-bind _ _ (Quiet-draw env) (λ r. Quiet-pure _)

pub to_ms_nonneg :
    (started ended : ℕ) → started ≤ ended → (n : ℕ) × (to_ms (sub_ℕ ended started) ≡ pos n)
unfolding to_ms
to_ms_nonneg started ended h = (round_half_even (ended - started), ground arith)

created :
    (id : GenerationId) (now : DateTime) (c : Call) (model : Model) (usage : Usage) (latency : ℤ)
    (failed_over : Bool) (n : ℕ)
    → latency ≡ pos n
    → (row : UsageRecord) × (create_usage_record id now c.cmd.request_id c.client_id c.subject
          model.provider.name model.id usage latency c.downgraded failed_over
        ≡ ok row)
unfolding create_usage_record
created id now c model usage latency failed_over n e = rw e (
  record {
    id = id;
    request_id = c.cmd.request_id;
    client_id = c.client_id;
    subject = c.subject;
    provider = model.provider.name;
    model = model.id;
    usage = usage;
    latency_ms = n;
    downgraded = c.downgraded;
    failed_over = failed_over;
    created_at = now;
  },
  ground arith,
)

module _ (env : Env) (key : Option IdempotencyKey) (client_id : ClientId)
    (store : InMemoryIdempotencyStore) where
  settle-IsSettled :
      (usage : Usage) (k : Option IdempotencyKey) (s : State)
      → s.call.key ≡ k
      → IsCharged key client_id store usage (view s)
      → IsSettled key client_id store (view (settle env s.call.client_id usage k s).1)
  unfolding ◌>>=◌ gets view pure store_complete wall_now modify_call modify_world
  settle-IsSettled usage none s e h = (usage, 0, h.paid, ground arith, ground arith)
  settle-IsSettled usage (some k) s e h =
      (usage, env.wall s.world.instants, h.paid, ground arith, ground arith)

  settle_key-IsSettled :
      (usage : Usage) (s : State)
      → IsCharged key client_id store usage (view s)
      → IsSettled key client_id store (view (settle_key env usage s).1)
  unfolding settle_key ◌>>=◌ gets
  settle_key-IsSettled usage s h = settle-IsSettled usage s.call.key s refl h

  write_and_settle-IsSettled :
      (model : Model) (usage : Usage) (row : UsageRecord) (s : State)
      → IsCharged key client_id store usage (view s)
      → IsSettled key client_id store (view (write_and_settle env model usage row s).1)
  unfolding write_and_settle
  write_and_settle-IsSettled model usage row s h =
      let s' = (retry_on_concurrent_update default_max_retries (write env row) s).1 in
      let q = (retry-Quiet env default_max_retries (write env row) (Quiet-write env row)).same s in
      settle_key-IsSettled usage s' (rw q h)

  pub record_usage-IsSettled :
      (model : Model) (usage : Usage) (elapsed : ℤ) (failed_over : Bool) (n : ℕ) (s : State)
      → to_ms elapsed ≡ pos n
      → IsCharged key client_id store usage (view s)
      → IsSettled key client_id store (view (record_usage env model usage elapsed failed_over s).1)
  unfolding record_usage ◌>>=◌ gets lift wall_now view
  record_usage-IsSettled model usage elapsed failed_over n s e h =
      let (row, made) =
        created (env.fresh (s.world.instants + 1))
          (record { micros = env.wall s.world.instants; is_aware = true }) s.call model usage
          (to_ms elapsed) failed_over n e in
      rw made (
        write_and_settle-IsSettled model usage row
          (record s { world = record s.world { instants = s.world.instants + 1 } }) h)
