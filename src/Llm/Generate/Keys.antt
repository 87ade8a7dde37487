-- ===== src/Llm/Generate/Keys.antt =====
-- What becomes of an idempotency key in one `execute`.
use holahost.Base.{ℕ, ◌+◌, ◌≡◌, refl, ap, ◌⊎◌, inl, inr, false, some, List, Result, ok, err, arith}
use holahost.Llm.Values.{ClientId, IdempotencyKey, Usage}
use holahost.Llm.Entities.{Model}
use holahost.Llm.Estimates.{retry_total_budget}
use holahost.Llm.Idempotency
use holahost.Llm.Idempotency.{InMemoryIdempotencyStore, DuplicateRequestError}
use holahost.Llm.Generate.{generate, handle, guarded, keyed, perform, execute}
use holahost.Llm.Generate.Data.{
  State, World, Call, Raised, GenerateCmd, GenerateResult, gets, ◌>>=◌, modify_world,
}
use holahost.Llm.Generate.Ports.{Env, wall_now, store_begin, store_release}
use holahost.Llm.Generate.Checks.{prepare}
use holahost.Llm.Generate.Quiet.{view}
use holahost.Llm.Generate.Phases.{Unpaid, PaidOnce}
use holahost.Llm.Generate.Settlement.{IsMonotonic}
use holahost.Llm.Generate.Payment.{Answers, generate-Answers}

-- One call charged, and the key is completed with what it charged.
abbrev pub Completes : ClientId → IdempotencyKey → InMemoryIdempotencyStore → World → Type 0
Completes client_id key store w =
    (usage : Usage) × (now : ℕ) × PaidOnce usage w.calls
    × (w.store ≡ Idempotency.complete client_id key usage now store)

-- No call charged, and the key is released.
abbrev pub Releases : ClientId → IdempotencyKey → InMemoryIdempotencyStore → World → Type 0
Releases client_id key store w =
    (now : ℕ) × Unpaid w.calls × (w.store ≡ Idempotency.release client_id key now store)

-- How an execution that holds the key ends.
abbrev pub Finishes :
    ClientId
    → IdempotencyKey
    → InMemoryIdempotencyStore
    → Result Raised GenerateResult × World
    → Type 0
Finishes client_id key store (ok _, w) = Completes client_id key store w
Finishes client_id key store (err _, w) =
    Releases client_id key store w ⊎ Completes client_id key store w

abbrev world_of : Result Raised GenerateResult × State → Result Raised GenerateResult × World
world_of (r, s) = (r, s.world)

module _ (env : Env) (client_id : ClientId) (key : IdempotencyKey)
    (store : InMemoryIdempotencyStore) where
  handle-Finishes :
      (r : Result Raised GenerateResult) (s : State)
      → Answers env (some key) client_id store (r, s)
      → Finishes client_id key store (world_of (handle env key r s))
  unfolding handle view store_release wall_now modify_world ◌>>=◌
  handle-Finishes (ok answer) s (usage, now, paid, completed, marked) =
      (usage, now, paid, completed)
  handle-Finishes (err e) s (inl o) = rw o.unsettled.unmarked (
      inl (
        env.wall s.world.instants,
        o.unpaid,
        ground (arith, o.unsettled.same_client, o.unsettled.untouched),
      ))
  handle-Finishes (err e) s (inr (usage, now, paid, completed, marked)) =
      rw marked (inr (usage, now, paid, completed))

-- The execution is refused as a duplicate and has reached nothing but the store.
abbrev pub Duplicates :
    World
    → DuplicateRequestError
    → InMemoryIdempotencyStore
    → Result Raised GenerateResult × World
    → Type 0
Duplicates before e store (r, w) =
    (r ≡ err (Raised.duplicate_request e.state))
    × (w.calls ≡ before.calls)
    × (w.table ≡ before.table)
    × (w.store ≡ store)

-- The store after a `begin` that succeeded.
abbrev pub begun : Env → ClientId → IdempotencyKey → World → InMemoryIdempotencyStore
begun env client_id key w = (Idempotency.begin client_id key (env.wall w.instants) w.store).1

abbrev pub begin_result :
    Env → ClientId → IdempotencyKey → World → Result DuplicateRequestError (Unit {0})
begin_result env client_id key w = (Idempotency.begin client_id key (env.wall w.instants) w.store).0

module _ (env : Env) (forward : IsMonotonic env) (first : Model) (others : List Model) where
  keyed-Finishes :
      (key : IdempotencyKey) (s : State)
      → s.call.key ≡ some key
      → s.call.key_settled ≡ false
      → Unpaid s.world.calls
      → begin_result env s.call.client_id key s.world ≡ ok tt
      → Finishes s.call.client_id key
          (begun env s.call.client_id key s.world)
          (world_of (keyed env first others s.call (some key) s))
  unfolding guarded store_begin wall_now ◌>>=◌ view
  keyed-Finishes key s e u p b =
      let store = begun env s.call.client_id key s.world in
      let s' : State = record s {
        world = record s.world { instants = s.world.instants + 1; store = store };
      } in
      let (r, s'') = generate env first others s' in
      rw b (
        handle-Finishes env s.call.client_id key store r s'' (
          generate-Answers env (some key) s.call.client_id store forward first others s' (record {
            unpaid = p;
            unsettled = record { unmarked = u; untouched = refl; same_key = e; same_client = refl };
          })))

module _ (env : Env) (first : Model) (others : List Model) where
  keyed_duplicate :
      (key : IdempotencyKey) (e : DuplicateRequestError) (s : State)
      → begin_result env s.call.client_id key s.world ≡ err e
      → Duplicates s.world e
          (begun env s.call.client_id key s.world)
          (world_of (keyed env first others s.call (some key) s))
  unfolding guarded store_begin wall_now ◌>>=◌
  keyed_duplicate key e s b = rw b (refl, refl, refl, refl)

  perform-keyed :
      (key : IdempotencyKey) (s : State)
      → s.call.key ≡ some key
      → perform env first others s ≡ keyed env first others s.call (some key) s
  unfolding perform ◌>>=◌ gets
  perform-keyed key s k = ap (λ o. keyed env first others s.call o s) k

abbrev started : Call → World → State
started call w = record { call = call; world = record w { monotonics = w.monotonics + 1 } }

execute-keyed :
    (env : Env) (cmd : GenerateCmd) (w : World) (call : Call) (first : Model) (others : List Model)
    (key : IdempotencyKey)
    → prepare env.repo cmd (env.readings w.monotonics) ≡ ok (call, first, others)
    → call.key ≡ some key
    → execute env cmd w ≡ world_of (keyed env first others call (some key) (started call w))
unfolding execute
execute-keyed env cmd w call first others key p k =
    rw p (ap world_of (perform-keyed env first others key (started call w) k))

pub prepare_fresh :
    (env : Env) (cmd : GenerateCmd) (now : ℕ) (call : Call) (first : Model) (others : List Model)
    → prepare env.repo cmd now ≡ ok (call, first, others)
    → (call.key_settled ≡ false) × (call.deadline ≡ now + retry_total_budget) × (call.attempts ≡ 0)
unfolding prepare
prepare_fresh env cmd now call first others e = ground arith

-- On a clock that never goes backwards, and from a world in which no call has charged, an execution
-- whose command passes its checks and that begins its idempotency key ends in one of two ways. Either exactly one provider call charged, the latest,
-- and the key is completed with what it charged: so it is whenever an answer is returned. Or no call
-- charged, an error is raised, and the key is released.
pub execute_settles :
    (env : Env) (cmd : GenerateCmd) (w : World) (call : Call) (first : Model) (others : List Model)
    (key : IdempotencyKey)
    → IsMonotonic env
    → prepare env.repo cmd (env.readings w.monotonics) ≡ ok (call, first, others)
    → call.key ≡ some key
    → Unpaid w.calls
    → begin_result env call.client_id key w ≡ ok tt
    → Finishes call.client_id key (begun env call.client_id key w) (execute env cmd w)
execute_settles env cmd w call first others key forward p k u b =
    rw (execute-keyed env cmd w call first others key p k) (
      keyed-Finishes env forward first others key (started call w) k
        (prepare_fresh env cmd (env.readings w.monotonics) call first others p).0 u b)

-- A key that the store refuses to begin ends the execution with the duplicate's state: no provider
-- is called and no row is written.
pub execute_duplicate :
    (env : Env) (cmd : GenerateCmd) (w : World) (call : Call) (first : Model) (others : List Model)
    (key : IdempotencyKey) (e : DuplicateRequestError)
    → prepare env.repo cmd (env.readings w.monotonics) ≡ ok (call, first, others)
    → call.key ≡ some key
    → begin_result env call.client_id key w ≡ err e
    → Duplicates w e (begun env call.client_id key w) (execute env cmd w)
execute_duplicate env cmd w call first others key e p k b =
    rw (execute-keyed env cmd w call first others key p k)
      (keyed_duplicate env first others key e (started call w) b)
