-- ===== src/Llm/Generate/Charges.antt =====
-- Any execution, with a key or without one, pays at most once.
use holahost.Base.{
  ◌+◌, ◌≡◌, refl, ◌⊎◌, inl, inr, Bool, true, false, Option, none, some, List, Result, ok, err,
  if◌then◌else◌,
}
use holahost.Llm.Values.{ClientId, IdempotencyKey, Usage}
use holahost.Llm.Entities.{Model}
use holahost.Llm.Idempotency
use holahost.Llm.Idempotency.{InMemoryIdempotencyStore, DuplicateRequestError}
use holahost.Llm.Generate.{generate, handle, guarded, keyed, perform, performing, execute, reraise}
use holahost.Llm.Generate.Data.{
  State, World, Call, Raised, GenerateCmd, GenerateResult, Attempt, gets, ◌>>=◌, modify_world,
}
use holahost.Llm.Generate.Ports.{Env, wall_now, store_begin, store_release, began}
use holahost.Llm.Generate.Checks.{prepare, Checked}
use holahost.Llm.Generate.Quiet.{view}
use holahost.Llm.Generate.Phases.{Unpaid, PaidOnce}
use holahost.Llm.Generate.Settlement.{IsMonotonic}
use holahost.Llm.Generate.Payment.{Answers, generate-Answers}
use holahost.Llm.Generate.Keys.{prepare_fresh}

-- Exactly one call charged, the latest.
abbrev pub HasPaid : List Attempt → Type 0
HasPaid calls = (usage : Usage) × PaidOnce usage calls

-- An answer is paid for once, and an error at most once.
abbrev pub PaysOnce : Result Raised GenerateResult → List Attempt → Type 0
PaysOnce (ok _) calls = HasPaid calls
PaysOnce (err _) calls = Unpaid calls ⊎ HasPaid calls

abbrev pub Pays : Result Raised GenerateResult × State → Type 0
Pays (r, s) = PaysOnce r s.world.calls

either-Pays :
    (b : Bool) (x y : Result Raised GenerateResult × State)
    → Pays x
    → Pays y
    → Pays (if b then x else y)
either-Pays true x y h k = h
either-Pays false x y h k = k

generated-Pays :
    (env : Env) (key : Option IdempotencyKey) (client_id : ClientId)
    (store : InMemoryIdempotencyStore) (r : Result Raised GenerateResult) (s : State)
    → Answers env key client_id store (r, s)
    → Pays (r, s)
unfolding view
generated-Pays env key client_id store (ok answer) s (usage, now, paid, completed, marked) =
    (usage, paid)
generated-Pays env key client_id store (err e) s (inl o) = inl o.unpaid
generated-Pays env key client_id store (err e) s (inr (usage, now, paid, completed, marked)) =
    inr (usage, paid)

handle-Pays :
    (env : Env) (key : IdempotencyKey) (r : Result Raised GenerateResult) (s : State)
    → Pays (r, s)
    → Pays (handle env key r s)
unfolding handle store_release wall_now modify_world ◌>>=◌
handle-Pays env key (ok answer) s h = h
handle-Pays env key (err e) s h =
    either-Pays s.call.key_settled (err e, s)
      (let (r, s') = store_release env s.call.client_id key s in (reraise env e r, s')) h h

module _ (env : Env) (forward : IsMonotonic env) (first : Model) (others : List Model) where
  generate-Pays :
      (s : State)
      → s.call.key_settled ≡ false
      → Unpaid s.world.calls
      → Pays (generate env first others s)
  unfolding view
  generate-Pays s u p =
      let (r, s') = generate env first others s in
      generated-Pays env s.call.key s.call.client_id s.world.store r s' (
        generate-Answers env s.call.key s.call.client_id s.world.store forward first others s
          (record {
            unpaid = p;
            unsettled = record {
              unmarked = u;
              untouched = refl;
              same_key = refl;
              same_client = refl;
            };
          }))

  guarded-Pays :
      (key : IdempotencyKey) (s : State)
      → s.call.key_settled ≡ false
      → Unpaid s.world.calls
      → Pays (guarded env key (generate env first others) s)
  unfolding guarded
  guarded-Pays key s u p =
      let (r, s') = generate env first others s in handle-Pays env key r s' (generate-Pays s u p)

  begun-Pays :
      (key : IdempotencyKey) (r : Result DuplicateRequestError (Unit {0})) (s : State)
      → s.call.key_settled ≡ false
      → Unpaid s.world.calls
      → Pays ((began env r >>= λ _. guarded env key (generate env first others)) s)
  unfolding ◌>>=◌
  begun-Pays key (ok _) s u p = guarded-Pays key s u p
  begun-Pays key (err e) s u p = inl p

  keyed-Pays :
      (call : Call) (o : Option IdempotencyKey) (s : State)
      → s.call.key_settled ≡ false
      → Unpaid s.world.calls
      → Pays (keyed env first others call o s)
  unfolding ◌>>=◌ store_begin wall_now
  keyed-Pays call none s u p = generate-Pays s u p
  keyed-Pays call (some key) s u p =
      let (r, store) =
        Idempotency.begin call.client_id key (env.wall s.world.instants) s.world.store in
      begun-Pays key r
        (record s { world = record s.world { instants = s.world.instants + 1; store = store } }) u p

  perform-Pays :
      (s : State)
      → s.call.key_settled ≡ false
      → Unpaid s.world.calls
      → Pays (perform env first others s)
  unfolding perform ◌>>=◌ gets
  perform-Pays s u p = keyed-Pays s.call s.call.key s u p

abbrev PaysWorld : Result Raised GenerateResult × World → Type 0
PaysWorld (r, w) = PaysOnce r w.calls

performing-Pays :
    (env : Env) (w : World) (r : Checked (Call × Model × List Model))
    → IsMonotonic env
    → Unpaid w.calls
    → ((call : Call) (first : Model) (others : List Model)
        → r ≡ ok (call, first, others)
        → call.key_settled ≡ false)
    → PaysWorld (performing env w r)
performing-Pays env w (err e) forward p h = inl p
performing-Pays env w (ok (call, first, others)) forward p h =
    perform-Pays env forward first others (record { call = call; world = w })
      (h call first others refl) p

-- On a clock that never goes backwards, from a world in which no call has charged, and whatever the
-- command, an execution that returns an answer
-- has made exactly one provider call that charged, the latest; one that raises has made at most one,
-- and then the latest.
pub execute-PaysOnce :
    (env : Env) (cmd : GenerateCmd) (w : World)
    → IsMonotonic env
    → Unpaid w.calls
    → let (r, w') = execute env cmd w in PaysOnce r w'.calls
unfolding execute
execute-PaysOnce env cmd w forward p =
    performing-Pays env (record w { monotonics = w.monotonics + 1 })
      (prepare env.repo cmd (env.readings w.monotonics)) forward p
      (λ call first others e.
        (prepare_fresh env cmd (env.readings w.monotonics) call first others e).0)
