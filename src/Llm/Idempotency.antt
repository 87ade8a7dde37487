-- ===== src/Llm/Idempotency.antt =====
-- `IdempotencyRecord` (domain/entities/idempotency_record.py) and `InMemoryIdempotencyStore`
-- (infrastructure/idempotency/in_memory_idempotency_store.py). Each method runs under the store's
-- lock and is given the instant at which it runs, in microseconds.
pub mod Expiry
mod Tests
pub mod Protection
use holahost.Base.{
  ℕ, ◌+◌, Bool, true, false, ◌&&◌, Option, none, some, List, [], ◌∷◌, Result, ok, err, leb, not,
  if◌then◌else◌, is_some, ◌≡◌, ◌↔◌, arith,
}
use mathlib.Core.Bool.{xor}
use text.Mathlib.TextEquality.{eq_iff}
use holahost.Base.Equality.{Eq, ◌=?◌}
use holahost.Base.Dict.{Dict, get, put, remove}
use holahost.Llm.Values.{
  Valid, invalid, ClientId, IdempotencyKey, IdempotencyState, in_flight, completed, Usage,
  client_id_eq, idempotency_key_eq,
}

pub record IdempotencyRecord : Type 0 where
  pub client_id : ClientId
  pub key : IdempotencyKey
  pub state : IdempotencyState
  pub usage : Option Usage
  pub expires_at : ℕ

abbrev pub is_in_flight : IdempotencyState → Bool
is_in_flight in_flight = true
is_in_flight completed = false

-- `__post_init__`
unfoldable pub make_record :
    ClientId → IdempotencyKey → IdempotencyState → Option Usage → ℕ → Valid IdempotencyRecord
make_record client_id key state usage expires_at =
    if xor (is_in_flight state) (not (is_some usage))
    then invalid "IdempotencyRecord usage must be set exactly when it is completed" none
    else ok (record {
      client_id = client_id;
      key = key;
      state = state;
      usage = usage;
      expires_at = expires_at;
    })

-- `IdempotencyRecord.create`
unfoldable pub create_record : ClientId → IdempotencyKey → ℕ → ℕ → IdempotencyRecord
create_record client_id key ttl now = record {
  client_id = client_id;
  key = key;
  state = in_flight;
  usage = none;
  expires_at = now + ttl;
}

-- `IdempotencyRecord.complete`
unfoldable pub complete_record : Usage → IdempotencyRecord → Valid IdempotencyRecord
complete_record usage r =
    if is_in_flight r.state
    then ok (record r { state = completed; usage = some usage })
    else invalid "IdempotencyRecord is already completed" none

unfoldable pub is_expired : ℕ → IdempotencyRecord → Bool
is_expired now r = leb r.expires_at now

-- `_Identity`
pub record Identity : Type 0 where
  pub client_id : ClientId
  pub key : IdempotencyKey

abbrev pub identify : ClientId → IdempotencyKey → Identity
identify client_id key = record { client_id = client_id; key = key }

unfoldable pub identity_beq : Identity → Identity → Bool
identity_beq a b = a.client_id =? b.client_id && a.key =? b.key

pub identity_beq_iff : (a b : Identity) → (identity_beq a b ≡ true) ↔ (a ≡ b)
unfolding identity_beq
identity_beq_iff a b =
    ground (arith, eq_iff a.client_id.value b.client_id.value, eq_iff a.key.value b.key.value)

instance abbrev pub identity_eq : Eq Identity
identity_eq = record { beq = identity_beq; beq_iff = identity_beq_iff }

abbrev pub Records : Type 0
Records = Dict Identity IdempotencyRecord

pub record InMemoryIdempotencyStore : Type 0 where
  pub ttl : ℕ
  pub records : Records

-- `DuplicateRequestError(state=…)`
pub record DuplicateRequestError : Type 0 where
  pub state : IdempotencyState

abbrev unless_expired : ℕ → Option IdempotencyRecord → Option IdempotencyRecord
unless_expired now none = none
unless_expired now (some r) = if is_expired now r then none else some r

-- `_live`
unfoldable pub live : ℕ → Identity → Records → Option IdempotencyRecord
unfolding is_expired
live now identity records = unless_expired now (get identity records)

-- `_drop_expired`: from the front, up to the first record that is not expired
unfoldable pub drop_expired : ℕ → Records → Records
unfolding is_expired
drop_expired now [] = []
drop_expired now ((identity, r) ∷ records) =
    let rest = drop_expired now records in
    if not (is_expired now r) then (identity, r) ∷ records else rest

unfoldable pub begin :
    ClientId
    → IdempotencyKey
    → ℕ
    → InMemoryIdempotencyStore
    → Result DuplicateRequestError (Unit {0}) × InMemoryIdempotencyStore
unfolding live drop_expired create_record
begin client_id key now s =
    let identity = identify client_id key in
    let records = drop_expired now s.records in
    elim (live now identity records) [
      | some held ↦ (err (record { state = held.state }), record s { records = records })
      | none ↦ (
        ok tt,
        record s {
          records = put identity (create_record client_id key s.ttl now) (remove identity records);
        },
      )
    ]

-- The write of `record.complete(usage)` on the stored object; its refusal cannot come up, since
-- only a record in flight is completed.
abbrev completed_in : Identity → Records → Valid IdempotencyRecord → Records
completed_in identity records (ok r) = put identity r records
completed_in identity records (err _) = records

unfoldable pub complete :
    ClientId → IdempotencyKey → Usage → ℕ → InMemoryIdempotencyStore → InMemoryIdempotencyStore
unfolding live complete_record
complete client_id key usage now s = elim (live now (identify client_id key) s.records) [
  | none ↦ s
  | some r ↦
      if is_in_flight r.state
      then record s {
        records = completed_in (identify client_id key) s.records (complete_record usage r);
      }
      else s
]

unfoldable pub release :
    ClientId → IdempotencyKey → ℕ → InMemoryIdempotencyStore → InMemoryIdempotencyStore
unfolding live
release client_id key now s = elim (live now (identify client_id key) s.records) [
  | none ↦ s
  | some r ↦
      if is_in_flight r.state
      then record s { records = remove (identify client_id key) s.records }
      else s
]

-- One call of the store, by any request of the process.
pub data Call : Type 0 where
  begins : ClientId → IdempotencyKey → ℕ → Call
  completes : ClientId → IdempotencyKey → Usage → ℕ → Call
  releases : ClientId → IdempotencyKey → ℕ → Call

unfoldable pub step : Call → InMemoryIdempotencyStore → InMemoryIdempotencyStore
step (begins c k now) s = (begin c k now s).1
step (completes c k usage now) s = complete c k usage now s
step (releases c k now) s = release c k now s

unfoldable pub run : List Call → InMemoryIdempotencyStore → InMemoryIdempotencyStore
unfolding step
run [] s = s
run (call ∷ calls) s = run calls (step call s)
