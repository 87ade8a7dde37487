-- ===== src/Llm/Idempotency/Tests.antt =====
-- The theorems on the store at two clients' keys.
use holahost.Base.{◌≡◌, refl, none, List, [], ◌∷◌, inr, err, arith}
use holahost.Base.Dict.{get}
use holahost.Llm.Values.{ClientId, IdempotencyKey, in_flight, completed, Usage}
use holahost.Llm.Idempotency.{
  InMemoryIdempotencyStore, IdempotencyRecord, identify, identity_beq, begin, complete, run, Call,
  begins, completes, releases, create_record,
}
use holahost.Llm.Idempotency.Protection.{begin_excludes, complete_protects}
use holahost.Llm.Idempotency.Expiry.{begin_drops_expired, empty, Live}

abbrev tool : ClientId
tool = record { value = "tool" }

abbrev other : ClientId
other = record { value = "other" }

abbrev k1 : IdempotencyKey
k1 = record { value = "k1" }

abbrev spent : Usage
spent = record { input_tokens = record { value = 12 }; output_tokens = record { value = 34 } }

-- Another client begins, completes and begins again under the same key.
abbrev between : List Call
between = begins other k1 20 ∷ completes other k1 spent 30 ∷ begins other k1 40 ∷ []

abbrev store : InMemoryIdempotencyStore
store = empty 100

begin_excludes_example :
    (begin tool k1 50 (run between (begin tool k1 10 store).1)).0
    ≡ err (record { state = in_flight })
unfolding begin identity_beq create_record get
begin_excludes_example =
    begin_excludes tool k1 10 50 between store refl (omega arith)
      ((omega arith, inr refl), ((omega arith, inr refl), ((omega arith, inr refl), tt)))

abbrev held : IdempotencyRecord
held = record { client_id = tool; key = k1; state = in_flight; usage = none; expires_at = 110 }

complete_protects_example :
    (begin tool k1 60 (
      run
        (releases tool k1 55 ∷ between)
        (complete tool k1 spent 15 (record store { records = (identify tool k1, held) ∷ [] })))).0
    ≡ err (record { state = completed })
unfolding get identity_beq
complete_protects_example =
    complete_protects tool k1 spent 15 60 (releases tool k1 55 ∷ between) held
      (record store { records = (identify tool k1, held) ∷ [] }) refl (omega arith) (omega arith)
      (omega arith, (omega arith, (omega arith, (omega arith, tt))))

begin_drops_expired_example : Live 140 (begin tool k1 140 (run between (empty 100))).1.records
begin_drops_expired_example =
    begin_drops_expired 100 between tool k1 140 (omega arith)
      (omega arith, (omega arith, (omega arith, tt)))
