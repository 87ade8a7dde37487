-- ===== src/Llm/Idempotency/Protection.antt =====
-- What the store protects: a key that is in flight or completed is not begun again before it expires.
use holahost.Base.{
  ℕ, ◌<◌, ◌+◌, ◌≡◌, refl, ◌⊎◌, inl, inr, Bool, false, some, List, [], ◌∷◌, arith, ok, err, All,
  Option-cases,
}
use holahost.Base.Equality.{◌=?◌}
use holahost.Base.Dict.{get, remove, get-put, get-put_self, get-remove}
use holahost.Llm.Values.{ClientId, IdempotencyKey, in_flight, completed, Usage}
use holahost.Llm.Idempotency.{
  Identity, identify, identity_eq, create_record, Records, IdempotencyRecord, is_in_flight,
  InMemoryIdempotencyStore, live, drop_expired, begin, complete, release, Call, begins, completes,
  releases, step, run,
}

-- A record that is not expired stays when the expired ones are dropped.
get-drop_expired :
    (now : ℕ) (i : Identity) (d : Records) (r : IdempotencyRecord)
    → get i d ≡ some r
    → now < r.expires_at
    → get i (drop_expired now d) ≡ some r
unfolding get drop_expired
get-drop_expired now i [] r e h = cc
get-drop_expired now i ((j, q) ∷ d) r e h = ground (arith, get-drop_expired now i d r)

abbrev pub instant : Call → ℕ
instant (begins c k now) = now
instant (completes c k usage now) = now
instant (releases c k now) = now

-- The call settles the identity: completes or releases it.
abbrev pub settles : Identity → Call → Bool
settles i (begins c k now) = false
settles i (completes c k usage now) = i =? identify c k
settles i (releases c k now) = i =? identify c k

module _ (i : Identity) (r : IdempotencyRecord) where
  begin_keeps :
      (c : ClientId) (k : IdempotencyKey) (now : ℕ) (s : InMemoryIdempotencyStore)
      → now < r.expires_at
      → get i s.records ≡ some r
      → get i (begin c k now s).1.records ≡ some r
  unfolding begin live
  begin_keeps c k now s h e =
      let j = identify c k in
      let d = drop_expired now s.records in
      ground (
        arith,
        get-drop_expired now i s.records r e h,
        identity_eq.beq_iff i j,
        identity_eq.beq_iff j i,
        get-put j i (create_record c k s.ttl now) (remove j d),
        get-remove j i d,
      )

  complete_keeps :
      (c : ClientId) (k : IdempotencyKey) (usage : Usage) (now : ℕ) (s : InMemoryIdempotencyStore)
      → (is_in_flight r.state ≡ false) ⊎ ((i =? identify c k) ≡ false)
      → get i s.records ≡ some r
      → get i (complete c k usage now s).records ≡ some r
  unfolding complete live
  complete_keeps c k usage now s o e =
      let j = identify c k in
      elim (Option-cases (get j s.records)) [
        | inl absent ↦ ground arith
        | inr (q, held) ↦ ground (
          arith,
          identity_eq.beq_iff i j,
          identity_eq.beq_iff j i,
          get-put j i (record q { state = completed; usage = some usage }) s.records,
        )
      ]

  release_keeps :
      (c : ClientId) (k : IdempotencyKey) (now : ℕ) (s : InMemoryIdempotencyStore)
      → (is_in_flight r.state ≡ false) ⊎ ((i =? identify c k) ≡ false)
      → get i s.records ≡ some r
      → get i (release c k now s).records ≡ some r
  unfolding release
  release_keeps c k now s o e =
      let j = identify c k in
      elim (Option-cases (get j s.records)) [
        | inl absent ↦ ground arith
        | inr (q, held) ↦
            ground
              (arith, identity_eq.beq_iff i j, identity_eq.beq_iff j i, get-remove j i s.records)
      ]

  -- A call leaves the record alone unless it comes too late, or settles a key still in flight.
  abbrev pub Spares : Call → Type 0
  Spares call =
      (instant call < r.expires_at) × ((is_in_flight r.state ≡ false) ⊎ (settles i call ≡ false))

  step_keeps :
      (call : Call) (s : InMemoryIdempotencyStore)
      → Spares call
      → get i s.records ≡ some r
      → get i (step call s).records ≡ some r
  unfolding step
  step_keeps (begins c k now) s h e = begin_keeps c k now s h.0 e
  step_keeps (completes c k usage now) s h e = complete_keeps c k usage now s h.1 e
  step_keeps (releases c k now) s h e = release_keeps c k now s h.1 e

  -- Any number of calls of any requests that spare the record leave it in the store.
  pub run_keeps :
      (calls : List Call) (s : InMemoryIdempotencyStore)
      → All Spares calls
      → get i s.records ≡ some r
      → get i (run calls s).records ≡ some r
  unfolding run
  run_keeps [] s h e = e
  run_keeps (call ∷ calls) s h e = run_keeps calls (step call s) h.1 (step_keeps call s h.0 e)

held_refuses :
    (c : ClientId) (k : IdempotencyKey) (now : ℕ) (r : IdempotencyRecord)
    (s : InMemoryIdempotencyStore)
    → get (identify c k) s.records ≡ some r
    → now < r.expires_at
    → (begin c k now s).0 ≡ err (record { state = r.state })
unfolding begin live
held_refuses c k now r s e h = ground (arith, get-drop_expired now (identify c k) s.records r e h)

begun :
    (c : ClientId) (k : IdempotencyKey) (now : ℕ) (s : InMemoryIdempotencyStore)
    → (begin c k now s).0 ≡ ok tt
    → get (identify c k) (begin c k now s).1.records ≡ some (create_record c k s.ttl now)
unfolding begin live
begun c k now s h = ground (
  arith,
  get-put_self (identify c k) (create_record c k s.ttl now)
      (remove (identify c k) (drop_expired now s.records)),
)

-- After a `begin` that succeeds, whatever calls of the process come in between, as long as none
-- completes or releases this key and each comes before the key expires, another `begin` is refused as a
-- duplicate of a request in flight.
pub begin_excludes :
    (c : ClientId) (k : IdempotencyKey) (start later : ℕ) (calls : List Call)
    (s : InMemoryIdempotencyStore)
    → (begin c k start s).0 ≡ ok tt
    → later < start + s.ttl
    → All (Spares (identify c k) (create_record c k s.ttl start)) calls
    → (begin c k later (run calls (begin c k start s).1)).0 ≡ err (record { state = in_flight })
unfolding create_record
begin_excludes c k start later calls s h t spared =
    held_refuses c k later (create_record c k s.ttl start) (run calls (begin c k start s).1)
      (run_keeps (identify c k) (create_record c k s.ttl start) calls _ spared
        (begun c k start s h))
      t

-- What a live record becomes when its request completes.
abbrev settled : Usage → IdempotencyRecord → IdempotencyRecord
settled usage r = elim r.state [
  | in_flight ↦ record r { state = completed; usage = some usage }
  | completed ↦ r
]

get-complete_self :
    (c : ClientId) (k : IdempotencyKey) (usage : Usage) (now : ℕ) (r : IdempotencyRecord)
    (s : InMemoryIdempotencyStore)
    → get (identify c k) s.records ≡ some r
    → now < r.expires_at
    → get (identify c k) (complete c k usage now s).records ≡ some (settled usage r)
unfolding complete live
get-complete_self c k usage now r s e h =
    ground (arith, get-put_self (identify c k) (settled usage r) s.records)

settled-completed :
    (usage : Usage) (r : IdempotencyRecord)
    → ((settled usage r).state ≡ completed) × ((settled usage r).expires_at ≡ r.expires_at)
settled-completed usage r = ground arith

spared :
    (i : Identity) (r q : IdempotencyRecord) (calls : List Call)
    → q.state ≡ completed
    → q.expires_at ≡ r.expires_at
    → All (λ call. instant call < r.expires_at) calls
    → All (Spares i q) calls
spared i r q [] c e h = tt
spared i r q (call ∷ calls) c e h = ((rw e h.0, inl (rw c refl)), spared i r q calls c e h.1)

-- A key completed while its record is live is never begun again before the record expires, whatever
-- calls of the process come in between, each before the expiry: the repeat is refused as completed.
pub complete_protects :
    (c : ClientId) (k : IdempotencyKey) (usage : Usage) (now later : ℕ) (calls : List Call)
    (r : IdempotencyRecord) (s : InMemoryIdempotencyStore)
    → get (identify c k) s.records ≡ some r
    → now < r.expires_at
    → later < r.expires_at
    → All (λ call. instant call < r.expires_at) calls
    → (begin c k later (run calls (complete c k usage now s))).0
      ≡ err (record { state = completed })
complete_protects c k usage now later calls r s e h t early =
    let i = identify c k in
    let q = settled usage r in
    let (done, expiry) = settled-completed usage r in
    let kept =
      run_keeps i q calls (complete c k usage now s) (spared i r q calls done expiry early)
        (get-complete_self c k usage now r s e h) in
    rw (← done) (held_refuses c k later q (run calls (complete c k usage now s)) kept (rw expiry t))
