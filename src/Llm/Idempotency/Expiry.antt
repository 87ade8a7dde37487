-- ===== src/Llm/Idempotency/Expiry.antt =====
-- Insertion order is expiry order, which is what `_drop_expired` relies on when it stops at the
-- first record that is not expired.
use holahost.Base.{
  ℕ, ◌≤◌, ◌<◌, ◌∙◌, ◌+◌, ◌≡◌, refl, false, none, some, List, [], ◌∷◌, arith, Option-cases, inl, inr,
  All,
}
use holahost.Base.Dict.{get, put, remove, get-remove, =?_refl}
use holahost.Llm.Values.{ClientId, IdempotencyKey, completed, Usage}
use holahost.Llm.Idempotency.{
  Identity, identify, identity_eq, create_record, complete_record, Records, IdempotencyRecord,
  InMemoryIdempotencyStore, live, drop_expired, begin, complete, release, is_expired, Call, begins,
  completes, releases, step, run,
}
use holahost.Llm.Idempotency.Protection.{instant}

-- The records expire in the order of the list, none before `low`.
abbrev pub Ordered : ℕ → Records → Type 0
Ordered low [] = Unit
Ordered low ((i, r) ∷ d) = (low ≤ r.expires_at) × Ordered r.expires_at d

-- No record expires after `high`.
abbrev pub Within : ℕ → Records → Type 0
Within high = All (λ (e : Identity × IdempotencyRecord). e.1.expires_at ≤ high)

abbrev pub Live : ℕ → Records → Type 0
Live now = All (λ (e : Identity × IdempotencyRecord). is_expired now e.1 ≡ false)

Ordered-low : (low high : ℕ) (d : Records) → low ≤ high → Ordered high d → Ordered low d
Ordered-low low high [] h o = tt
Ordered-low low high (x ∷ d) h o = (omega arith, o.1)

Ordered-Live : (now low : ℕ) (d : Records) → now < low → Ordered low d → Live now d
unfolding is_expired
Ordered-Live now low [] h o = tt
Ordered-Live now low ((i, r) ∷ d) h o =
    (ground arith, Ordered-Live now r.expires_at d (omega arith) o.1)

drop_expired-Live : (now low : ℕ) (d : Records) → Ordered low d → Live now (drop_expired now d)
unfolding drop_expired is_expired
drop_expired-Live now low [] o = tt
drop_expired-Live now low ((i, r) ∷ d) o =
    ground (arith, drop_expired-Live now r.expires_at d o.1, Ordered-Live now r.expires_at d)

drop_expired-Ordered :
    (now low : ℕ) (d : Records) → Ordered low d → Ordered low (drop_expired now d)
unfolding drop_expired
drop_expired-Ordered now low [] o = tt
drop_expired-Ordered now low ((i, r) ∷ d) o = ground (
  arith,
  drop_expired-Ordered now r.expires_at d o.1,
  Ordered-low low r.expires_at (drop_expired now d),
)

drop_expired-Within :
    (now high : ℕ) (d : Records) → Within high d → Within high (drop_expired now d)
unfolding drop_expired
drop_expired-Within now high [] w = tt
drop_expired-Within now high (x ∷ d) w = ground (arith, drop_expired-Within now high d w.1)

module _ (i : Identity) where
  remove-Ordered : (low : ℕ) (d : Records) → Ordered low d → Ordered low (remove i d)
  unfolding remove
  remove-Ordered low [] o = tt
  remove-Ordered low ((j, r) ∷ d) o =
      ground (arith, remove-Ordered r.expires_at d o.1, Ordered-low low r.expires_at (remove i d))

  remove-Within : (high : ℕ) (d : Records) → Within high d → Within high (remove i d)
  unfolding remove
  remove-Within high [] w = tt
  remove-Within high (x ∷ d) w = ground (arith, remove-Within high d w.1)

  remove-Live : (now : ℕ) (d : Records) → Live now d → Live now (remove i d)
  unfolding remove
  remove-Live now [] w = tt
  remove-Live now (x ∷ d) w = ground (arith, remove-Live now d w.1)

module _ (i : Identity) (r : IdempotencyRecord) where
  -- A new record, at the end.
  put_new-Ordered :
      (low high : ℕ) (d : Records)
      → get i d ≡ none
      → Ordered low d
      → Within high d
      → high ≤ r.expires_at
      → low ≤ r.expires_at
      → Ordered low (put i r d)
  unfolding put get
  put_new-Ordered low high [] n o w h l = (l, tt)
  put_new-Ordered low high ((j, q) ∷ d) n o w h l =
      ground (arith, put_new-Ordered q.expires_at high d)

  -- A record rewritten in its place, at the same expiry.
  put_same-Ordered :
      (low : ℕ) (q : IdempotencyRecord) (d : Records)
      → get i d ≡ some q
      → q.expires_at ≡ r.expires_at
      → Ordered low d
      → Ordered low (put i r d)
  unfolding put get
  put_same-Ordered low q [] n e o = cc
  put_same-Ordered low q ((j, p) ∷ d) n e o = ground (arith, put_same-Ordered p.expires_at q d)

  put-Within :
      (high : ℕ) (d : Records) → Within high d → r.expires_at ≤ high → Within high (put i r d)
  unfolding put
  put-Within high [] w h = (h, tt)
  put-Within high (x ∷ d) w h = ground (arith, put-Within high d w.1)

  put-Live : (now : ℕ) (d : Records) → Live now d → is_expired now r ≡ false → Live now (put i r d)
  unfolding put
  put-Live now [] w h = (h, tt)
  put-Live now (x ∷ d) w h = ground (arith, put-Live now d w.1)

Within-high : (low high : ℕ) (d : Records) → low ≤ high → Within low d → Within high d
Within-high low high [] h w = tt
Within-high low high (x ∷ d) h w = (omega arith, Within-high low high d h w.1)

-- The store after calls up to `now`.
pub record IsOrdered (now : ℕ) (s : InMemoryIdempotencyStore) : Type 0 where
  pub ordered : Ordered 0 s.records
  pub within : Within (now + s.ttl) s.records

Within-get :
    (i : Identity) (q : IdempotencyRecord) (high : ℕ) (d : Records)
    → Within high d
    → get i d ≡ some q
    → q.expires_at ≤ high
unfolding get
Within-get i q high [] w e = cc
Within-get i q high ((j, p) ∷ d) w e = ground (arith, Within-get i q high d w.1)

removed : (i : Identity) (d : Records) → get i (remove i d) ≡ none
removed i d = ground (arith, get-remove i i d, =?_refl i)

module _ (c : ClientId) (k : IdempotencyKey) (before now : ℕ) (s : InMemoryIdempotencyStore) where
  begin-IsOrdered : before ≤ now → IsOrdered before s → IsOrdered now (begin c k now s).1
  unfolding begin create_record
  begin-IsOrdered h v =
      let i = identify c k in
      let r = create_record c k s.ttl now in
      let d = drop_expired now s.records in
      let o = drop_expired-Ordered now 0 s.records v.ordered in
      let w =
        drop_expired-Within now (now + s.ttl) s.records
          (Within-high (before + s.ttl) (now + s.ttl) s.records (omega arith) v.within) in
      ground (
        arith,
        put_new-Ordered i r 0 (now + s.ttl) (remove i d) (removed i d) (remove-Ordered i 0 d o)
            (remove-Within i (now + s.ttl) d w),
        put-Within i r (now + s.ttl) (remove i d) (remove-Within i (now + s.ttl) d w),
        o,
        w,
      )

  -- `begin` leaves no expired record in the store, refused or not.
  begin-Live : 0 < s.ttl → Ordered 0 s.records → Live now (begin c k now s).1.records
  unfolding begin create_record is_expired
  begin-Live h o =
      let i = identify c k in
      let d = drop_expired now s.records in
      let l = drop_expired-Live now 0 s.records o in
      ground (
        arith,
        l,
        put-Live i (create_record c k s.ttl now) now (remove i d) (remove-Live i now d l),
      )

  complete-IsOrdered :
      (usage : Usage) → before ≤ now → IsOrdered before s → IsOrdered now (complete c k usage now s)
  unfolding complete live complete_record
  complete-IsOrdered usage h v =
      let i = identify c k in
      let w = Within-high (before + s.ttl) (now + s.ttl) s.records (omega arith) v.within in
      elim (Option-cases (get i s.records)) [
        | inl absent ↦ ground (arith, w, v.ordered)
        | inr (q, held) ↦
            let r = record q { state = completed; usage = some usage } in
            let fits = Within-get i q (now + s.ttl) s.records w held in
            ground (
              arith,
              w,
              v.ordered,
              fits,
              put_same-Ordered i r 0 q s.records held refl v.ordered,
              put-Within i r (now + s.ttl) s.records w fits,
            )
      ]

  release-IsOrdered : before ≤ now → IsOrdered before s → IsOrdered now (release c k now s)
  unfolding release
  release-IsOrdered h v =
      let i = identify c k in
      let w = Within-high (before + s.ttl) (now + s.ttl) s.records (omega arith) v.within in
      ground (
        arith,
        w,
        v.ordered,
        remove-Ordered i 0 s.records v.ordered,
        remove-Within i (now + s.ttl) s.records w,
      )

ttl-step : (call : Call) (s : InMemoryIdempotencyStore) → (step call s).ttl ≡ s.ttl
unfolding step begin complete release
ttl-step (begins c k now) s = ground arith
ttl-step (completes c k usage now) s = ground arith
ttl-step (releases c k now) s = ground arith

step-IsOrdered :
    (call : Call) (before : ℕ) (s : InMemoryIdempotencyStore)
    → before ≤ instant call
    → IsOrdered before s
    → IsOrdered (instant call) (step call s)
unfolding step
step-IsOrdered (begins c k now) before s = begin-IsOrdered c k before now s
step-IsOrdered (completes c k usage now) before s = complete-IsOrdered c k before now s usage
step-IsOrdered (releases c k now) before s = release-IsOrdered c k before now s

-- The calls come in the order of their instants, none before `low`.
abbrev pub Timed : ℕ → List Call → Type 0
Timed low [] = Unit
Timed low (call ∷ calls) = (low ≤ instant call) × Timed (instant call) calls

run-Ordered :
    (calls : List Call) (before : ℕ) (s : InMemoryIdempotencyStore)
    → Timed before calls
    → IsOrdered before s
    → Ordered 0 (run calls s).records
unfolding run
run-Ordered [] before s t v = v.ordered
run-Ordered (call ∷ calls) before s t v =
    run-Ordered calls (instant call) (step call s) t.1 (step-IsOrdered call before s t.0 v)

ttl-run : (calls : List Call) (s : InMemoryIdempotencyStore) → (run calls s).ttl ≡ s.ttl
unfolding run
ttl-run [] s = refl
ttl-run (call ∷ calls) s = ttl-run calls (step call s) ∙ ttl-step call s

abbrev pub empty : ℕ → InMemoryIdempotencyStore
empty ttl = record { ttl = ttl; records = [] }

-- A store with a positive TTL that has seen any calls in the order of time holds, right after a
-- `begin`, refused or not, no expired record.
pub begin_drops_expired :
    (ttl : ℕ) (calls : List Call) (c : ClientId) (k : IdempotencyKey) (now : ℕ)
    → 0 < ttl
    → Timed 0 calls
    → Live now (begin c k now (run calls (empty ttl))).1.records
begin_drops_expired ttl calls c k now h t =
    begin-Live c k 0 now (run calls (empty ttl)) (rw ttl-run h)
      (run-Ordered calls 0 (empty ttl) t (record { ordered = tt; within = tt }))
