-- ===== src/Http/RateLimiter/Eviction.antt =====
-- `move_to_end` and the eviction loop on any ordered dictionary.
use holahost.Base.{ℕ, ◌≤◌, ◌≡◌, refl, ◌⊎◌, inl, false, none, some, [], ◌∷◌, ◌++◌, arith, length}
use holahost.Base.Equality.{Eq, ◌=?◌}
use holahost.Base.Dict.{
  Dict, get, put, remove, get-put, get-put_self, get-remove, get-append, Distinct, put-Distinct,
  remove-Distinct, append-Distinct, =?_refl,
}
use holahost.Http.RateLimiter.{evict, move_to_end}

pub length-evict {ℓ κ} :
    {K : Type ℓ} {V : Type κ} (limit : ℕ) (d : Dict K V) → length (evict limit d) ≤ limit
unfolding evict
length-evict limit [] = omega arith
length-evict limit (x ∷ d) = ground (arith, length-evict limit d)

module _ {ℓ κ} {K : Type ℓ} {V : Type κ} ⦃e : Eq K⦄ where
  -- The last entry survives the eviction while the ceiling is at least one.
  get-evict_last :
      (limit : ℕ) (k : K) (v : V) (d : Dict K V)
      → 1 ≤ limit
      → get k d ≡ none
      → get k (evict limit (d ++ (k, v) ∷ [])) ≡ some v
  unfolding evict get
  get-evict_last limit k v [] h n = ground (arith, =?_refl k)
  get-evict_last limit k v ((j, w) ∷ d) h n =
      ground (arith, =?_refl k, get-append k d ((k, v) ∷ []), get-evict_last limit k v d h)

  -- Eviction only forgets.
  get-evict :
      (limit : ℕ) (k : K) (d : Dict K V)
      → Distinct d
      → (get k (evict limit d) ≡ none) ⊎ (get k (evict limit d) ≡ get k d)
  unfolding evict get
  get-evict limit k [] h = inl refl
  get-evict limit k ((j, w) ∷ d) h = ground (arith, e.beq_iff k j, get-evict limit k d h.1)

  evict-Distinct : (limit : ℕ) (d : Dict K V) → Distinct d → Distinct (evict limit d)
  unfolding evict
  evict-Distinct limit [] h = tt
  evict-Distinct limit (x ∷ d) h = ground (arith, evict-Distinct limit d h.1)

  -- A write that moves its key to the end, as `check` makes it.
  abbrev pub touch : ℕ → K → V → Dict K V → Dict K V
  touch limit k v d = evict limit (move_to_end k (put k v d))

  moved :
      (k : K) (v : V) (d : Dict K V)
      → move_to_end k (put k v d) ≡ remove k (put k v d) ++ (k, v) ∷ []
  unfolding move_to_end
  moved k v d = rw (get-put_self k v d, move_to_end)

  removed : (k : K) (d : Dict K V) → get k (remove k d) ≡ none
  removed k d = ground (arith, get-remove k k d, =?_refl k)

  pub get-touch_self :
      (limit : ℕ) (k : K) (v : V) (d : Dict K V) → 1 ≤ limit → get k (touch limit k v d) ≡ some v
  get-touch_self limit k v d h =
      rw (moved k v d) (get-evict_last limit k v (remove k (put k v d)) h (removed k (put k v d)))

  moved-Distinct :
      (k : K) (v : V) (d : Dict K V) → Distinct d → Distinct (move_to_end k (put k v d))
  moved-Distinct k v d h = rw (moved k v d) (
      append-Distinct k v (remove k (put k v d)) (remove-Distinct k _ (put-Distinct k v d h))
        (rw (removed k (put k v d)) refl))

  pub touch-Distinct :
      (limit : ℕ) (k : K) (v : V) (d : Dict K V) → Distinct d → Distinct (touch limit k v d)
  touch-Distinct limit k v d h = evict-Distinct limit _ (moved-Distinct k v d h)

  get-moved :
      (k j : K) (v : V) (d : Dict K V)
      → (k =? j) ≡ false
      → (j =? k) ≡ false
      → get j (move_to_end k (put k v d)) ≡ get j d
  unfolding get
  get-moved k j v d n m = rw (moved k v d) (
      ground (
        arith,
        get-append j (remove k (put k v d)) ((k, v) ∷ []),
        get-remove k j (put k v d),
        get-put k j v d,
      ))

  pub get-touch_ne :
      (limit : ℕ) (k j : K) (v : V) (d : Dict K V)
      → Distinct d
      → (j =? k) ≡ false
      → (get j (touch limit k v d) ≡ none) ⊎ (get j (touch limit k v d) ≡ get j d)
  get-touch_ne limit k j v d h n = ground (
    arith,
    get-evict limit j (move_to_end k (put k v d)) (moved-Distinct k v d h),
    get-moved k j v d,
    e.beq_iff k j,
    e.beq_iff j k,
  )
