-- ===== src/Base/Dict.antt =====
-- Python's `dict`, in insertion order: a written key keeps its place, a new one goes to the end.
use holahost.Base.{
  ◌≡◌, refl, Bool, true, false, Option, none, some, List, [], ◌∷◌, ◌++◌, arith, if◌then◌else◌,
  is_some, All, if-cases,
}
use holahost.Base.Equality.{Eq, ◌=?◌}

abbrev pub Dict {ℓ κ} : Type ℓ → Type κ → Type (ℓ ⊔ κ)
Dict K V = List (K × V)

pub =?_refl {ℓ} : {K : Type ℓ} ⦃e : Eq K⦄ (k : K) → (k =? k) ≡ true
=?_refl ⦃e⦄ k = (e.beq_iff k k).1 refl

module _ {ℓ κ} {K : Type ℓ} {V : Type κ} ⦃e : Eq K⦄ where
  -- `d.get(k)`
  unfoldable pub get : K → Dict K V → Option V
  get k [] = none
  get k ((j, v) ∷ d) = if k =? j then some v else get k d

  -- `d[k] = v`
  unfoldable pub put : K → V → Dict K V → Dict K V
  put k v [] = (k, v) ∷ []
  put k v ((j, w) ∷ d) = if k =? j then (k, v) ∷ d else (j, w) ∷ put k v d

  -- `d.pop(k, None)`, `del d[k]`
  unfoldable pub remove : K → Dict K V → Dict K V
  remove k [] = []
  remove k ((j, v) ∷ d) = let rest = remove k d in if k =? j then rest else (j, v) ∷ rest

  -- `k in d`
  abbrev pub contains : K → Dict K V → Bool
  contains k d = is_some (get k d)

  pub get-put :
      (k j : K) (v : V) (d : Dict K V) → get j (put k v d) ≡ (if j =? k then some v else get j d)
  unfolding get put
  get-put k j v [] = refl
  get-put k j v ((i, w) ∷ d) =
      ground (arith, e.beq_iff k i, e.beq_iff j i, e.beq_iff j k, get-put k j v d)

  pub get-remove :
      (k j : K) (d : Dict K V) → get j (remove k d) ≡ (if j =? k then none else get j d)
  unfolding get remove
  get-remove k j [] = ground arith
  get-remove k j ((i, w) ∷ d) =
      ground (arith, e.beq_iff k i, e.beq_iff j i, e.beq_iff j k, get-remove k j d)

  pub get-append :
      (j : K) (c d : Dict K V) → get j (c ++ d) ≡ (if is_some (get j c) then get j c else get j d)
  unfolding get
  get-append j [] d = refl
  get-append j ((i, w) ∷ c) d = ground (arith, get-append j c d)

  pub get-put_self : (k : K) (v : V) (d : Dict K V) → get k (put k v d) ≡ some v
  get-put_self k v d = ground (arith, get-put k k v d, =?_refl k)

  -- No key stands twice.
  abbrev pub Distinct : Dict K V → Type 0
  Distinct [] = Unit
  Distinct ((k, v) ∷ d) = (is_some (get k d) ≡ false) × Distinct d

  pub put-Distinct : (k : K) (v : V) (d : Dict K V) → Distinct d → Distinct (put k v d)
  unfolding put get
  put-Distinct k v [] h = (refl, tt)
  put-Distinct k v ((j, w) ∷ d) h =
      ground (arith, e.beq_iff k j, e.beq_iff j k, put-Distinct k v d h.1, get-put k j v d)

  pub remove-Distinct : (k : K) (d : Dict K V) → Distinct d → Distinct (remove k d)
  unfolding remove get
  remove-Distinct k [] h = tt
  remove-Distinct k ((j, w) ∷ d) h = ground (arith, remove-Distinct k d h.1, get-remove k j d)

  pub append-Distinct :
      (k : K) (v : V) (d : Dict K V)
      → Distinct d
      → is_some (get k d) ≡ false
      → Distinct (d ++ (k, v) ∷ [])
  unfolding get
  append-Distinct k v [] h n = (refl, tt)
  append-Distinct k v ((j, w) ∷ d) h n =
      ground (
        arith,
        e.beq_iff k j,
        e.beq_iff j k,
        append-Distinct k v d h.1,
        get-append j d ((k, v) ∷ []),
      )

-- What holds of every value holds of one that is found, and after one that it holds of is put.
abbrev pub Holds {ℓ κ} : {V : Type ℓ} → (V → Type κ) → Option V → Type κ
Holds Q none = Unit
Holds Q (some v) = Q v

module _ {ℓ κ μ} {K : Type ℓ} {V : Type κ} ⦃e : Eq K⦄ (Q : V → Type μ) where
  pub get-Holds : (k : K) (d : Dict K V) → All (λ (e : K × V). Q e.1) d → Holds Q (get k d)
  unfolding get
  get-Holds k [] h = tt
  get-Holds k ((j, v) ∷ d) h =
      if-cases (Holds Q) (k =? j) (some v) (get k d) (λ _. h.0) (λ _. get-Holds k d h.1)

  pub put-All :
      (k : K) (v : V) (d : Dict K V)
      → Q v
      → All (λ (e : K × V). Q e.1) d
      → All (λ (e : K × V). Q e.1) (put k v d)
  unfolding put
  put-All k v [] q h = (q, tt)
  put-All k v ((j, w) ∷ d) q h =
      if-cases (All (λ (e : K × V). Q e.1)) (k =? j) ((k, v) ∷ d) ((j, w) ∷ put k v d)
        (λ _. (q, h.1)) (λ _. (h.0, put-All k v d q h.1))
