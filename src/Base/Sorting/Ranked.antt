-- ===== src/Base/Sorting/Ranked.antt =====
-- What a sorted and limited list has of the list that it is taken from.
use mathlib.Core.Path.{subst, sym}
use mathlib.Core.List.{Memᴰ}
use mathlib.Core.List.Memᴰ.{head, tail}
use holahost.Base.{
  ℕ, zero, suc, ◌≤◌, ◌≡◌, refl, ap, List, [], ◌∷◌, leb, length, All, arith, leb→le, if-cases, ◌⊎◌,
  inl, inr,
}
use holahost.Base.Sorting.{insert, sort_by, IsSorted, take, take-All}

module _ {ℓ} {A : Type ℓ} (key : A → ℕ) where
  insert-All {κ} : (P : A → Type κ) (x : A) (ys : List A) → P x → All P ys → All P (insert key x ys)
  unfolding insert
  insert-All P x [] p h = (p, tt)
  insert-All P x (y ∷ ys) p h =
      if-cases (All P) (leb (key x) (key y)) (x ∷ y ∷ ys) (y ∷ insert key x ys) (λ _. (p, h))
        (λ _. (h.0, insert-All P x ys p h.1))

  at_most-All : (m n : ℕ) (ys : List A) → m ≤ n → All (λ z. n ≤ key z) ys → All (λ z. m ≤ key z) ys
  at_most-All m n [] h k = tt
  at_most-All m n (y ∷ ys) h k = (omega (arith, h, k.0), at_most-All m n ys h k.1)

  insert-IsSorted : (x : A) (ys : List A) → IsSorted key ys → IsSorted key (insert key x ys)
  unfolding insert
  insert-IsSorted x [] h = (tt, tt)
  insert-IsSorted x (y ∷ ys) h =
      if-cases (IsSorted key) (leb (key x) (key y)) (x ∷ y ∷ ys) (y ∷ insert key x ys)
        (λ e. let l = leb→le (key x) (key y) e in ((l, at_most-All (key x) (key y) ys l h.0), h))
        (λ e.
          (insert-All (λ z. key y ≤ key z) x ys (ground (arith, e)) h.0, insert-IsSorted x ys h.1))

  pub sort_by-IsSorted : (xs : List A) → IsSorted key (sort_by key xs)
  unfolding sort_by
  sort_by-IsSorted [] = tt
  sort_by-IsSorted (x ∷ xs) = insert-IsSorted x (sort_by key xs) (sort_by-IsSorted xs)

  pub sort_by-All {κ} : (P : A → Type κ) (xs : List A) → All P xs → All P (sort_by key xs)
  unfolding sort_by
  sort_by-All P [] h = tt
  sort_by-All P (x ∷ xs) h = insert-All P x (sort_by key xs) h.0 (sort_by-All P xs h.1)

  pub take-IsSorted : (k : ℕ) (xs : List A) → IsSorted key xs → IsSorted key (take k xs)
  unfolding take
  take-IsSorted zero xs h = tt
  take-IsSorted (suc k) [] h = tt
  take-IsSorted (suc k) (x ∷ xs) h = (take-All _ k xs h.0, take-IsSorted k xs h.1)

  insert-Mem : (z x : A) (ys : List A) → Memᴰ z (x ∷ ys) → Memᴰ z (insert key x ys)
  unfolding insert
  insert-Mem z x [] m = m
  insert-Mem z x (y ∷ ys) (head e) =
      if-cases (Memᴰ z) (leb (key x) (key y)) (x ∷ y ∷ ys) (y ∷ insert key x ys) (λ _. head e)
        (λ _. tail (insert-Mem z x ys (head e)))
  insert-Mem z x (y ∷ ys) (tail (head e)) =
      if-cases (Memᴰ z) (leb (key x) (key y)) (x ∷ y ∷ ys) (y ∷ insert key x ys)
        (λ _. tail (head e)) (λ _. head e)
  insert-Mem z x (y ∷ ys) (tail (tail m)) =
      if-cases (Memᴰ z) (leb (key x) (key y)) (x ∷ y ∷ ys) (y ∷ insert key x ys)
        (λ _. tail (tail m)) (λ _. tail (insert-Mem z x ys (tail m)))

  pub sort_by-Mem : (z : A) (xs : List A) → Memᴰ z xs → Memᴰ z (sort_by key xs)
  unfolding sort_by
  sort_by-Mem z [] m = elim m [ ]
  sort_by-Mem z (x ∷ xs) (head e) = insert-Mem z x (sort_by key xs) (head e)
  sort_by-Mem z (x ∷ xs) (tail m) = insert-Mem z x (sort_by key xs) (tail (sort_by-Mem z xs m))

  All-Mem {κ} : (P : A → Type κ) (z : A) (ys : List A) → All P ys → Memᴰ z ys → P z
  All-Mem P z [] h m = elim m [ ]
  All-Mem P z (y ∷ ys) h (head e) = subst P (sym e) h.0
  All-Mem P z (y ∷ ys) h (tail m) = All-Mem P z ys h.1 m

  -- It is among the first `k`, or these are as many and none of them has a greater key.
  abbrev pub Best : ℕ → A → List A → Type ℓ
  Best k z ys = Memᴰ z ys ⊎ ((length ys ≡ k) × All (λ y. key y ≤ key z) ys)

  pub take-Best : (k : ℕ) (z : A) (ys : List A) → IsSorted key ys → Memᴰ z ys → Best k z (take k ys)
  unfolding take
  take-Best zero z ys h m = inr (refl, tt)
  take-Best (suc k) z [] h m = elim m [ ]
  take-Best (suc k) z (y ∷ ys) h (head e) = inl (head e)
  take-Best (suc k) z (y ∷ ys) h (tail m) = elim (take-Best k z ys h.1 m) [
    | inl found ↦ inl (tail found)
    | inr (full, below) ↦ inr (ap suc full, (All-Mem (λ x. key y ≤ key x) z ys h.0 m, below))
  ]
