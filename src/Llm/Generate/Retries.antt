-- ===== src/Llm/Generate/Retries.antt =====
-- The bounded retry of a transaction that lost a conflict.
use holahost.Base.{ℕ, zero, suc, ◌≤◌, ◌≡◌, refl, ◌⊎◌, inl, inr, true, false, arith}
use holahost.Llm.Generate.Data.{M, State}
use holahost.Llm.Generate.Calls.{is_conflict, retry_on_concurrent_update}

module _ {A : Type 0} (m : M A) where
  -- The state after so many runs.
  unfoldable pub after : ℕ → State → State
  after zero s = s
  after (suc k) s = after k (m s).1

  -- The first so many runs all end in a conflict.
  abbrev pub Conflicts : ℕ → State → Type 0
  Conflicts zero s = Unit
  Conflicts (suc k) s = (is_conflict (m s).0 ≡ true) × Conflicts k (m s).1

  -- What the retry returns and leaves is what the first run that is no conflict does, after the ones
  -- before it, or the last run that is allowed if all are: of at most `retries` more than one.
  pub retry-after :
      (retries k : ℕ) (s : State)
      → k ≤ retries
      → Conflicts k s
      → (k ≡ retries) ⊎ (is_conflict (m (after k s)).0 ≡ false)
      → retry_on_concurrent_update retries m s ≡ m (after k s)
  unfolding retry_on_concurrent_update after
  retry-after zero zero s h c o = refl
  retry-after zero (suc k) s h c o = absurd (omega (arith, h))
  retry-after (suc retries) zero s h c (inl e) = absurd (omega (arith, e))
  retry-after (suc retries) zero s h c (inr e) = ground (arith, e)
  retry-after (suc retries) (suc k) s h c (inl e) =
      ground
        (arith, c.0, retry-after retries k (m s).1 (omega (arith, h)) c.1 (inl (omega (arith, e))))
  retry-after (suc retries) (suc k) s h c (inr e) =
      ground (arith, c.0, retry-after retries k (m s).1 (omega (arith, h)) c.1 (inr e))
