-- ===== src/Db/Retry.antt =====
-- libs/holahost-db/holahost_db/retry.py, of any action and what counts as its conflict.
use holahost.Base.{ℕ, zero, suc, Bool, Result, if◌then◌else◌}
use holahost.Base.Action.{Action}

abbrev pub default_max_retries : ℕ
default_max_retries = 2

-- A first failure may be retried: `retry_on_concurrent_update`, of what is left of its retries.
unfoldable pub retry_on_concurrent_update :
    {S E A : Type 0} → (Result E A → Bool) → ℕ → Action S E A → Action S E A
retry_on_concurrent_update is_conflict zero fn s = fn s
retry_on_concurrent_update is_conflict (suc left) fn s =
    let (r, s') = fn s in
    let again = retry_on_concurrent_update is_conflict left fn s' in
    if is_conflict r then again else (r, s')
