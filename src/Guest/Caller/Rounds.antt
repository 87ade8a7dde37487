-- ===== src/Guest/Caller/Rounds.antt =====
-- The `while True` loop of `_call` (guest_reply/clients/http.py), one round after another.
use holahost.Base.{
  ℕ, zero, suc, ◌+◌, ◌<◌, ◌≡◌, refl, Option, none, some, Result, ok, err, ◌==◌, if◌then◌else◌,
  arith,
}
use holahost.Base.Action.{pure, raise, ◌>>=◌, ◌>>◌}
use holahost.Guest.Errors.{Raised}
use holahost.Guest.World.{World, M, Response}
use holahost.Guest.Caller.{
  Env, ServiceCaller, Call, retry_on_429_max, envelope, is_success, rate_limit_wait, wait_out,
  send_once, refuse, call_left, call_service,
}

module _ (env : Env) (caller : ServiceCaller) where
  -- One round of the loop after so many waits: what is returned, unless the loop goes on.
  unfoldable pub round : ℕ → Call → M (Option Response)
  round waits call = do
    response ← send_once env caller call
    if is_success response
        then pure (some response)
        else elim (rate_limit_wait env.int response (envelope response)) [
          | none ↦ refuse caller response
          | some wait ↦
              if waits == retry_on_429_max
              then refuse caller response
              else (wait_out wait >> pure none)
        ]

  abbrev pub after_round :
      (World → Option (Result Raised Response × World))
      → Result Raised (Option Response) × World
      → Option (Result Raised Response × World)
  after_round next (ok (some response), w) = some (ok response, w)
  after_round next (ok none, w) = next w
  after_round next (err e, w) = some (err e, w)

  -- The loop for at most so many rounds, with nothing where it has not ended by then
  unfoldable pub while_true : ℕ → ℕ → Call → World → Option (Result Raised Response × World)
  while_true zero waits call w = none
  while_true (suc rounds) waits call w =
      after_round (while_true rounds (suc waits) call) (round waits call w)

  while_true-call_left :
      (rounds waits left : ℕ) (call : Call) (w : World)
      → left < rounds
      → waits + left ≡ retry_on_429_max
      → while_true rounds waits call w ≡ some (call_left env caller left call w)
  unfolding while_true round call_left ◌>>=◌ pure raise refuse wait_out send_once
  while_true-call_left zero waits left call w h e = absurd (omega (arith, h))
  while_true-call_left (suc rounds) waits zero call w h e = ground arith
  while_true-call_left (suc rounds) waits (suc left) call w h e =
      grind (arith, while_true-call_left rounds (suc waits) left call)

  -- Four rounds end the `while True` loop of a call, whatever is answered, and more change nothing:
  -- it returns or raises what `call_service` does, and leaves the world as that does.
  pub while_true-call_service :
      (rounds : ℕ) (call : Call) (w : World)
      → retry_on_429_max < rounds
      → while_true rounds 0 call w ≡ some (call_service env caller call w)
  unfolding call_service
  while_true-call_service rounds call w h =
      while_true-call_left rounds 0 retry_on_429_max call w h refl
