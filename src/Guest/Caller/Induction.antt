-- ===== src/Guest/Caller/Induction.antt =====
-- Induction on the rounds of `_call` (guest_reply/clients/http.py).
use holahost.Base.{
  ℕ, String, zero, suc, ◌≤◌, ◌≡◌, refl, Bool, true, false, Option, none, some, ◌∷◌, Result, ok, err,
  and_then, if◌then◌else◌, arith,
}
use holahost.Base.Int.{ℤ}
use holahost.Base.Action.{pure, raise, continue, ◌>>=◌, ◌>>◌}
use holahost.Guest.Errors.{Raised, failed}
use holahost.Guest.World.{World, M, Request, Response, Outcome}
use holahost.Guest.Caller.{
  Env, ServiceCaller, Call, max_retry_after, envelope, Envelope, is_success, error_of,
  rate_limit_wait, request_of, wait_out, send_once, received, refuse, call_left,
}

rate_limit_wait-Short :
    (int : String → Option ℤ) (response : Response) (e : Option Envelope) (seconds : ℕ)
    → rate_limit_wait int response e ≡ some seconds
    → seconds ≤ max_retry_after
unfolding rate_limit_wait
rate_limit_wait-Short int response e seconds h = ground (arith, h)

-- The world once the request is sent.
abbrev pub once_sent : Request → World → World
once_sent request w = record w { sent = request ∷ w.sent }

module _ (env : Env) (caller : ServiceCaller) (call : Call) where
  abbrev pub judged : Bool → Response → Result Raised Response
  judged true response = ok response
  judged false response = err (failed (error_of response (envelope response) caller.origin) none)

  -- What is made of a last answer: a success is returned, anything else is raised.
  unfoldable pub verdict : Outcome → Result Raised Response
  verdict outcome =
      and_then (received caller.origin outcome) (λ response. judged (is_success response) response)

  abbrev pub stopped : World → Result Raised Response × World
  stopped w =
      let request = request_of caller call in
      (verdict (env.answer w.sent request), once_sent request w)

  module _ (P : ℕ → World → Result Raised Response × World → Type 0)
      (stop : (left : ℕ) (w : World) → P left w (stopped w))
      (again : (left seconds : ℕ) (w : World) (result : Result Raised Response × World)
        → seconds ≤ max_retry_after
        → P left (wait_out seconds (once_sent (request_of caller call) w)).1 result
        → P (suc left) w result) where
    judged-zero :
        (success : Bool) (response : Response) (w w' : World)
        → P 0 w (judged success response, w')
        → P 0 w ((if success then pure response else refuse caller response) w')
    unfolding pure raise refuse
    judged-zero true response w w' h = h
    judged-zero false response w w' h = h

    received-zero :
        (r : Result Raised Response) (w w' : World)
        → P 0 w (and_then r (λ response. judged (is_success response) response), w')
        → P 0 w (
            continue r
              (λ response. if is_success response then pure response else refuse caller response)
              w')
    received-zero (err e) w w' h = h
    received-zero (ok response) w w' h = judged-zero (is_success response) response w w' h

    judged-suc :
        (left : ℕ) (success : Bool) (response : Response) (wait : Option ℕ) (next : M Response)
        (w w' : World)
        → P (suc left) w (judged success response, w')
        → ((seconds : ℕ) → wait ≡ some seconds → P (suc left) w ((wait_out seconds >> next) w'))
        → P (suc left) w (
            (if success then pure response else (elim wait as (λ _. M Response) [
              | none ↦ refuse caller response
              | some seconds ↦ wait_out seconds >> next
            ]))
              w')
    unfolding pure raise refuse
    judged-suc left true response wait next w w' h k = h
    judged-suc left false response none next w w' h k = h
    judged-suc left false response (some seconds) next w w' h k = k seconds refl

    received-suc :
        (left : ℕ) (r : Result Raised Response) (next : M Response) (w w' : World)
        → P (suc left) w (and_then r (λ response. judged (is_success response) response), w')
        → ((seconds : ℕ)
            → seconds ≤ max_retry_after
            → P (suc left) w ((wait_out seconds >> next) w'))
        → P (suc left) w (
            continue r
              (λ response.
                if is_success response
                then pure response
                else elim (rate_limit_wait env.int response (envelope response)) [
                  | none ↦ refuse caller response
                  | some wait ↦ wait_out wait >> next
                ])
              w')
    received-suc left (err e) next w w' h k = h
    received-suc left (ok response) next w w' h k =
        judged-suc left (is_success response) response _ next w w' h (λ seconds e.
          k seconds (rate_limit_wait-Short env.int response (envelope response) seconds e))

    pub call_left_ind : (left : ℕ) (w : World) → P left w (call_left env caller left call w)
    unfolding call_left ◌>>=◌ send_once verdict wait_out
    call_left_ind zero w = received-zero _ w _ (stop 0 w)
    call_left_ind (suc left) w =
        received-suc left _ (call_left env caller left call) w _ (stop (suc left) w)
          (λ seconds h. again left seconds w _ h (call_left_ind left _))
