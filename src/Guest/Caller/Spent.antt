-- ===== src/Guest/Caller/Spent.antt =====
-- What one call of guest-reply spends (guest_reply/clients/http.py): its requests and its waits.
use holahost.Base.{
  ℕ, zero, suc, ◌≤◌, ◌≡◌, refl, List, [], ◌∷◌, ◌++◌, Result, arith, All, All-append, length,
  length-append, sym, ap, ◌∙◌,
}
use mathlib.Core.List.{append_assoc}
use holahost.Guest.Errors.{Raised}
use holahost.Guest.World.{World, Request, Response}
use holahost.Guest.Caller.Induction.{once_sent, verdict, call_left_ind}
use holahost.Guest.Caller.{
  Env, ServiceCaller, Call, retry_on_429_max, max_retry_after, request_of, wait_out, call_left,
  call_service,
}

-- The request, so many times, before the others.
abbrev pub copies : ℕ → Request → List Request → List Request
copies zero request sent = sent
copies (suc n) request sent = request ∷ copies n request sent

length-snoc : (xs : List ℕ) (x : ℕ) → length (xs ++ (x ∷ [])) ≡ suc (length xs)
length-snoc [] x = refl
length-snoc (y ∷ xs) x = ap suc (length-snoc xs x)

copies-copies :
    (n : ℕ) (r : Request) (sent : List Request) → copies n r (r ∷ sent) ≡ r ∷ copies n r sent
copies-copies zero r sent = refl
copies-copies (suc n) r sent = ap (λ rest. r ∷ rest) (copies-copies n r sent)

-- From the first world to the second: at most so many waits, none of them longer than a minute, and
-- the request sent once more than that. Nothing is printed on stdout.
pub record Spends (request : Request) (left : ℕ) (w w' : World) : Type 0 where
  pub waits : List ℕ
  pub few : length waits ≤ left
  pub short : All (λ seconds. seconds ≤ max_retry_after) waits
  pub waited : w'.waited ≡ waits ++ w.waited
  pub sent : w'.sent ≡ copies (suc (length waits)) request w.sent
  pub silent : w'.stdout ≡ w.stdout

module _ (request : Request) (w : World) where
  once-Spends : (left : ℕ) → Spends request left w (once_sent request w)
  once-Spends left = record {
    waits = [];
    few = omega arith;
    short = tt;
    waited = refl;
    sent = refl;
    silent = refl;
  }

  again-Spends :
      (left seconds : ℕ) (w' : World)
      → seconds ≤ max_retry_after
      → Spends request left (wait_out seconds (once_sent request w)).1 w'
      → Spends request (suc left) w w'
  unfolding wait_out
  again-Spends left seconds w' s h = record {
    waits = h.waits ++ (seconds ∷ []);
    few = omega (arith, h.few, length-append h.waits (seconds ∷ []));
    short = All-append (λ s. s ≤ max_retry_after) h.waits (seconds ∷ []) h.short (s, tt);
    waited = cc (h.waited, append_assoc h.waits (seconds ∷ []) w.waited);
    sent =
        h.sent
        ∙ ap (λ rest. request ∷ rest)
            (copies-copies (length h.waits) request w.sent
              ∙ ap (λ n. copies n request w.sent) (sym (length-snoc h.waits seconds)));
    silent = h.silent;
  }

module _ (env : Env) (caller : ServiceCaller) (call : Call) where
  pub call_left-Spends :
      (left : ℕ) (w : World)
      → Spends (request_of caller call) left w (call_left env caller left call w).1
  call_left-Spends =
      call_left_ind env caller call
        (λ left w (r : Result Raised Response × World). Spends (request_of caller call) left w r.1)
        (λ left w. once-Spends (request_of caller call) w left)
        (λ left seconds w r s h. again-Spends (request_of caller call) w left seconds r.1 s h)

  -- The last answer, which its request is the last one sent for, decides.
  pub record Settled (w' : World) (r : Result Raised Response) : Type 0 where
    pub earlier : List Request
    pub last_sent : w'.sent ≡ request_of caller call ∷ earlier
    pub decided : r ≡ verdict env caller call (env.answer earlier (request_of caller call))

  pub call_left-Settled :
      (left : ℕ) (w : World) → let (r, w') = call_left env caller left call w in Settled w' r
  call_left-Settled =
      call_left_ind env caller call (λ left w (r : Result Raised Response × World). Settled r.1 r.0)
        (λ left w. record { earlier = w.sent; last_sent = refl; decided = refl })
        (λ left seconds w r s h. h)

  -- A call sends its one request at least once and at most four times, waits once between two of
  -- them, never longer than a minute, and prints nothing on stdout.
  pub call_service-Spends :
      (w : World)
      → Spends (request_of caller call) retry_on_429_max w (call_service env caller call w).1
  unfolding call_service
  call_service-Spends = call_left-Spends retry_on_429_max

  pub call_service-Settled :
      (w : World) → let (r, w') = call_service env caller call w in Settled w' r
  unfolding call_service
  call_service-Settled = call_left-Settled retry_on_429_max
