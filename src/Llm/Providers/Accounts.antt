-- ===== src/Llm/Providers/Accounts.antt =====
-- What becomes of every end of a vendor's call (infrastructure/providers).
use holahost.Base.{
  ℕ, ◌≡◌, ◌≢◌, ◌≤◌, refl, sym, ap, and_then, ◌⊎◌, inl, inr, String, true, false, Option, none, some,
  List, Result, ok, err, arith, if-cases,
}
use mathlib.Core.Path.{subst}
use holahost.Base.Int.{ℤ, pos, negsuc, ltb_ℤ}
use holahost.Base.Equality.{string_eq, pair_eq}
use holahost.Base.Dict.{get}
use holahost.Auth.{Json, text, null, boolean, number, array, object, member_of}
use holahost.Llm.Values.{DomainValidationError, Message, Usage, FinishReason, make_token_count}
use holahost.Llm.Entities.{Model}
use holahost.Llm.Generate.Data.{Outcome, answered, transient, rejected, refused}
use holahost.Llm.Dialects.{
  Env, Reply, Failure, api_connection_error, api_status_error, other_error, ChatModel,
  anthropic_dialect, dialects, is_given, is_refusal_reason, is_transient_status, translate_failure,
}
use holahost.Llm.Providers.{
  LangchainGenerationProvider, Defect, prompt_of, generate, concluded, with_figures, paid, usage_of,
  domain,
}

-- The vendor's own figures stand in the answer.
abbrev pub IsMetered : Reply → ℕ → ℕ → Type 0
IsMetered reply input output =
    (reply.usage_metadata ≡ some (pos input, pos output))
    × (is_given (member_of "usage" reply.response_metadata) ≡ true)

abbrev usage : ℕ → ℕ → Usage
usage input output = record {
  input_tokens = record { value = input };
  output_tokens = record { value = output };
}

-- A status with which a repeat may succeed.
abbrev pub IsTemporary : ℕ → Type 0
IsTemporary status = ((status ≡ 408) ⊎ (status ≡ 409)) ⊎ ((status ≡ 429) ⊎ (500 ≤ status))

-- The port's account of how a call of Anthropic's model ended.
pub data Accounted : Result Failure Reply → Result Defect Outcome → Type 0 where
  -- the model declined: the spend is kept
  declined :
      (reply : Reply) (input output : ℕ)
      → IsMetered reply input output
      → member_of "stop_reason" reply.response_metadata ≡ some (text "refusal")
      → Accounted (ok reply) (ok (refused (usage input output)))
  -- any other metered answer is given, whatever its stop reason
  paid_answer :
      (reply : Reply) (input output : ℕ) (reason : FinishReason)
      → IsMetered reply input output
      → member_of "stop_reason" reply.response_metadata ≢ some (text "refusal")
      → Accounted (ok reply) (
          ok (
            answered
              (record { text = reply.text; usage = usage input output; finish_reason = reason })))
  unmetered :
      (reply : Reply)
      → (reply.usage_metadata ≡ none)
        ⊎ (is_given (member_of "usage" reply.response_metadata) ≡ false)
      → Accounted (ok reply) (ok (rejected (record { status = none })))
  negative_count :
      (reply : Reply) (input output : ℤ) (e : DomainValidationError)
      → reply.usage_metadata ≡ some (input, output)
      → (ltb_ℤ input (pos 0) ≡ true) ⊎ (ltb_ℤ output (pos 0) ≡ true)
      → Accounted (ok reply) (err (domain e))
  unconnected : Accounted (err api_connection_error) (ok (transient none none))
  temporary :
      (status : ℕ) (header : Option String) (after : Option ℤ)
      → IsTemporary status
      → Accounted (err (api_status_error status header)) (ok (transient (some status) after))
  lasting :
      (status : ℕ) (header : Option String)
      → (IsTemporary status → ⊥)
      → Accounted
          (err (api_status_error status header))
          (ok (rejected (record { status = some status })))
  defective : Accounted (err other_error) (ok (rejected (record { status = none })))

is_transient-Temporary : (status : ℕ) → is_transient_status status ≡ true → IsTemporary status
unfolding is_transient_status
is_transient-Temporary status h = ground (arith, h)

is_transient-Lasting : (status : ℕ) → is_transient_status status ≡ false → IsTemporary status → ⊥
unfolding is_transient_status
is_transient-Lasting status h t = ground (arith, h, t)

failed-Accounted :
    (float : String → Option ℤ) (failure : Failure)
    → Accounted (err failure) (ok (translate_failure float failure))
unfolding translate_failure
failed-Accounted float api_connection_error = unconnected
failed-Accounted float (api_status_error status header) =
    if-cases (λ o. Accounted (err (api_status_error status header)) (ok o))
      (is_transient_status status) _ _
      (λ h. temporary status header _ (is_transient-Temporary status h))
      (λ h. lasting status header (is_transient-Lasting status h))
failed-Accounted float other_error = defective

refusal-stop_reason : (o : Option Json) → is_refusal_reason o ≡ true → o ≡ some (text "refusal")
refusal-stop_reason none h = ground (arith, h)
refusal-stop_reason (some (text reason)) h =
    ap (λ s. some (text s)) ((string_eq.beq_iff reason "refusal").0 h)
refusal-stop_reason (some null) h = ground (arith, h)
refusal-stop_reason (some (boolean b)) h = ground (arith, h)
refusal-stop_reason (some (number n)) h = ground (arith, h)
refusal-stop_reason (some (array items)) h = ground (arith, h)
refusal-stop_reason (some (object members)) h = ground (arith, h)

stop_reason-refusal : (o : Option Json) → o ≡ some (text "refusal") → is_refusal_reason o ≡ true
stop_reason-refusal o e = subst (λ x. is_refusal_reason x ≡ true) (sym e) refl

paid-Accounted :
    (reply : Reply) (input output : ℕ)
    → IsMetered reply input output
    → Accounted (ok reply) (ok (paid anthropic_dialect reply (usage input output)))
unfolding paid anthropic_dialect
paid-Accounted reply input output m =
    if-cases (λ o. Accounted (ok reply) (ok o))
      (is_refusal_reason (member_of "stop_reason" reply.response_metadata)) _ _
      (λ h. declined reply input output m (refusal-stop_reason _ h))
      (λ h. paid_answer reply input output _ m (λ e. ground (arith, h, stop_reason-refusal _ e)))

counted-Accounted :
    (reply : Reply) (input output : ℤ)
    → reply.usage_metadata ≡ some (input, output)
    → is_given (member_of "usage" reply.response_metadata) ≡ true
    → Accounted
        (ok reply)
        (and_then (usage_of (input, output)) (λ u. ok (paid anthropic_dialect reply u)))
unfolding usage_of make_token_count
counted-Accounted reply (pos i) (pos o) e g = paid-Accounted reply i o (e, g)
counted-Accounted reply (negsuc i) output e g = negative_count reply _ _ _ e (inl (ground arith))
counted-Accounted reply (pos i) (negsuc o) e g = negative_count reply _ _ _ e (inr (ground arith))

reply-Accounted :
    (reply : Reply) (figures : Option (ℤ × ℤ))
    → reply.usage_metadata ≡ figures
    → Accounted (ok reply) (with_figures anthropic_dialect reply figures)
unfolding anthropic_dialect
reply-Accounted reply none e = unmetered reply (inl e)
reply-Accounted reply (some (input, output)) e =
    if-cases (Accounted (ok reply)) (is_given (member_of "usage" reply.response_metadata)) _ _
      (λ g. counted-Accounted reply input output e g) (λ g. unmetered reply (inr g))

concluded-Accounted :
    (float : String → Option ℤ) (end : Result Failure Reply)
    → Accounted end (concluded float anthropic_dialect end)
unfolding concluded anthropic_dialect
concluded-Accounted float (err failure) = failed-Accounted float failure
concluded-Accounted float (ok reply) = reply-Accounted reply reply.usage_metadata refl

anthropic-known : get "anthropic" dialects ≡ some anthropic_dialect
unfolding get dialects
anthropic-known = refl

-- A call of a model that the adapter has Anthropic's chat model of: a metered answer is given with its
-- own figures, or refused with them where the model declined; an unmetered one is rejected; one with a
-- negative figure raises the domain's error; a failure is transient exactly where a repeat may succeed.
pub generate-Accounted :
    (env : Env) (adapter : LangchainGenerationProvider) (model : Model) (chat_model : ChatModel)
    (system : String) (messages : List Message) (limit : ℕ) (temperature : Option ℤ)
    (stops : Option (List String)) (time : ℤ)
    → adapter.dialects ≡ dialects
    → model.provider.name.value ≡ "anthropic"
    → get (model.provider.name.value, model.id.value) adapter.chat_models ≡ some chat_model
    → Accounted
        (env.invoke (record {
          chat_model = chat_model;
          prompt = prompt_of system messages;
          stop = stops;
          max_tokens = limit;
          temperature = temperature;
          timeout = anthropic_dialect.timeout time;
        }))
        (generate env adapter model system messages limit temperature stops time)
unfolding generate
generate-Accounted env adapter model chat_model system messages limit temperature stops time d n c =
    let known : get model.provider.name.value adapter.dialects ≡ some anthropic_dialect =
      rw d (rw n anthropic-known) in
    rw known (rw c (concluded-Accounted env.float _))
