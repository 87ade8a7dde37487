-- ===== src/Guest/Cli/Exits.antt =====
-- The exit code of `ask --file` and what it says of the document (guest_reply/cli.py).
use mathlib.Core.Logic.{inl, inr}
use holahost.Base.{
  ℕ, String, ◌≡◌, refl, sym, ap, ◌⊎◌, ◌∙◌, Option, none, some, List, ◌∷◌, Result, ok, err, or_raise,
  arith,
}
use mathlib.Core.Path.{subst}
use holahost.Base.Action.{pure, raise, continue, ◌>>=◌}
use holahost.Guest.Errors.{
  GuestReplyError, Class, CleanupFailure, Raised, failed, defect, exit_code, configuration,
  file_unreadable, document_not_found, request_rejected, limit_reached, provider_unavailable,
  token_rejected, service_unreachable, unexpected_response,
}
use holahost.Guest.World.{World, Request, FilePath}
use holahost.Guest.Caller.{request_of}
use holahost.Guest.Clients.{CreatedDocument, delete_call}
use holahost.Guest.Flows.{Services, Answer, OneShot, ingest, ask_from_file}
use holahost.Guest.Flows.Cleanup.{Gone, Silent, Silent-Reported, ask_from_file-Deletes}
use holahost.Guest.Cli.{
  C, Setup, Stopped, raised, exits, calling, emit, services, handled, fail, answer_with, command,
  ask_file_command,
}

-- The process's exit code, unless it ends with a traceback.
abbrev pub status : Result Stopped (Unit {0}) → Option ℕ
status (ok _) = some 0
status (err (exits code)) = some code
status (err (raised _)) = none

-- An answer, or no context to answer from: no failure.
abbrev pub IsDone : Option ℕ → Type 0
IsDone code = (code ≡ some 0) ⊎ (code ≡ some 5)

exit_code-Failure : (c : Class) → IsDone (some (exit_code c)) → ⊥
unfolding exit_code
exit_code-Failure configuration h = ground (arith, h)
exit_code-Failure file_unreadable h = ground (arith, h)
exit_code-Failure document_not_found h = ground (arith, h)
exit_code-Failure request_rejected h = ground (arith, h)
exit_code-Failure limit_reached h = ground (arith, h)
exit_code-Failure provider_unavailable h = ground (arith, h)
exit_code-Failure token_rejected h = ground (arith, h)
exit_code-Failure service_unreachable h = ground (arith, h)
exit_code-Failure unexpected_response h = ground (arith, h)

-- What is left of an answer once it is printed.
abbrev pub exit_of : Option Answer → Option CleanupFailure → Result Stopped (Unit {0})
exit_of answer (some failure) = err (exits (exit_code failure.error.class))
exit_of none none = err (exits 5)
exit_of (some _) none = ok tt

module _ (setup : Setup) where
  fail-exits :
      (e : GuestReplyError) (c : Option CleanupFailure) (w : World)
      → (fail setup e c w).0 ≡ err (exits (exit_code e.class))
  unfolding fail ◌>>=◌ raise pure
  fail-exits e none w = ground arith
  fail-exits e (some c) w = ground arith

  answer_with-exit_of :
      (a : Option Answer) (id : String) (c : Option CleanupFailure) (w : World)
      → ((answer_with setup a id c w).0 ≡ exit_of a c)
        × ((answer_with setup a id c w).1.sent ≡ w.sent)
  unfolding answer_with emit ◌>>=◌ raise pure
  answer_with-exit_of none id none w = (ground arith, ground arith)
  answer_with-exit_of (some a) id none w = (ground arith, ground arith)
  answer_with-exit_of none id (some c) w = (ground arith, ground arith)
  answer_with-exit_of (some a) id (some c) w = (ground arith, ground arith)

  handled-exit_of :
      (a : Option Answer) (c : Option CleanupFailure) (x : Result Stopped (Unit {0})) (w : World)
      → x ≡ exit_of a c
      → IsDone (status (handled setup (x, w)).0)
      → (c ≡ none) × ((handled setup (x, w)).1 ≡ w)
  handled-exit_of a (some f) x w e h =
      absurd (
        exit_code-Failure f.error.class (subst (λ x. IsDone (status (handled setup (x, w)).0)) e h))
  handled-exit_of none none x w e h = (refl, subst (λ x. (handled setup (x, w)).1 ≡ w) (sym e) refl)
  handled-exit_of (some a) none x w e h =
      (refl, subst (λ x. (handled setup (x, w)).1 ≡ w) (sym e) refl)

  raised-Failure :
      (e : Raised) (w : World) → IsDone (status (handled setup (err (raised e), w)).0) → ⊥
  raised-Failure (failed e c) w h =
      exit_code-Failure e.class (subst (λ x. IsDone (status x)) (fail-exits e c w) h)
  raised-Failure (defect notes) w h = ground (arith, h)

  done-Silent :
      (r : Result Raised OneShot) (w : World)
      → let (x, w') = handled setup (
          continue
            (or_raise raised r)
            (λ shot. answer_with setup shot.answer shot.document_id shot.cleanup_failure)
            w) in
        IsDone (status x) → Silent r × (w'.sent ≡ w.sent)
  done-Silent (ok shot) w h =
      let (e, same) = answer_with-exit_of shot.answer shot.document_id shot.cleanup_failure w in
      let (x, w') = answer_with setup shot.answer shot.document_id shot.cleanup_failure w in
      let (silent, here) = handled-exit_of shot.answer shot.cleanup_failure x w' e h in
      (silent, ap (λ (v : World). v.sent) here ∙ same)
  done-Silent (err e) w h = absurd (raised-Failure e w h)

  module _ (file : FilePath) (guest_message : String) where
    -- The document that the run created is deleted with its last request, which the service answered
    -- to that effect.
    pub record LeftNothing (s : Services) (w w' : World) : Type 0 where
      pub created : CreatedDocument
      pub ingested : (ingest setup.env setup.models s file none w).0 ≡ ok created
      pub earlier : List Request
      pub last_sent : w'.sent ≡ request_of s.documents (delete_call created.document_id) ∷ earlier
      pub gone :
          Gone (setup.env.answer earlier (request_of s.documents (delete_call created.document_id)))

    -- Once the settings are read
    abbrev asking : Services → C (Unit {0})
    asking s = do
      shot ← calling (ask_from_file setup.env setup.models s file guest_message)
      answer_with setup shot.answer shot.document_id shot.cleanup_failure

    ask_from_file-raises :
        (s : Services) (w w' : World) (e : Raised)
        → ingest setup.env setup.models s file none w ≡ (err e, w')
        → ask_from_file setup.env setup.models s file guest_message w ≡ (err e, w')
    unfolding ask_from_file ◌>>=◌
    ask_from_file-raises s w w' e i = rw i refl

    asking-ingested :
        (s : Services) (w w' : World) (r : Result Raised CreatedDocument)
        → ingest setup.env setup.models s file none w ≡ (r, w')
        → let (x, last_world) = handled setup (asking s w) in
          IsDone (status x) → LeftNothing s w last_world
    unfolding ◌>>=◌ calling
    asking-ingested s w w' (err e) i h = absurd (
        raised-Failure e w' (
          subst
            (λ (x : Result Raised OneShot × World). IsDone (
              status
                (handled setup (
                  continue (or_raise raised x.0)
                    (λ shot. answer_with setup shot.answer shot.document_id shot.cleanup_failure)
                    x.1)).0))
            (ask_from_file-raises s w w' e i) h))
    asking-ingested s w w' (ok created) i h =
        let d = ask_from_file-Deletes setup.env setup.models s file guest_message w w' created i in
        let (r, v) = ask_from_file setup.env setup.models s file guest_message w in
        let (silent, same) = done-Silent r v h in
        record {
          created = created;
          ingested = ap (λ x. x.0) i;
          earlier = d.earlier;
          last_sent = same ∙ d.last_sent;
          gone = elim d.gone [
            | inl told ↦ absurd (Silent-Reported r silent told)
            | inr gone ↦ gone
          ];
        }

    configured :
        (r : Result Raised Services) (w : World)
        → let (x, w') = handled setup (continue (or_raise raised r) asking w) in
          IsDone (status x) → (s : Services) × (r ≡ ok s) × LeftNothing s w w'
    configured (ok s) w h = (s, refl, asking-ingested s w _ _ refl h)
    configured (err e) w h = absurd (raised-Failure e w h)

    -- A run of `ask --file` that exits with 0 or with 5 leaves nothing behind: its last request
    -- deletes the document that it created, and the service answered that the document is deleted
    -- or is not there.
    pub ask_file_command-LeftNothing :
        (w w' : World) (r : Result Stopped (Unit {0}))
        → ask_file_command setup file guest_message w ≡ (r, w')
        → IsDone (status r)
        → (s : Services) × ((services setup w).0 ≡ ok s) × LeftNothing s (services setup w).1 w'
    unfolding ask_file_command command ◌>>=◌ calling
    ask_file_command-LeftNothing w w' r e h =
        subst
          (λ (x : Result Stopped (Unit {0}) × World).
            (s : Services) × ((services setup w).0 ≡ ok s) × LeftNothing s (services setup w).1 x.1)
          e
          (configured (services setup w).0 (services setup w).1
            (subst (λ (x : Result Stopped (Unit {0}) × World). IsDone (status x.0)) (sym e) h))
