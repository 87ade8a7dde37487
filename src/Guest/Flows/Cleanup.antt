-- ===== src/Guest/Flows/Cleanup.antt =====
-- What becomes of the temporary document of `ask_from_file` (guest_reply/flows.py).
use holahost.Base.{
  String, ◌≡◌, refl, sym, ap, ◌⊎◌, inl, inr, ◌∙◌, Bool, true, false, Option, none, some, List, ◌∷◌,
  Result, ok, err, arith,
}
use holahost.Base.Equality.{string_eq}
use holahost.Base.Action.{pure, raise, continue, ◌>>=◌}
use holahost.Guest.Errors.{
  GuestReplyError, CleanupFailure, Raised, failed, defect, document_not_found, new_error,
}
use holahost.Guest.World.{
  World, Request, Response, Outcome, answered, timed_out, transport_failed, other_exception,
  FilePath,
}
use holahost.Guest.Caller.{
  Env, ServiceCaller, Call, envelope, Envelope, has_code, is_success, error_of, enveloped_error,
  request_of, call_service, send,
}
use holahost.Guest.Caller.Induction.{verdict, judged}
use holahost.Guest.Caller.Spent.{Settled, call_service-Settled}
use holahost.Guest.Clients.{Models, CreatedDocument, delete, delete_call}
use holahost.Guest.Flows.{
  Services, Answer, OneShot, ingest, ask, remove, failure_to_delete, deletion, delete_temporary,
  one_shot, asked_from_file, ask_from_file,
}

-- The service said that it deleted the document, or that there is no such document.
abbrev pub Gone : Outcome → Type 0
Gone (answered response) =
    (is_success response ≡ true)
    ⊎ ((response.status ≡ 404) × (has_code "NotFoundError" (envelope response) ≡ true))
Gone (timed_out _) = ⊥
Gone (transport_failed _) = ⊥
Gone other_exception = ⊥

error_of-Absent :
    (response : Response) (e : Option Envelope) (origin : String)
    → (error_of response e origin).class ≡ document_not_found
    → (response.status ≡ 404) × (has_code "NotFoundError" e ≡ true)
unfolding error_of enveloped_error new_error
error_of-Absent response none origin h = ground (arith, h)
error_of-Absent response (some e) origin h = ground (arith, h)

absent_only :
    (id : String) (e : GuestReplyError)
    → failure_to_delete id e ≡ none
    → e.class ≡ document_not_found
absent_only id e h = grind (arith, h)

-- A failure that says that there is no such document was raised on the service's word.
module _ (env : Env) (caller : ServiceCaller) (call : Call) where
  judged-Gone :
      (success : Bool) (response : Response) (e : GuestReplyError) (c : Option CleanupFailure)
      → judged env caller call success response ≡ err (failed e c)
      → e.class ≡ document_not_found
      → (response.status ≡ 404) × (has_code "NotFoundError" (envelope response) ≡ true)
  judged-Gone true response e c h k = ground (arith, h)
  judged-Gone false response e c h k =
      error_of-Absent response (envelope response) caller.origin (grind (arith, h, k))

  refused-Gone :
      (o : Outcome) (e : GuestReplyError) (c : Option CleanupFailure)
      → verdict env caller call o ≡ err (failed e c)
      → e.class ≡ document_not_found
      → Gone o
  unfolding verdict new_error
  refused-Gone (answered response) e c h k = inr (judged-Gone _ response e c h k)
  refused-Gone (timed_out _) e c h k = ground (arith, h, k)
  refused-Gone (transport_failed _) e c h k = ground (arith, h, k)
  refused-Gone other_exception e c h k = ground (arith, h)

  judged-Success :
      (success : Bool) (response r : Response)
      → judged env caller call success response ≡ ok r
      → success ≡ true
  judged-Success true response r h = refl
  judged-Success false response r h = ground (arith, h)

  returned-Gone :
      (o : Outcome) (response : Response) → verdict env caller call o ≡ ok response → Gone o
  unfolding verdict
  returned-Gone (answered response) r h = inl (judged-Success _ response r h)
  returned-Gone (timed_out _) r h = ground (arith, h)
  returned-Gone (transport_failed _) r h = ground (arith, h)
  returned-Gone other_exception r h = ground (arith, h)

-- What asking gave is what `ask_from_file` gives, unless the run is broken off.
abbrev pub Kept : Result Raised (Option Answer) → Result Raised OneShot → Type 0
Kept asked (err (defect notes)) = Unit
Kept (ok answer) (ok shot) = shot.answer ≡ answer
Kept (err (failed e _)) (err (failed e' _)) = e' ≡ e
Kept _ _ = ⊥

-- No failure to delete is reported.
abbrev pub Silent : Result Raised OneShot → Type 0
Silent (ok shot) = shot.cleanup_failure ≡ none
Silent (err (failed _ cleanup_failure)) = cleanup_failure ≡ none
Silent (err (defect _)) = ⊥

-- A failure to delete is reported, or the run is broken off.
abbrev pub Reported : Result Raised OneShot → Type 0
Reported (ok shot) = (f : CleanupFailure) × (shot.cleanup_failure ≡ some f)
Reported (err (failed _ cleanup_failure)) = (f : CleanupFailure) × (cleanup_failure ≡ some f)
Reported (err (defect _)) = Unit

pub Silent-Reported : (r : Result Raised OneShot) → Silent r → Reported r → ⊥
Silent-Reported (ok shot) h (f, e) = grind (arith, h, e)
Silent-Reported (err (failed x c)) h (f, e) = grind (arith, h, e)
Silent-Reported (err (defect notes)) h e = h

module _ (env : Env) (services : Services) (document_id : String) where
  -- The last request of the run deletes the document. Where no failure to delete is reported, the
  -- service answered that the document is gone; and what asking gave is not lost.
  pub record Deleted (asked : Result Raised (Option Answer)) (r : Result Raised OneShot)
      (w' : World) : Type 0 where
    pub earlier : List Request
    pub last_sent : w'.sent ≡ request_of services.documents (delete_call document_id) ∷ earlier
    pub gone :
        Reported r
        ⊎ Gone (env.answer earlier (request_of services.documents (delete_call document_id)))
    pub kept : Kept asked r

  abbrev after_call :
      Result Raised (Option Answer) → Result Raised Response × World → Result Raised OneShot × World
  after_call asked (r, w') =
      let (d, w'') = deletion document_id (continue r (λ _. pure tt) w') in
      continue d (one_shot document_id asked) w''

  report-Kept :
      (asked : Result Raised (Option Answer)) (f : Option CleanupFailure) (w' : World)
      → Kept asked (one_shot document_id asked f w').0
  unfolding pure raise
  report-Kept (ok a) f w' = refl
  report-Kept (err (failed e c)) f w' = refl
  report-Kept (err (defect notes)) f w' = tt

  report-Reported :
      (asked : Result Raised (Option Answer)) (f : CleanupFailure) (w' : World)
      → Reported (one_shot document_id asked (some f) w').0
  unfolding pure raise
  report-Reported (ok a) f w' = (f, refl)
  report-Reported (err (failed e c)) f w' = (f, refl)
  report-Reported (err (defect notes)) f w' = tt

  report-same :
      (asked : Result Raised (Option Answer)) (f : Option CleanupFailure) (w' : World)
      → (one_shot document_id asked f w').1 ≡ w'
  unfolding pure raise
  report-same (ok a) f w' = refl
  report-same (err (failed e c)) f w' = refl
  report-same (err (defect notes)) f w' = refl

  reported :
      (asked : Result Raised (Option Answer)) (f : Option CleanupFailure) (w' : World)
      (r : Result Raised Response)
      → (s : Settled env services.documents (delete_call document_id) w' r)
      → (f ≡ none
          → Gone (env.answer s.earlier (request_of services.documents (delete_call document_id))))
      → let (r', w'') = one_shot document_id asked f w' in Deleted asked r' w''
  reported asked none w' r s g = record {
    earlier = s.earlier;
    last_sent = ap (λ (w : World). w.sent) (report-same asked none w') ∙ s.last_sent;
    gone = inr (g refl);
    kept = report-Kept asked none w';
  }
  reported asked (some f) w' r s g = record {
    earlier = s.earlier;
    last_sent = ap (λ (w : World). w.sent) (report-same asked (some f) w') ∙ s.last_sent;
    gone = inl (report-Reported asked f w');
    kept = report-Kept asked (some f) w';
  }

  after_call-Deleted :
      (asked : Result Raised (Option Answer)) (w' : World) (r : Result Raised Response)
      → Settled env services.documents (delete_call document_id) w' r
      → let (r', w'') = after_call asked (r, w') in Deleted asked r' w''
  unfolding pure
  after_call-Deleted asked w' (ok response) s = reported asked none w' (ok response) s (λ _.
      returned-Gone env services.documents (delete_call document_id) _ response (sym s.decided))
  after_call-Deleted asked w' (err (failed e c)) s =
      reported asked (failure_to_delete document_id e) w' (err (failed e c)) s (λ h.
        refused-Gone env services.documents (delete_call document_id) _ e c (sym s.decided)
          (absent_only document_id e h))
  after_call-Deleted asked w' (err (defect notes)) s = record {
    earlier = s.earlier;
    last_sent = s.last_sent;
    gone = inl tt;
    kept = tt;
  }

  pub cleaning_up-Deleted :
      (asked : Result Raised (Option Answer)) (w : World)
      → let (r, w') = asked_from_file env services document_id asked w in Deleted asked r w'
  unfolding ◌>>=◌ delete_temporary remove delete send
  cleaning_up-Deleted asked w =
      let (r, w') = call_service env services.documents (delete_call document_id) w in
      after_call-Deleted asked w' r
        (call_service-Settled env services.documents (delete_call document_id) w)

-- Once the file is ingested, whatever asking comes to - an answer, no context, an error or a broken-off
-- run - the last request of the run deletes the document that was created. Either a failure to delete is
-- reported, or the run is broken off, or the service answered that it deleted the document or has no
-- such document. Unless the run is broken off, the answer or the error of asking is what is given.
pub ask_from_file-Deletes :
    (env : Env) (models : Models) (services : Services) (path : FilePath) (guest_message : String)
    (w w' : World) (created : CreatedDocument)
    → ingest env models services path none w ≡ (ok created, w')
    → let (asked, _) = ask env models services created.document_id guest_message w' in
      let (r, last_world) = ask_from_file env models services path guest_message w in
      Deleted env services created.document_id asked r last_world
unfolding ask_from_file ◌>>=◌
ask_from_file-Deletes env models services path guest_message w w' created h =
    let id = created.document_id in
    let (asked, w'') = ask env models services id guest_message w' in
    rw h (cleaning_up-Deleted env services id asked w'')
