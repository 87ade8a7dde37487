-- ===== src/Rag/UseCases/Settled.antt =====
-- The writes commit all or nothing, and what they commit is consistent, where no other request runs and
-- no storage fault occurs.
use holahost.Base.{◌≡◌, refl, ◌∙◌, Option, List, Result, ok, err}
use mathlib.Core.Path.{subst, sym}
use holahost.Base.Action.{lift, ◌>>=◌}
use holahost.Base.Action.Hoare.{Keeps, Ends, keeps_rules, lift-Keeps, bind-Keeps}
use holahost.Db.Retry.{default_max_retries}
use holahost.Rag.Values.{DocumentId, OwnerSubject, DocumentName, MimeType}
use holahost.Rag.Values.Accepted.{Returns}
use holahost.Rag.Entities.{Document, Chunk}
use holahost.Rag.Storage.{Tables}
use holahost.Rag.Storage.Consistency.{IsConsistent}
use holahost.Rag.Data.{
  World, Env, Raised, M, CreateDocumentCmd, ReplaceDocumentCmd, DeleteDocumentCmd,
}
use holahost.Rag.Ports.{with_uow, get}
use holahost.Rag.Ports.Effects.{undisturbed, Yields, bind-Yields}
use holahost.Rag.Ports.Rollback.{
  IsOver, IsOpen, now_utc-Keeps, fresh_uuid-Keeps, checked-Keeps, get-Keeps, add-Keeps,
  update-Keeps, delete-Keeps, with_uow-Ends,
}
use holahost.Rag.Ports.Whole.{create_document-IsWhole, replace_content-IsWhole}
use holahost.Rag.Ports.Counts.{
  IsWhole, kept-Yields, add-IsConsistent, update-IsConsistent, delete-IsConsistent,
}
use holahost.Rag.UseCases.{
  required, chunk_error, write, delete_once, create_document_use_case, replace_document_use_case,
  delete_document_use_case,
}
use holahost.Rag.UseCases.RoundTrip.{or_raise-Returns, pure-Yields}
use holahost.Rag.UseCases.Atomic.{
  Settles, Leaves, required-Keeps, rename_to-Keeps, new_chunks-Keeps, lift-Leaves, next-Settles,
  step-Settles, finish-Settles, retry-Settles, conflict-kept,
}

module _ (env : Env) (t : Tables) (consistent : IsConsistent t) where
  uow-Settles :
      {A : Type 0}
      → (m : M A) (w : World) → w.committed ≡ t
      → Keeps (IsOpen env t) m
      → ((w : World) → IsConsistent w.visible → Yields (λ a w'. IsConsistent w'.visible) (m w))
      → Settles env t (with_uow (undisturbed env) m w)
  uow-Settles m w e k h =
      with_uow-Ends env t (λ a s. IsConsistent s) m w e k
        (λ w' e'. h w' (subst IsConsistent (sym (e' ∙ e)) consistent))

  create-Settles :
      (cmd : CreateDocumentCmd) (w : World)
      → w.committed ≡ t
      → Settles env t (create_document_use_case (undisturbed env) cmd w)
  unfolding create_document_use_case
  create-Settles cmd w e = step-Settles env t _ _ w (lift-Keeps _) e (λ mime_type w e.
      step-Settles env t _ _ w (lift-Keeps _) e (λ name w e.
        step-Settles env t _ _ w (lift-Keeps _) e (λ prepared w e.
          step-Settles env t _ _ w (checked-Keeps env t _ _) e (λ owner w e.
            step-Settles env t _ _ w (fresh_uuid-Keeps env t _) e (λ id w e.
              step-Settles env t _ _ w (new_chunks-Keeps env t _ _ 0 _ _) e (λ parts w e.
                step-Settles env t _ _ w (now_utc-Keeps env t _) e (λ now w e.
                  next-Settles env t IsWhole _ _ w
                    (lift-Leaves env t IsWhole _ w
                      (or_raise-Returns env IsWhole _ _
                        (create_document-IsWhole _ owner name mime_type parts now))
                      e)
                    (λ d w e whole. finish-Settles env t _ _ w (
                      uow-Settles _ w e (add-Keeps env t owner d)
                        (λ w c. add-IsConsistent env owner d w whole c))))))))))

  -- What the body of a replace's transaction keeps of what it sees, until it writes.
  seen-Yields :
      {A B : Type 0}
      → (m : M A) (f : A → M B) (w : World) → Keeps (IsOver w.committed IsConsistent) m
      → IsConsistent w.visible
      → ((a : A) (w : World)
          → IsConsistent w.visible
          → Yields (λ b w'. IsConsistent w'.visible) (f a w))
      → Yields (λ b w'. IsConsistent w'.visible) ((m >>= f) w)
  seen-Yields m f w k c h =
      bind-Yields (λ a w. IsConsistent w.visible) _ m f w (kept-Yields env IsConsistent m w k c) h

  lift-Whole :
      (r : Result Raised Document) (w : World)
      → Returns IsWhole r
      → IsConsistent w.visible
      → Yields (λ d w'. IsWhole d × IsConsistent w'.visible) (lift r w)
  unfolding lift
  lift-Whole (ok d) w h c = (h, c)
  lift-Whole (err e) w h c = tt

  write-Settles :
      (owner : OwnerSubject) (id : DocumentId) (name : Option DocumentName) (mime_type : MimeType)
      (chunks : List Chunk) (w : World)
      → w.committed ≡ t
      → Settles env t (write (undisturbed env) owner id name mime_type chunks w)
  unfolding write
  write-Settles owner id name mime_type chunks w e =
      uow-Settles _ w e
        (search
          (
            keeps_rules,
            get-Keeps env t,
            required-Keeps env t,
            rename_to-Keeps env t,
            now_utc-Keeps env t,
            update-Keeps env t,
          )
          depth 20)
        (λ w c. seen-Yields _ _ w (get-Keeps env w.committed _ owner id) c (λ o w c.
          seen-Yields _ _ w (required-Keeps env w.committed _ o) c (λ d w c.
            seen-Yields _ _ w (rename_to-Keeps env w.committed _ name d) c (λ d w c.
              seen-Yields _ _ w (now_utc-Keeps env w.committed _) c (λ now w c.
                bind-Yields (λ d w'. IsWhole d × IsConsistent w'.visible) _ _ _ w
                  (lift-Whole _ w
                    (or_raise-Returns env IsWhole (chunk_error _) _
                      (replace_content-IsWhole mime_type chunks now d))
                    c)
                  (λ d w h.
                    bind-Yields (λ _ w'. IsConsistent w'.visible) _ _ _ w
                      (update-IsConsistent env owner d w h.0 h.1)
                      (λ _ w c. pure-Yields env (λ d w'. IsConsistent w'.visible) d w c)))))))

  delete_once-Settles :
      (owner : OwnerSubject) (id : DocumentId) (w : World)
      → w.committed ≡ t
      → Settles env t (delete_once (undisturbed env) owner id w)
  unfolding delete_once
  delete_once-Settles owner id w e =
      uow-Settles _ w e
        (search (keeps_rules, get-Keeps env t, required-Keeps env t, delete-Keeps env t) depth 20)
        (λ w c. seen-Yields _ _ w (get-Keeps env w.committed _ owner id) c (λ o w c.
          seen-Yields _ _ w (required-Keeps env w.committed _ o) c
            (λ d w c. delete-IsConsistent env owner id w c)))

  -- Reading commits nothing.
  check-Leaves :
      (owner : OwnerSubject) (id : DocumentId) (w : World)
      → w.committed ≡ t
      → Leaves env t
          (λ d. Unit)
          (with_uow (undisturbed env) (get (undisturbed env) owner id >>= required) w)
  check-Leaves owner id w e =
      both (with_uow (undisturbed env) (get (undisturbed env) owner id >>= required) w) (
        with_uow-Ends env t (λ d s. s ≡ t) _ w e
          (bind-Keeps _ _ (get-Keeps env t _ owner id) (λ o. required-Keeps env t _ o))
          (λ w' e'.
            kept-Yields env (λ s. s ≡ t) _ w'
              (bind-Keeps _ _ (get-Keeps env w'.committed _ owner id)
                (λ o. required-Keeps env w'.committed _ o))
              (e' ∙ e)))
    where
      both :
          (x : Result Raised Document × World)
          → Ends (λ d w'. w'.committed ≡ t) (λ w'. w'.committed ≡ t) x
          → Leaves env t (λ d. Unit) x
      both (ok d, w') h = (h, tt)
      both (err x, w') h = h

  replace-Settles :
      (cmd : ReplaceDocumentCmd) (w : World)
      → w.committed ≡ t
      → Settles env t (replace_document_use_case (undisturbed env) cmd w)
  unfolding replace_document_use_case
  replace-Settles cmd w e = step-Settles env t _ _ w (checked-Keeps env t _ _) e (λ owner w e.
      step-Settles env t _ _ w (lift-Keeps _) e (λ id w e.
        next-Settles env t (λ d. Unit) _ _ w (check-Leaves owner id w e)
          (λ d w e _. step-Settles env t _ _ w (lift-Keeps _) e (λ mime_type w e.
            step-Settles env t _ _ w (lift-Keeps _) e (λ name w e.
              step-Settles env t _ _ w (lift-Keeps _) e (λ prepared w e.
                step-Settles env t _ _ w (new_chunks-Keeps env t _ _ 0 _ _) e (λ parts w e.
                  finish-Settles env t _ _ w (
                    retry-Settles env t _ default_max_retries _ w e
                      (λ w e. write-Settles owner id name mime_type parts w e)
                      (conflict-kept env t)))))))))

  delete-Settles :
      (cmd : DeleteDocumentCmd) (w : World)
      → w.committed ≡ t
      → Settles env t (delete_document_use_case (undisturbed env) cmd w)
  unfolding delete_document_use_case
  delete-Settles cmd w e = step-Settles env t _ _ w (lift-Keeps _) e (λ id w e.
      step-Settles env t _ _ w (checked-Keeps env t _ _) e (λ owner w e.
        retry-Settles env t _ default_max_retries _ w e (λ w e. delete_once-Settles owner id w e)
          (conflict-kept env t)))

-- Where the committed tables are consistent, no other request runs and storage does not fail: each of create,
-- replace and delete either returns and has committed consistent tables, or raises and has
-- committed nothing.
pub writes-Settles :
    (env : Env) (w : World) (created : CreateDocumentCmd) (replaced : ReplaceDocumentCmd)
    (deleted : DeleteDocumentCmd)
    → IsConsistent w.committed
    → (Settles env w.committed (create_document_use_case (undisturbed env) created w)
        × Settles env w.committed (replace_document_use_case (undisturbed env) replaced w))
      × Settles env w.committed (delete_document_use_case (undisturbed env) deleted w)
writes-Settles env w created replaced deleted c = (
  (
    create-Settles env w.committed c created w refl,
    replace-Settles env w.committed c replaced w refl,
  ),
  delete-Settles env w.committed c deleted w refl,
)
