-- ===== src/Rag/Ports/Counts.antt =====
-- What the repository's writes keep: every document's row counts its chunks.
use holahost.Base.{ℕ, ◌≡◌, refl, Bool, true, false, some, List, map, Result, ok, err, length, ◌==◌}
use holahost.Base.Equality.{string_eq}
use mathlib.Core.Path.{subst}
use holahost.Base.Action.{◌>>=◌, refuse_if}
use holahost.Base.Action.Hoare.{Keeps}
use holahost.Db.{StorageError}
use holahost.Rag.Values.{DocumentId, OwnerSubject}
use holahost.Rag.Entities.{Document, Chunk}
use holahost.Rag.Storage.{Tables, Setting, sees, insert_document}
use holahost.Rag.Storage.Consistency.{IsConsistent, OfDocument}
use holahost.Rag.Storage.Counting.{
  Awaits, Says, Then, ThenCount, insert_document-Awaits, insert_chunks-IsConsistent,
  update_document-Says, delete_chunks-Awaits, delete_document-IsConsistent,
}
use holahost.Rag.Data.{World, Env, Raised, not_found, M}
use holahost.Rag.Ports.{
  document_values, chunk_values, bind_owner, changed, insert_all, add, replace_chunks, update,
  delete,
}
use holahost.Rag.Ports.Effects.{
  undisturbed, Yields, Answers, bind-Yields, statement_now-Yields, statement_set-Yields,
  refuse-Yields,
}
use holahost.Rag.Ports.Rollback.{IsOver, bind_owner-Keeps}

-- The document has chunks, which it counts and which are its own.
pub record IsWhole (d : Document) : Type 0 where
  pub parts : List Chunk
  pub chunks : d.chunks ≡ some parts
  pub count : d.chunk_count ≡ length (map chunk_values parts)
  pub own : OfDocument d.id.value (map chunk_values parts)

module _ (env : Env) where
  abbrev Consistent : {A : Type 0} → A → World → Type 0
  Consistent a w = IsConsistent w.visible

  pub kept-Yields :
      {A : Type 0}
      → (V : Tables → Type 0) (m : M A) (w : World) → Keeps (IsOver w.committed V) m
      → V w.visible
      → Yields (λ _ w'. V w'.visible) (m w)
  kept-Yields V m w k v = both (m w) (k.keeps w (record { committed = refl; visible = v }))
    where
      both :
          {A : Type 0} (x : Result Raised A × World)
          → IsOver w.committed V x.1
          → Yields (λ _ w'. V w'.visible) x
      both (ok a, w') h = h.visible
      both (err e, w') h = tt

  changed-Answers :
      (Q : Tables → Type 0) (x : Result StorageError Tables)
      → Then Q x
      → Answers (λ _ t. Q t) (changed (undisturbed env) x)
  changed-Answers Q (ok t) h = h
  changed-Answers Q (err e) h = tt

  count-Answers :
      (Q : ℕ → Tables → Type 0) (x : Result StorageError (ℕ × Tables)) → ThenCount Q x → Answers Q x
  count-Answers Q (ok (n, t)) h = h
  count-Answers Q (err e) h = tt

  insert_all-Yields :
      (d : Document) (whole : IsWhole d) (w : World)
      → Awaits d.id.value (length (map chunk_values whole.parts)) w.visible
      → Yields Consistent (insert_all (undisturbed env) whole.parts w)
  insert_all-Yields d whole w h =
      statement_now-Yields env (λ _ t. IsConsistent t) _ w
        (changed-Answers IsConsistent _ (
          insert_chunks-IsConsistent w.setting d.id.value (map chunk_values whole.parts) w.visible
            whole.own h))

  module _ (owner : OwnerSubject) where
    -- The two first steps of every write.
    bound-Yields :
        {A : Type 0}
        → (V : Tables → Type 0) (R : A → World → Type 0) (f : M A) (test : Bool) (e : Raised)
          (w : World)
        → V w.visible
        → ((w : World) → V w.visible → Yields R (f w))
        → Yields R ((bind_owner (undisturbed env) owner >>= λ _. refuse_if test e >>= λ _. f) w)
    bound-Yields V R f test e w h k =
        bind-Yields (λ _ w'. V w'.visible) R _ _ w
          (kept-Yields V _ w (bind_owner-Keeps env w.committed V owner) h)
          (λ _ w h.
            bind-Yields (λ _ w'. V w'.visible) R _ _ w (refuse-Yields env test e _ w (λ _. h))
              (λ _ w h. k w h))

    pub add-IsConsistent :
        (d : Document) (w : World)
        → IsWhole d
        → IsConsistent w.visible
        → Yields Consistent (add (undisturbed env) owner d w)
    unfolding add
    add-IsConsistent d w whole h = bound-Yields IsConsistent Consistent _ _ _ w h (λ w h.
        rw whole.chunks (
          bind-Yields (λ _ w'. Awaits d.id.value d.chunk_count w'.visible) _ _ _ w
            (statement_now-Yields env (λ _ t. Awaits d.id.value d.chunk_count t) _ w
              (changed-Answers (Awaits d.id.value d.chunk_count)
                (insert_document w.setting d.id.value (document_values d) w.visible)
                (insert_document-Awaits w.setting d.id.value (document_values d) w.visible h)))
            (λ _ w a.
              insert_all-Yields d whole w
                (subst (λ n. Awaits d.id.value n w.visible) whole.count a))))

    -- The row says how many chunks the document will have, and the transaction sees it.
    abbrev Rewritten : Document → Setting → Tables → Type 0
    Rewritten d setting t = (sees setting d.id.value t ≡ true) × Says d.id.value d.chunk_count t

    replace_chunks-IsConsistent :
        (d : Document) (w : World)
        → IsWhole d
        → Rewritten d w.setting w.visible
        → Yields Consistent (replace_chunks (undisturbed env) d.id.value d.chunks w)
    replace_chunks-IsConsistent d w whole h = rw whole.chunks (
        bind-Yields (λ _ w'. Awaits d.id.value d.chunk_count w'.visible) _ _ _ w
          (statement_now-Yields env (λ _ t. Awaits d.id.value d.chunk_count t) _ w
            (delete_chunks-Awaits w.setting d.id.value d.chunk_count w.visible h.0 h.1))
          (λ _ w a.
            insert_all-Yields d whole w (subst (λ n. Awaits d.id.value n w.visible) whole.count a)))

    pub update-IsConsistent :
        (d : Document) (w : World)
        → IsWhole d
        → IsConsistent w.visible
        → Yields Consistent (update (undisturbed env) owner d w)
    unfolding update
    update-IsConsistent d w whole h = bound-Yields IsConsistent Consistent _ _ _ w h (λ w h.
        bind-Yields (λ n w'. (n == 0) ≡ false → Rewritten d w'.setting w'.visible) _ _ _ w
          (statement_set-Yields env (λ n setting t. (n == 0) ≡ false → Rewritten d setting t) _ w
            (count-Answers (λ n t. (n == 0) ≡ false → Rewritten d w.setting t) _
              (update_document-Says w.setting d.id.value (document_values d) w.visible h)))
          (λ n w r.
            bind-Yields (λ _ w'. Rewritten d w'.setting w'.visible) _ _ _ w
              (refuse-Yields env (n == 0) not_found (λ w'. Rewritten d w'.setting w'.visible) w r)
              (λ _ w r. replace_chunks-IsConsistent d w whole r)))

    pub delete-IsConsistent :
        (id : DocumentId) (w : World)
        → IsConsistent w.visible
        → Yields Consistent (delete (undisturbed env) owner id w)
    unfolding delete
    delete-IsConsistent id w h =
        bind-Yields (λ _ w'. IsConsistent w'.visible) Consistent _ _ w
          (kept-Yields IsConsistent _ w (bind_owner-Keeps env w.committed IsConsistent owner) h)
          (λ _ w h.
            bind-Yields (λ n w'. IsConsistent w'.visible) Consistent _ _ w
              (statement_now-Yields env (λ n t. IsConsistent t) _ w
                (delete_document-IsConsistent w.setting id.value w.visible h))
              (λ n w h.
                refuse-Yields env (n == 0) not_found (λ w'. IsConsistent w'.visible) w (λ _. h)))
