-- ===== src/Rag/Ports/Effects/Writes.antt =====
-- What a write of the repository leaves of the document's row, where no other request runs and no
-- storage fault occurs.
use holahost.Base.{
  ℕ, ◌≡◌, false, Option, none, some, List, [], ◌∷◌, Result, ok, err, arith, map, ◌==◌,
}
use holahost.Base.Equality.{string_eq, nat_eq}
use holahost.Base.Dict.{get as get_row, get-put_self, get-remove, =?_refl}
use holahost.Base.Action.{pure, raise}
use holahost.Db.{StorageError}
use holahost.Rag.Values.{DocumentId, OwnerSubject}
use holahost.Rag.Entities.{Document, Chunk}
use holahost.Rag.Storage.{
  DocumentRow, ChunkRow, Tables, Setting, insert_document, insert_chunk, insert_chunks,
  update_document, delete_chunks, delete_document,
}
use holahost.Rag.Data.{World, Env, not_found, M}
use holahost.Rag.Ports.{
  document_values, chunk_values, changed, insert_all, add_chunks, add, replace_chunks, update,
  delete,
}
use holahost.Rag.Ports.Effects.{
  undisturbed, Yields, Answers, bind-Yields, skip-Yields, statement-Yields, refuse-Yields,
}

-- Writing chunks leaves the documents as they are.
module _ (id : ℕ) (row : Option DocumentRow) (env : Env) where
  abbrev HasRow : Tables → Type 0
  HasRow t = get_row id t.documents ≡ row

  abbrev HasRowOk : Result StorageError Tables → Type 0
  HasRowOk (ok t) = HasRow t
  HasRowOk (err e) = Unit

  insert_chunk-HasRow :
      (setting : Setting) (c : ChunkRow) (t : Tables)
      → HasRow t
      → HasRowOk (insert_chunk setting c t)
  unfolding insert_chunk
  insert_chunk-HasRow setting c t h = ground (arith, h)

  then_insert-HasRow :
      (f : Tables → Result StorageError Tables) (x : Result StorageError Tables)
      → ((t : Tables) → HasRow t → HasRowOk (f t))
      → HasRowOk x
      → HasRowOk (elim x [ ok t ↦ f t | err e ↦ err e ])
  then_insert-HasRow f (ok t) k h = k t h
  then_insert-HasRow f (err e) k h = tt

  insert_chunks-HasRow :
      (setting : Setting) (cs : List ChunkRow) (t : Tables)
      → HasRow t
      → HasRowOk (insert_chunks setting cs t)
  unfolding insert_chunks
  insert_chunks-HasRow setting [] t h = h
  insert_chunks-HasRow setting (c ∷ cs) t h =
      then_insert-HasRow (insert_chunks setting cs) (insert_chunk setting c t)
        (insert_chunks-HasRow setting cs) (insert_chunk-HasRow setting c t h)

  changed-Answers :
      (x : Result StorageError Tables) → HasRowOk x → Answers (λ _ t. HasRow t) (changed env x)
  changed-Answers (ok t) h = h
  changed-Answers (err e) h = h

  insert_all-Yields :
      (chunks : List Chunk) (w : World)
      → HasRow w.visible
      → Yields (λ _ w'. HasRow w'.visible) (insert_all (undisturbed env) chunks w)
  insert_all-Yields chunks w h =
      statement-Yields env (λ _ t. HasRow t) _ w
        (λ setting.
          changed-Answers _ (insert_chunks-HasRow setting (map chunk_values chunks) w.visible h))

  delete_chunks-HasRow :
      (setting : Setting) (j : ℕ) (t : Tables) → HasRow t → HasRow (delete_chunks setting j t)
  unfolding delete_chunks
  delete_chunks-HasRow setting j t h = ground (arith, h)

  replace_chunks-Yields :
      (j : ℕ) (chunks : Option (List Chunk)) (w : World)
      → HasRow w.visible
      → Yields (λ _ w'. HasRow w'.visible) (replace_chunks (undisturbed env) j chunks w)
  unfolding pure
  replace_chunks-Yields j none w h = h
  replace_chunks-Yields j (some chunks) w h =
      bind-Yields (λ _ w'. HasRow w'.visible) (λ _ w'. HasRow w'.visible) _ _ w
        (statement-Yields env (λ _ t. HasRow t) _ w
          (λ setting. delete_chunks-HasRow setting j w.visible h))
        (λ _ w'. insert_all-Yields chunks w')

  add_chunks-Yields :
      (chunks : Option (List Chunk)) (first : M (Unit {0})) (w : World)
      → Yields (λ _ w'. HasRow w'.visible) (first w)
      → Yields (λ _ w'. HasRow w'.visible) (add_chunks (undisturbed env) chunks first w)
  unfolding raise
  add_chunks-Yields none first w h = tt
  add_chunks-Yields (some chunks) first w h =
      bind-Yields (λ _ w'. HasRow w'.visible) (λ _ w'. HasRow w'.visible) first _ w h
        (λ _ w'. insert_all-Yields chunks w')

module _ (env : Env) (owner : OwnerSubject) where
  abbrev pub Has : {A : Type 0} → ℕ → Option DocumentRow → A → World → Type 0
  Has id row a w = get_row id w.visible.documents ≡ row

  insert_document-Answers :
      (document : Document) (setting : Setting) (t : Tables)
      → Answers
          (λ _ t'. get_row document.id.value t'.documents ≡ some (document_values document))
          (changed env (insert_document setting document.id.value (document_values document) t))
  unfolding insert_document
  insert_document-Answers document setting t =
      ground (arith, get-put_self document.id.value (document_values document) t.documents)

  pub add-Yields :
      (document : Document) (w : World)
      → Yields
          (Has document.id.value (some (document_values document)))
          (add (undisturbed env) owner document w)
  unfolding add
  add-Yields document w = skip-Yields _ _ _ w (λ _ w'. skip-Yields _ _ _ w' (λ _ w''.
      add_chunks-Yields document.id.value _ env document.chunks _ w'' (
        statement-Yields env
          (λ _ t. get_row document.id.value t.documents ≡ some (document_values document)) _ w''
          (λ setting. insert_document-Answers document setting w''.visible))))

  update_document-Answers :
      (document : Document) (setting : Setting) (t : Tables)
      → Answers
          (λ n t'.
            (n == 0) ≡ false
            → get_row document.id.value t'.documents ≡ some (document_values document))
          (update_document setting document.id.value (document_values document) t)
  unfolding update_document
  update_document-Answers document setting t =
      ground (arith, get-put_self document.id.value (document_values document) t.documents)

  pub update-Yields :
      (document : Document) (w : World)
      → Yields
          (Has document.id.value (some (document_values document)))
          (update (undisturbed env) owner document w)
  unfolding update
  update-Yields document w = skip-Yields _ _ _ w (λ _ w'. skip-Yields _ _ _ w' (λ _ w''.
      bind-Yields
        (λ n v.
          (n == 0) ≡ false
          → get_row document.id.value v.visible.documents ≡ some (document_values document))
        _ _ _ w''
        (statement-Yields env _ _ w''
          (λ setting. update_document-Answers document setting w''.visible))
        (λ n v h.
          bind-Yields (Has document.id.value (some (document_values document))) _ _ _ v
            (refuse-Yields env (n == 0) not_found _ v h)
            (λ _ v' h'.
              replace_chunks-Yields document.id.value _ env document.id.value document.chunks v'
                h'))))

  delete_document-Answers :
      (id : ℕ) (setting : Setting) (t : Tables)
      → Answers
          (λ n t'. (n == 0) ≡ false → get_row id t'.documents ≡ none)
          (ok (delete_document setting id t))
  unfolding delete_document
  delete_document-Answers id setting t = ground (arith, get-remove id id t.documents, =?_refl id)

  pub delete-Yields :
      (id : DocumentId) (w : World)
      → Yields (Has id.value none) (delete (undisturbed env) owner id w)
  unfolding delete
  delete-Yields id w = skip-Yields _ _ _ w (λ _ w'.
      bind-Yields (λ n v. (n == 0) ≡ false → get_row id.value v.visible.documents ≡ none) _ _ _ w'
        (statement-Yields env _ _ w'
          (λ setting. delete_document-Answers id.value setting w'.visible))
        (λ n v h. refuse-Yields env (n == 0) not_found _ v h))
