-- ===== src/Rag/UseCases/Isolation.antt =====
-- What no use case touches: another owner's document.
use holahost.Base.{
  ℕ, zero, suc, ◌+◌, String, ◌≡◌, refl, Bool, true, false, Option, none, some, List, [], ◌∷◌,
  Result, ok, if◌then◌else◌,
}
use holahost.Base.Int.{ℤ}
use holahost.Base.Equality.{◌=?◌, string_eq}
use holahost.Base.Text.{is_blank}
use holahost.Base.Action.{Action, lift, ◌>>=◌}
use holahost.Base.Action.Hoare.{Keeps, keeps_rules, pure-Keeps, raise-Keeps, lift-Keeps, bind-Keeps}
use holahost.Db.Retry.{retry_on_concurrent_update, default_max_retries}
use holahost.Rag.Values.{
  DocumentId, OwnerSubject, DocumentName, MimeType, make_owner_subject, Embedding, defect,
}
use holahost.Rag.Entities.{Document, Chunk}
use holahost.Rag.Storage.{DocumentRow, ChunkRow, permits}
use holahost.Rag.Data.{
  World, Env, M, TextFragment, CreateDocumentCmd, ReplaceDocumentCmd, GetDocumentCmd,
  DeleteDocumentCmd, SearchCmd,
}
use holahost.Rag.Ports.{checked, or_domain}
use holahost.Rag.Ports.Isolation.{
  IsApart, Spares, now_utc-Keeps, fresh_uuid-Keeps, checked-Keeps, with_uow-Keeps, statement-Keeps,
  bind_owner-Keeps, get-Keeps, add-Keeps, update-Keeps, delete-Keeps,
}
use holahost.Rag.Search.{top_k}
use holahost.Rag.UseCases.{
  required, rename_to, new_chunk, new_chunks, write, delete_once, create_document_use_case,
  replace_document_use_case, get_document_use_case, delete_document_use_case,
  search_document_use_case,
}

module _ {S E A : Type 0} (P : S → Type 0) (conflict : Result E A → Bool) where
  either : (b : Bool) (x y : Result E A × S) → P x.1 → P y.1 → P (if b then x else y).1
  either true x y p q = p
  either false x y p q = q

  retry-Keeps :
      (n : ℕ) (m : Action S E A) → Keeps P m → Keeps P (retry_on_concurrent_update conflict n m)
  unfolding retry_on_concurrent_update
  retry-Keeps zero m k = k
  retry-Keeps (suc n) m k = record {
    keeps = λ s h.
        let (r, s') = m s in
        either (conflict r) (retry_on_concurrent_update conflict n m s') (r, s')
          ((retry-Keeps n m k).keeps s' (k.keeps s h)) (k.keeps s h);
  }

module _ (env : Env) (id : ℕ) (row : DocumentRow) (rows : List ChunkRow)
    (spares : Spares env id row rows) where
  abbrev P : World → Type 0
  P = IsApart id row rows

  required-Keeps : (d : Option Document) → Keeps P (required d)
  required-Keeps none = raise-Keeps _
  required-Keeps (some d) = pure-Keeps d

  rename_to-Keeps : (name : Option DocumentName) (d : Document) → Keeps P (rename_to env name d)
  rename_to-Keeps none d = pure-Keeps d
  rename_to-Keeps (some name) d =
      bind-Keeps _ _ (now_utc-Keeps env id row rows spares) (λ now. pure-Keeps _)

  new_chunk-Keeps :
      (j : DocumentId) (i : ℕ) (f : TextFragment) (e : Embedding) → Keeps P (new_chunk env j i f e)
  unfolding new_chunk
  new_chunk-Keeps j i f e = search (keeps_rules, checked-Keeps, fresh_uuid-Keeps, spares)

  new_chunks-Keeps :
      (j : DocumentId) (i : ℕ) (fs : List TextFragment) (es : List Embedding)
      → Keeps P (new_chunks env j i fs es)
  unfolding new_chunks
  new_chunks-Keeps j i [] [] = pure-Keeps []
  new_chunks-Keeps j i (f ∷ fs) (e ∷ es) =
      bind-Keeps _ _ (new_chunk-Keeps j i f e)
        (λ c. bind-Keeps _ _ (new_chunks-Keeps j (i + 1) fs es) (λ cs. pure-Keeps _))
  new_chunks-Keeps j i [] (e ∷ es) = raise-Keeps _
  new_chunks-Keeps j i (f ∷ fs) [] = raise-Keeps _

  -- The checks of an owner's subject.
  owner-Keeps :
      {A : Type 0}
      → (s : String) (f : OwnerSubject → M A) → ((o : OwnerSubject) → o.value ≡ s → Keeps P (f o))
      → Keeps P (checked (make_owner_subject s) >>= f)
  unfolding make_owner_subject checked lift ◌>>=◌
  owner-Keeps s f k = both (is_blank s)
    where
      both :
          (b : Bool)
          → Keeps P (lift (or_domain (if b then defect else ok (record { value = s }))) >>= f)
      both true = record { keeps = λ w h. h }
      both false = record { keeps = (k (record { value = s }) refl).keeps }

  -- A subject that the policy hides the document from.
  hidden_from :
      (s : String) (o : OwnerSubject)
      → (row.owner_subject =? s) ≡ false
      → o.value ≡ s
      → permits (some o.value) row ≡ false
  hidden_from s o h e = rw e h

  write-Keeps :
      (owner : OwnerSubject) (j : DocumentId) (name : Option DocumentName) (mime_type : MimeType)
      (chunks : List Chunk)
      → permits (some owner.value) row ≡ false
      → Keeps P (write env owner j name mime_type chunks)
  unfolding write
  write-Keeps owner j name mime_type chunks h =
      search
        (
          keeps_rules, with_uow-Keeps, get-Keeps, update-Keeps, required-Keeps, rename_to-Keeps,
          now_utc-Keeps, spares, h,
        )
        depth 20

  delete_once-Keeps :
      (owner : OwnerSubject) (j : DocumentId)
      → permits (some owner.value) row ≡ false
      → Keeps P (delete_once env owner j)
  unfolding delete_once
  delete_once-Keeps owner j h =
      search (keeps_rules, with_uow-Keeps, get-Keeps, delete-Keeps, required-Keeps, spares, h) depth
        20

  top_k-Keeps :
      (owner : OwnerSubject) (j : DocumentId) (query : Embedding) (k : ℕ) (threshold : ℤ)
      → permits (some owner.value) row ≡ false
      → Keeps P (top_k env owner j query k threshold)
  unfolding top_k
  top_k-Keeps owner j query k threshold h =
      bind-Keeps _ _ (bind_owner-Keeps env id row rows spares owner h) (λ _.
        bind-Keeps _ _ (statement-Keeps env id row rows spares _ (λ setting t k s. s))
          (λ hits. checked-Keeps env id row rows spares _))

  pub create_document_use_case-Keeps :
      (cmd : CreateDocumentCmd)
      → (row.owner_subject =? cmd.owner) ≡ false
      → Keeps P (create_document_use_case env cmd)
  unfolding create_document_use_case
  create_document_use_case-Keeps cmd h = bind-Keeps _ _ (lift-Keeps _) (λ mime_type.
      bind-Keeps _ _ (lift-Keeps _) (λ name. bind-Keeps _ _ (lift-Keeps _) (λ prepared.
        owner-Keeps cmd.owner _ (λ owner e.
          bind-Keeps _ _ (fresh_uuid-Keeps env id row rows spares) (λ j.
            bind-Keeps _ _ (new_chunks-Keeps _ 0 _ _) (λ parts.
              bind-Keeps _ _ (now_utc-Keeps env id row rows spares) (λ now.
                bind-Keeps _ _ (lift-Keeps _) (λ document.
                  bind-Keeps _ _
                    (with_uow-Keeps env id row rows spares _ (
                      add-Keeps env id row rows spares owner (hidden_from cmd.owner owner h e)
                        document))
                    (λ _. pure-Keeps _)))))))))

  pub replace_document_use_case-Keeps :
      (cmd : ReplaceDocumentCmd)
      → (row.owner_subject =? cmd.owner) ≡ false
      → Keeps P (replace_document_use_case env cmd)
  unfolding replace_document_use_case
  replace_document_use_case-Keeps cmd h = owner-Keeps cmd.owner _ (λ owner e.
      let k = hidden_from cmd.owner owner h e in
      search
        (
          keeps_rules, with_uow-Keeps, get-Keeps, required-Keeps, new_chunks-Keeps, retry-Keeps,
          write-Keeps, spares, k,
        )
        depth 20)

  pub get_document_use_case-Keeps :
      (cmd : GetDocumentCmd)
      → (row.owner_subject =? cmd.owner) ≡ false
      → Keeps P (get_document_use_case env cmd)
  unfolding get_document_use_case
  get_document_use_case-Keeps cmd h = owner-Keeps cmd.owner _ (λ owner e.
      let k = hidden_from cmd.owner owner h e in
      search (keeps_rules, with_uow-Keeps, get-Keeps, required-Keeps, spares, k) depth 20)

  pub delete_document_use_case-Keeps :
      (cmd : DeleteDocumentCmd)
      → (row.owner_subject =? cmd.owner) ≡ false
      → Keeps P (delete_document_use_case env cmd)
  unfolding delete_document_use_case
  delete_document_use_case-Keeps cmd h = bind-Keeps _ _ (lift-Keeps _) (λ j.
      owner-Keeps cmd.owner _ (λ owner e.
        retry-Keeps P _ default_max_retries _
          (delete_once-Keeps owner j (hidden_from cmd.owner owner h e))))

  pub search_document_use_case-Keeps :
      (k : ℕ) (threshold : ℤ) (n : ℕ) (cmd : SearchCmd)
      → (row.owner_subject =? cmd.owner) ≡ false
      → Keeps P (search_document_use_case env k threshold n cmd)
  unfolding search_document_use_case
  search_document_use_case-Keeps k threshold n cmd h = owner-Keeps cmd.owner _ (λ owner e.
      let k' = hidden_from cmd.owner owner h e in
      search (keeps_rules, with_uow-Keeps, get-Keeps, required-Keeps, top_k-Keeps, spares, k') depth
        20)
