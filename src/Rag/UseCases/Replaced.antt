-- ===== src/Rag/UseCases/Replaced.antt =====
-- What `get` returns is of the owner, and what a replace writes is what is read.
use holahost.Base.{
  ℕ, zero, suc, ◌≡◌, refl, ◌∙◌, String, Bool, true, false, Option, none, some, List, Result, ok,
  err, and_then, if◌then◌else◌, arith, length,
}
use holahost.Base.Equality.{string_eq, nat_eq}
use holahost.Base.Dict.{get as get_row}
use holahost.Base.Action.{raise}
use holahost.Db.Retry.{retry_on_concurrent_update, default_max_retries}
use holahost.Rag.Values.{
  Valid, DocumentId, OwnerSubject, DocumentName, MimeType, make_owner_subject, make_document_name,
  make_mime_type,
}
use holahost.Rag.Values.Accepted.{
  Returns, make_owner_subject-Returns, make_mime_type-Returns, make_document_name-Returns,
}
use holahost.Rag.Entities.{
  Document, Chunk, document_from_repo, rename, replace_content, validate_chunks, when_valid,
}
use holahost.Rag.Storage.{DocumentRow, Tables, permits_some, select_document}
use holahost.Rag.Data.{World, Env, Raised, M, ReplaceDocumentCmd}
use holahost.Rag.Ports.{document_values, document_from_row, bind_owner, set_owner, get, found}
use holahost.Rag.Ports.Effects.{
  undisturbed, Yields, bind-Yields, skip-Yields, with_uow-Yields, statement_now-Yields,
}
use holahost.Rag.Ports.Effects.Writes.{update-Yields}
use holahost.Rag.UseCases.{
  required, rename_to, write, replace_document_use_case, acceptable_new_name, acceptable_name,
}
use holahost.Rag.UseCases.RoundTrip.{
  IsAccepted, Reads, stored-Reads, pure-Yields, lift-Yields, checked-Yields, or_raise-Returns,
  supported_mime_type-Returns, acceptable_name-Returns,
}

-- A document of the identifier and of the owner, which the constructors accept again.
pub record IsOwn (owner : OwnerSubject) (id : DocumentId) (d : Document) : Type 0 where
  pub accepted : IsAccepted d
  pub same_owner : d.owner.value ≡ owner.value
  pub same_id : d.id.value ≡ id.value

abbrev IsOwnOption : OwnerSubject → DocumentId → Option Document → Type 0
IsOwnOption owner id none = Unit
IsOwnOption owner id (some d) = IsOwn owner id d

abbrev OwnedBy : OwnerSubject → Option DocumentRow → Type 0
OwnedBy owner none = Unit
OwnedBy owner (some row) = row.owner_subject ≡ owner.value

select_document-OwnedBy :
    (owner : OwnerSubject) (id : ℕ) (t : Tables)
    → OwnedBy owner (select_document (some owner.value) id t)
unfolding select_document
select_document-OwnedBy owner id t = both (get_row id t.documents)
  where
    both :
        (o : Option DocumentRow)
        → OwnedBy owner (if permits_some (some owner.value) o then o else none)
    both none = tt
    both (some row) = ground (arith, string_eq.beq_iff row.owner_subject owner.value)

module _ (env : Env) (owner : OwnerSubject) where
  document_from_row-IsOwn :
      (id : DocumentId) (row : DocumentRow) (w : World)
      → row.owner_subject ≡ owner.value
      → Yields (λ d w'. IsOwn owner id d) (document_from_row id.value row w)
  unfolding document_from_row document_from_repo
  document_from_row-IsOwn id row w e =
      bind-Yields
        (λ (o : OwnerSubject) w'.
          (make_owner_subject o.value ≡ ok o) × (o.value ≡ row.owner_subject))
        _ _ _ w (checked-Yields env _ _ w (make_owner_subject-Returns row.owner_subject))
        (λ o w h.
          bind-Yields (λ n w'. make_document_name n.value ≡ ok n) _ _ _ w
            (checked-Yields env _ _ w (make_document_name-Returns row.name))
            (λ n w hn.
              bind-Yields (λ m w'. make_mime_type m.value ≡ ok m) _ _ _ w
                (checked-Yields env _ _ w (make_mime_type-Returns row.mime_type))
                (λ m w hm.
                  pure-Yields env (λ d w'. IsOwn owner id d) _ w
                    (record {
                      accepted = record { owner = h.0; name = hn; mime_type = hm };
                      same_owner = h.1 ∙ e;
                      same_id = refl;
                    }))))

  found-IsOwn :
      (id : DocumentId) (row : Option DocumentRow) (w : World)
      → OwnedBy owner row
      → Yields (λ o w'. IsOwnOption owner id o) (found (undisturbed env) id.value row w)
  found-IsOwn id none w h = pure-Yields env (λ o w'. IsOwnOption owner id o) none w tt
  found-IsOwn id (some row) w h =
      bind-Yields (λ d w'. IsOwn owner id d) _ _ _ w (document_from_row-IsOwn id row w h)
        (λ d w own. pure-Yields env (λ o w'. IsOwnOption owner id o) (some d) w own)

  set-Yields :
      (w : World)
      → Yields (λ _ w'. w'.setting ≡ some owner.value) (set_owner (undisturbed env) owner w)
  set-Yields w = refl

  get-IsOwn :
      (id : DocumentId) (w : World)
      → Yields (λ o w'. IsOwnOption owner id o) (get (undisturbed env) owner id w)
  unfolding get bind_owner
  get-IsOwn id w =
      bind-Yields (λ _ w'. w'.setting ≡ some owner.value) _ _ _ w
        (skip-Yields _ _ _ w (λ _ w'. set-Yields w'))
        (λ _ w h.
          bind-Yields (λ row w'. OwnedBy owner row) _ _ _ w
            (statement_now-Yields env (λ row t. OwnedBy owner row) _ w
              (rw h (select_document-OwnedBy owner id.value w.visible)))
            (λ row w h'. found-IsOwn id row w h'))

  required-IsOwn :
      (id : DocumentId) (o : Option Document) (w : World)
      → IsOwnOption owner id o
      → Yields (λ d w'. IsOwn owner id d) (required o w)
  unfolding raise
  required-IsOwn id none w h = tt
  required-IsOwn id (some d) w h = pure-Yields env (λ d w'. IsOwn owner id d) d w h

  NameAccepted : Option DocumentName → Type 0
  NameAccepted none = Unit
  NameAccepted (some name) = make_document_name name.value ≡ ok name

  rename_to-IsOwn :
      (id : DocumentId) (name : Option DocumentName) (d : Document) (w : World)
      → NameAccepted name
      → IsOwn owner id d
      → Yields (λ d' w'. IsOwn owner id d') (rename_to (undisturbed env) name d w)
  unfolding NameAccepted rename
  rename_to-IsOwn id none d w n h = pure-Yields env (λ d w'. IsOwn owner id d) d w h
  rename_to-IsOwn id (some name) d w n h = skip-Yields _ _ _ w (λ now w.
      pure-Yields env (λ d w'. IsOwn owner id d) _ w
        (record {
          accepted = record {
            owner = h.accepted.owner;
            name = n;
            mime_type = h.accepted.mime_type;
          };
          same_owner = h.same_owner;
          same_id = h.same_id;
        }))

  replace_content-IsOwn :
      (id : DocumentId) (mime_type : MimeType) (chunks : List Chunk) (now : ℕ) (d : Document)
      → make_mime_type mime_type.value ≡ ok mime_type
      → IsOwn owner id d
      → Returns (IsOwn owner id) (replace_content mime_type chunks now d)
  unfolding replace_content
  replace_content-IsOwn id mime_type chunks now d m h = both (validate_chunks d.id chunks)
    where
      both :
          (v : Valid (Unit {0}))
          → Returns (IsOwn owner id) (
              when_valid v (record d {
                mime_type = mime_type;
                chunk_count = length chunks;
                chunks = some chunks;
                updated_at = now;
              }))
      both (ok _) = record {
        accepted = record { owner = h.accepted.owner; name = h.accepted.name; mime_type = m };
        same_owner = h.same_owner;
        same_id = h.same_id;
      }
      both (err e) = tt

  -- The document is of the owner, and its row is stored.
  IsWritten : DocumentId → Document → Tables → Type 0
  IsWritten id d t = IsOwn owner id d × (get_row d.id.value t.documents ≡ some (document_values d))

  write-IsWritten :
      (id : DocumentId) (name : Option DocumentName) (mime_type : MimeType) (chunks : List Chunk)
      (w : World)
      → NameAccepted name
      → make_mime_type mime_type.value ≡ ok mime_type
      → Yields
          (λ d w'. IsWritten id d w'.committed)
          (write (undisturbed env) owner id name mime_type chunks w)
  unfolding write IsWritten
  write-IsWritten id name mime_type chunks w n m = with_uow-Yields env (IsWritten id) _ w (λ w _.
      bind-Yields (λ o w'. IsOwnOption owner id o) _ _ _ w (get-IsOwn id w)
        (λ o w h.
          bind-Yields (λ d w'. IsOwn owner id d) _ _ _ w (required-IsOwn id o w h)
            (λ d w h.
              bind-Yields (λ d w'. IsOwn owner id d) _ _ _ w (rename_to-IsOwn id name d w n h)
                (λ d w h. skip-Yields _ _ _ w (λ now w.
                  bind-Yields (λ d w'. IsOwn owner id d) _ _ _ w
                    (lift-Yields env (IsOwn owner id) _ w (
                      or_raise-Returns env (IsOwn owner id) _
                        (replace_content mime_type chunks now d)
                        (replace_content-IsOwn id mime_type chunks now d m h)))
                    (λ d w h.
                      bind-Yields
                        (λ _ w'. get_row d.id.value w'.visible.documents ≡ some (document_values d))
                        _ _ _ w (update-Yields env owner d w)
                        (λ _ w k.
                          pure-Yields env (λ d w'. IsWritten id d w'.visible) d w (h, k))))))))

pub retry-Yields :
    {A : Type 0}
    → (Q : A → World → Type 0) (conflict : Result Raised A → Bool) (n : ℕ) (m : M A) (w : World)
    → ((w : World) → Yields Q (m w))
    → Yields Q (retry_on_concurrent_update conflict n m w)
unfolding retry_on_concurrent_update
retry-Yields Q conflict zero m w h = h w
retry-Yields {A = A} Q conflict (suc n) m w h =
    let (r, w') = m w in
    both (conflict r) (retry_on_concurrent_update conflict n m w') (r, w')
      (retry-Yields Q conflict n m w' h) (h w)
  where
    both :
        (b : Bool) (x y : Result Raised A × World)
        → Yields Q x
        → Yields Q y
        → Yields Q (if b then x else y)
    both true x y p q = p
    both false x y p q = q

module _ (env : Env) where
  acceptable_new_name-Accepted :
      (owner : OwnerSubject) (name : Option String)
      → Returns (NameAccepted env owner) (acceptable_new_name name)
  unfolding acceptable_new_name NameAccepted
  acceptable_new_name-Accepted owner none = tt
  acceptable_new_name-Accepted owner (some s) =
      both (acceptable_name s) (acceptable_name-Returns env s)
    where
      both :
          (r : Result Raised DocumentName)
          → Returns (λ (n : DocumentName). make_document_name n.value ≡ ok n) r
          → Returns (NameAccepted env owner) (and_then r (λ n. ok (some n)))
      both (ok n) h = h
      both (err e) h = tt

  module _ (prints : (n : ℕ) → env.parse_uuid (env.print_uuid n) ≡ some n) where
    pub replace_document_use_case-Yields :
        (cmd : ReplaceDocumentCmd) (w : World)
        → Yields
            (λ view w'. Reads env cmd.owner (ok view) view w')
            (replace_document_use_case (undisturbed env) cmd w)
    unfolding replace_document_use_case IsWritten
    replace_document_use_case-Yields cmd w =
        bind-Yields
          (λ (o : OwnerSubject) w'. (make_owner_subject o.value ≡ ok o) × (o.value ≡ cmd.owner)) _ _
          _ w (checked-Yields env _ _ w (make_owner_subject-Returns cmd.owner))
          (λ owner w o. skip-Yields _ _ _ w (λ id w. skip-Yields _ _ _ w (λ existing w.
            bind-Yields (λ m w'. make_mime_type m.value ≡ ok m) _ _ _ w
              (lift-Yields env _ _ w (supported_mime_type-Returns env cmd.mime_type))
              (λ mime_type w m.
                bind-Yields (λ name w'. NameAccepted env owner name) _ _ _ w
                  (lift-Yields env _ _ w (acceptable_new_name-Accepted owner cmd.name))
                  (λ name w n. skip-Yields _ _ _ w (λ prepared w. skip-Yields _ _ _ w (λ parts w.
                    bind-Yields (λ d w'. IsWritten env owner id d w'.committed) _ _ _ w
                      (retry-Yields _ _ default_max_retries _ w
                        (λ w. write-IsWritten env owner id name mime_type parts w n m))
                      (λ d w h.
                        pure-Yields env (λ view w'. Reads env cmd.owner (ok view) view w') _ w
                          (stored-Reads env d d.owner cmd.owner w (h.0.accepted, refl)
                            (h.0.same_owner ∙ o.1) (prints d.id.value) h.1)))))))))
