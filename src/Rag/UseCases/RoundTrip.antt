-- ===== src/Rag/UseCases/RoundTrip.antt =====
-- What is created or replaced is what is read, where no other request runs and no storage fault
-- occurs.
use holahost.Base.{
  ℕ, ◌≡◌, refl, ap, ◌∙◌, length, String, none, some, List, Result, ok, err, or_raise,
}
use mathlib.Core.Path.{subst}
use holahost.Base.Equality.{string_eq, nat_eq}
use holahost.Base.Dict.{get as get_row, =?_refl}
use holahost.Base.Action.{pure, raise, gets, lift, ◌>>=◌}
use holahost.Rag.Values.{
  Valid, DocumentId, OwnerSubject, DocumentName, MimeType, make_owner_subject, make_document_name,
  make_mime_type,
}
use holahost.Rag.Entities.{
  Document, Chunk, document_from_repo, create_document, validate_chunks, when_valid,
}
use holahost.Rag.Storage.{select_document}
use holahost.Rag.Data.{World, Env, Raised, not_found, DocumentView, CreateDocumentCmd}
use holahost.Rag.Ports.{
  checked, document_values, document_from_row, enter, exit, with_uow, statement, bind_owner, get,
  found,
}
use holahost.Rag.Ports.Effects.{undisturbed, Yields, bind-Yields, skip-Yields, with_uow-Yields}
use holahost.Rag.Ports.Effects.Writes.{add-Yields}
use holahost.Rag.Values.Accepted.{
  Returns, make_owner_subject-Returns, make_mime_type-Returns, make_document_name-Returns,
}
use holahost.Rag.UseCases.{
  view_of, required, document_id_from_str, get_document_use_case, create_document_use_case,
  supported_mime_type, acceptable_name,
}

-- The constructors accept what they returned.
pub record IsAccepted (d : Document) : Type 0 where
  pub owner : make_owner_subject d.owner.value ≡ ok d.owner
  pub name : make_document_name d.name.value ≡ ok d.name
  pub mime_type : make_mime_type d.mime_type.value ≡ ok d.mime_type

module _ (env : Env) where
  pub from_row :
      (d : Document) (w : World)
      → IsAccepted d
      → document_from_row d.id.value (document_values d) w ≡ (ok (record d { chunks = none }), w)
  unfolding document_from_row checked lift pure ◌>>=◌ document_from_repo
  from_row d w a = simp (a.owner, a.name, a.mime_type)

  read_back :
      (d : Document) (w : World)
      → get_row d.id.value w.committed.documents ≡ some (document_values d)
      → IsAccepted d
      → env.parse_uuid (env.print_uuid d.id.value) ≡ some d.id.value
      → (get_document_use_case
          (undisturbed env)
          (record { document_id = env.print_uuid d.id.value; owner = d.owner.value })
          w).0
        ≡ ok (view_of env d)
  unfolding get_document_use_case checked lift pure ◌>>=◌ with_uow enter exit get bind_owner
      statement select_document view_of document_id_from_str gets
  read_back d w h a u = simp (
    h,
    =?_refl d.owner.value,
    a.owner,
    u,
    from_row,
    document_id_from_str,
    with_uow,
    enter,
    exit,
    get,
    bind_owner,
    statement,
    gets,
    found,
    select_document,
    ◌>>=◌,
    lift,
    pure,
    required,
  )

  pub gone :
      (id : ℕ) (text : String) (owner : OwnerSubject) (w : World)
      → get_row id w.committed.documents ≡ none
      → make_owner_subject owner.value ≡ ok owner
      → env.parse_uuid text ≡ some id
      → (get_document_use_case
          (undisturbed env)
          (record { document_id = text; owner = owner.value })
          w).0
        ≡ err not_found
  unfolding get_document_use_case checked lift pure ◌>>=◌ with_uow enter exit get bind_owner
      statement select_document view_of document_id_from_str gets raise
  gone id text owner w h a u = simp (
    h, a, u, document_id_from_str, with_uow, enter, exit, get, bind_owner, statement, gets, found,
    select_document, ◌>>=◌, lift, pure, required,
  )

  pub lift-Yields :
      {A : Type 0}
      → (Q : A → Type 0) (r : Result Raised A) (w : World) → Returns Q r
      → Yields (λ a w'. Q a) (lift r w)
  unfolding lift
  lift-Yields Q (ok a) w h = h
  lift-Yields Q (err e) w h = h

  pub or_raise-Returns :
      {E A : Type 0}
      → (Q : A → Type 0) (f : E → Raised) (r : Result E A) → Returns Q r
      → Returns Q (or_raise f r)
  or_raise-Returns Q f (ok a) h = h
  or_raise-Returns Q f (err e) h = h

  pub supported_mime_type-Returns :
      (s : String)
      → Returns (λ (m : MimeType). make_mime_type m.value ≡ ok m) (supported_mime_type s)
  unfolding supported_mime_type
  supported_mime_type-Returns s = or_raise-Returns _ _ (make_mime_type s) (make_mime_type-Returns s)

  pub acceptable_name-Returns :
      (s : String)
      → Returns (λ (n : DocumentName). make_document_name n.value ≡ ok n) (acceptable_name s)
  unfolding acceptable_name
  acceptable_name-Returns s =
      or_raise-Returns _ _ (make_document_name s) (make_document_name-Returns s)

  pub checked-Yields :
      {A : Type 0}
      → (Q : A → Type 0) (v : Valid A) (w : World) → Returns Q v
      → Yields (λ a w'. Q a) (checked v w)
  unfolding checked lift
  checked-Yields Q (ok a) w h = h
  checked-Yields Q (err e) w h = h

  -- A document of the owner that the constructors accept again.
  abbrev pub Owned : OwnerSubject → Document → Type 0
  Owned owner d = IsAccepted d × (d.owner ≡ owner)

  create_document-Owned :
      (id : DocumentId) (owner : OwnerSubject) (name : DocumentName) (mime_type : MimeType)
      (chunks : List Chunk) (now : ℕ)
      → make_owner_subject owner.value ≡ ok owner
      → make_document_name name.value ≡ ok name
      → make_mime_type mime_type.value ≡ ok mime_type
      → Returns (Owned owner) (create_document id owner name mime_type chunks now)
  unfolding create_document
  create_document-Owned id owner name mime_type chunks now o n m = both (validate_chunks id chunks)
    where
      both :
          (v : Valid (Unit {0}))
          → Returns (Owned owner) (
              when_valid v (record {
                id = id;
                owner = owner;
                name = name;
                mime_type = mime_type;
                chunk_count = length chunks;
                created_at = now;
                updated_at = now;
                chunks = some chunks;
              }))
      both (ok _) = (record { owner = o; name = n; mime_type = m }, refl)
      both (err e) = tt

  -- What is read of the document that a view shows.
  abbrev pub Reads : String → Result Raised DocumentView → DocumentView → World → Type 0
  Reads owner answer view w =
      (get_document_use_case (undisturbed env)
        (record { document_id = view.document_id; owner = owner }) w).0
      ≡ answer

  pub stored-Reads :
      (d : Document) (owner : OwnerSubject) (s : String) (w : World)
      → Owned owner d
      → owner.value ≡ s
      → env.parse_uuid (env.print_uuid d.id.value) ≡ some d.id.value
      → get_row d.id.value w.committed.documents ≡ some (document_values d)
      → Reads s (ok (view_of (undisturbed env) d)) (view_of (undisturbed env) d) w
  unfolding view_of
  stored-Reads d owner s w a e u h =
      subst (λ s'. Reads s' (ok (view_of env d)) (view_of env d) w)
        (ap (λ (o : OwnerSubject). o.value) a.1 ∙ e) (read_back d w h a.0 u)

  pub pure-Yields :
      {A : Type 0} → (Q : A → World → Type 0) (a : A) (w : World) → Q a w → Yields Q (pure a w)
  unfolding pure
  pure-Yields Q a w h = h

  module _ (prints : (n : ℕ) → env.parse_uuid (env.print_uuid n) ≡ some n) where
    pub create_document_use_case-Yields :
        (cmd : CreateDocumentCmd) (w : World)
        → Yields
            (λ view w'. Reads cmd.owner (ok view) view w')
            (create_document_use_case (undisturbed env) cmd w)
    unfolding create_document_use_case
    create_document_use_case-Yields cmd w =
        bind-Yields (λ m w'. make_mime_type m.value ≡ ok m) _ _ _ w
          (lift-Yields _ _ w (supported_mime_type-Returns cmd.mime_type))
          (λ mime_type w m.
            bind-Yields (λ n w'. make_document_name n.value ≡ ok n) _ _ _ w
              (lift-Yields _ _ w (acceptable_name-Returns cmd.name))
              (λ name w n. skip-Yields _ _ _ w (λ prepared w.
                bind-Yields
                  (λ (o : OwnerSubject) w'.
                    (make_owner_subject o.value ≡ ok o) × (o.value ≡ cmd.owner))
                  _ _ _ w (checked-Yields _ _ w (make_owner_subject-Returns cmd.owner))
                  (λ owner w o. skip-Yields _ _ _ w (λ id w. skip-Yields _ _ _ w (λ parts w.
                    skip-Yields _ _ _ w (λ now w.
                      bind-Yields (λ d w'. Owned owner d) _ _ _ w
                        (lift-Yields (Owned owner) _ w (
                          or_raise-Returns (Owned owner) _
                            (create_document _ owner name mime_type parts now)
                            (create_document-Owned _ owner name mime_type parts now o.0 n m)))
                        (λ d w a.
                          bind-Yields
                            (λ (_ : Unit {0}) (w' : World).
                              get_row d.id.value w'.committed.documents ≡ some (document_values d))
                            _ _ _ w (with_uow-Yields env _ _ w (λ w' _. add-Yields env owner d w'))
                            (λ _ w h.
                              pure-Yields (λ view w'. Reads cmd.owner (ok view) view w') _ w
                                (stored-Reads d owner cmd.owner w a o.1 (prints d.id.value)
                                  h))))))))))
