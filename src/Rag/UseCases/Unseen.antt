-- ===== src/Rag/UseCases/Unseen.antt =====
-- A document that the owner does not see: one that is absent, or another owner's.
use Prim.Native.String.{count}
use holahost.Base.{ℕ, ◌≡◌, String, false, ◌||◌, Option, none, some, List, ok, err, ltb}
use holahost.Base.Int.{ℤ}
use holahost.Base.Equality.{string_eq, nat_eq}
use holahost.Base.Text.{is_blank}
use holahost.Base.Action.{pure, raise, gets, lift, ◌>>=◌}
use holahost.Db.Retry.{retry_on_concurrent_update}
use holahost.Rag.Values.{OwnerSubject, Embedding, make_owner_subject}
use holahost.Rag.Storage.{select_document}
use holahost.Rag.Data.{World, Env, not_found}
use holahost.Rag.Ports.{checked, enter, exit, with_uow, statement, bind_owner, get, found}
use holahost.Rag.Ports.Effects.{undisturbed}
use holahost.Rag.Ingestion.{embed_query}
use holahost.Rag.UseCases.{
  required, document_id_from_str, get_document_use_case, delete_document_use_case,
  replace_document_use_case, search_document_use_case, delete_once, is_conflict,
}

module _ (env : Env) (id : ℕ) (text : String) (owner : OwnerSubject) (w : World)
    (accepted : make_owner_subject owner.value ≡ ok owner) (parsed : env.parse_uuid text ≡ some id)
    (unseen : select_document (some owner.value) id w.committed ≡ none) where
  get-not_found :
      (get_document_use_case
        (undisturbed env)
        (record { document_id = text; owner = owner.value })
        w).0
      ≡ err not_found
  unfolding get_document_use_case checked lift pure ◌>>=◌ with_uow enter exit get bind_owner
      statement document_id_from_str gets raise
  get-not_found = simp (
    unseen, accepted, parsed, document_id_from_str, with_uow, enter, exit, get, bind_owner,
    statement, gets, found, ◌>>=◌, lift, pure, required,
  )

  replace-not_found :
      (content : List ℕ) (mime_type : String) (name : Option String)
      → (replace_document_use_case
          (undisturbed env)
          (record {
            document_id = text;
            owner = owner.value;
            content = content;
            mime_type = mime_type;
            name = name;
          })
          w).0
        ≡ err not_found
  unfolding replace_document_use_case checked lift pure ◌>>=◌ with_uow enter exit get bind_owner
      statement document_id_from_str gets raise
  replace-not_found content mime_type name = simp (
    unseen, accepted, parsed, document_id_from_str, with_uow, enter, exit, get, bind_owner,
    statement, gets, found, ◌>>=◌, lift, pure, required,
  )

  delete-not_found :
      (delete_document_use_case
        (undisturbed env)
        (record { document_id = text; owner = owner.value })
        w).0
      ≡ err not_found
  unfolding delete_document_use_case delete_once retry_on_concurrent_update is_conflict checked lift
      pure ◌>>=◌ with_uow enter exit get bind_owner statement document_id_from_str gets raise
  delete-not_found = simp (
    unseen, accepted, parsed, document_id_from_str, with_uow, enter, exit, get, bind_owner,
    statement, gets, found, ◌>>=◌, lift, pure, required,
  )

  search-not_found :
      (k : ℕ) (threshold : ℤ) (max_query_length : ℕ) (text_sought : String) (query : Embedding)
      → (is_blank text_sought || ltb max_query_length (count text_sought)) ≡ false
      → embed_query (undisturbed env) text_sought ≡ ok query
      → (search_document_use_case
          (undisturbed env)
          k
          threshold
          max_query_length
          (record { document_id = text; owner = owner.value; query = text_sought })
          w).0
        ≡ err not_found
  unfolding search_document_use_case checked lift pure ◌>>=◌ with_uow enter exit get bind_owner
      statement document_id_from_str gets raise
  search-not_found k threshold max_query_length text_sought query short embedded = simp (
    short, embedded, unseen, accepted, parsed, document_id_from_str, with_uow, enter, exit, get,
    bind_owner, statement, gets, found, ◌>>=◌, lift, pure, required,
  )

  -- Where the owner sees no such document, because there is none or it is another owner's, no other request
  -- runs and storage does not fail: reading it, deleting it, replacing it by any content under any name,
  -- and searching it for any text of an acceptable length that the model embeds are all
  -- answered not found.
  pub unseen-not_found :
      (content : List ℕ) (mime_type : String) (name : Option String) (k : ℕ) (threshold : ℤ)
      (max_query_length : ℕ) (text_sought : String) (query : Embedding)
      → (is_blank text_sought || ltb max_query_length (count text_sought)) ≡ false
      → embed_query (undisturbed env) text_sought ≡ ok query
      → (((get_document_use_case
              (undisturbed env)
              (record { document_id = text; owner = owner.value })
              w).0
            ≡ err not_found)
          × ((delete_document_use_case
                (undisturbed env)
                (record { document_id = text; owner = owner.value })
                w).0
              ≡ err not_found))
        × (((replace_document_use_case
                (undisturbed env)
                (record {
                  document_id = text;
                  owner = owner.value;
                  content = content;
                  mime_type = mime_type;
                  name = name;
                })
                w).0
              ≡ err not_found)
            × ((search_document_use_case
                  (undisturbed env)
                  k
                  threshold
                  max_query_length
                  (record { document_id = text; owner = owner.value; query = text_sought })
                  w).0
                ≡ err not_found))
  unseen-not_found content mime_type name k threshold max_query_length text_sought query short
        embedded =
      (
        (get-not_found, delete-not_found),
        (
          replace-not_found content mime_type name,
          search-not_found k threshold max_query_length text_sought query short embedded,
        ),
      )
