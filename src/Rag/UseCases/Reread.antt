-- ===== src/Rag/UseCases/Reread.antt =====
-- Two requests of one owner in a row, with no other between them and no storage fault.
use mathlib.Core.Path.{subst}
use holahost.Base.{ℕ, ◌≡◌, String, none, some, Result, ok, err, arith}
use holahost.Base.Equality.{nat_eq}
use holahost.Base.Dict.{get as get_row}
use holahost.Db.Retry.{default_max_retries}
use holahost.Rag.Values.{DocumentId, OwnerSubject, make_owner_subject}
use holahost.Rag.Values.Accepted.{Returns, make_owner_subject-Returns}
use holahost.Rag.Data.{
  World, Env, Raised, not_found, DocumentView, CreateDocumentCmd, ReplaceDocumentCmd,
  DeleteDocumentCmd,
}
use holahost.Rag.Ports.Effects.{
  undisturbed, Yields, bind-Yields, skip-Yields, with_uow-Yields, imply-Yields, returned-Yields,
}
use holahost.Rag.Ports.Effects.Writes.{delete-Yields}
use holahost.Rag.UseCases.{
  document_id_from_str, delete_once, create_document_use_case, replace_document_use_case,
  get_document_use_case, delete_document_use_case,
}
use holahost.Rag.UseCases.RoundTrip.{
  gone, lift-Yields, checked-Yields, create_document_use_case-Yields,
}
use holahost.Rag.UseCases.Replaced.{replace_document_use_case-Yields, retry-Yields}

module _ (env : Env) where
  -- What a request for a document's view is answered.
  abbrev pub answer_to_get : String → String → World → Result Raised DocumentView
  answer_to_get document_id owner w =
      (get_document_use_case (undisturbed env) (record { document_id = document_id; owner = owner })
        w).0

  delete_once-Yields :
      (owner : OwnerSubject) (id : DocumentId) (w : World)
      → Yields
          (λ _ w'. get_row id.value w'.committed.documents ≡ none)
          (delete_once (undisturbed env) owner id w)
  unfolding delete_once
  delete_once-Yields owner id w =
      with_uow-Yields env (λ _ t. get_row id.value t.documents ≡ none) _ w
        (λ w _.
          skip-Yields _ _ _ w (λ o w. skip-Yields _ _ _ w (λ d w. delete-Yields env owner id w)))

  document_id_from_str-Returns :
      (text : String)
      → Returns
          (λ (id : DocumentId). env.parse_uuid text ≡ some id.value)
          (document_id_from_str (undisturbed env) text)
  unfolding document_id_from_str
  document_id_from_str-Returns text = ground arith

  delete_document_use_case-Yields :
      (cmd : DeleteDocumentCmd) (w : World)
      → Yields
          (λ _ w'. answer_to_get cmd.document_id cmd.owner w' ≡ err not_found)
          (delete_document_use_case (undisturbed env) cmd w)
  unfolding delete_document_use_case
  delete_document_use_case-Yields cmd w =
      bind-Yields (λ (id : DocumentId) w'. env.parse_uuid cmd.document_id ≡ some id.value) _ _ _ w
        (lift-Yields env _ _ w (document_id_from_str-Returns cmd.document_id))
        (λ id w u.
          bind-Yields
            (λ (o : OwnerSubject) w'. (make_owner_subject o.value ≡ ok o) × (o.value ≡ cmd.owner)) _
            _ _ w (checked-Yields env _ _ w (make_owner_subject-Returns cmd.owner))
            (λ owner w o.
              imply-Yields (λ _ w'. get_row id.value w'.committed.documents ≡ none) _ _
                (λ _ w h.
                  subst (λ s. answer_to_get cmd.document_id s w ≡ err not_found) o.1
                    (gone env id.value cmd.document_id owner w h o.0 u))
                (retry-Yields _ _ default_max_retries _ w (delete_once-Yields owner id))))

  -- Where no other request runs and storage does not fail: once a delete returns, a request of the same owner
  -- for that document is answered not found.
  pub get-delete :
      (cmd : DeleteDocumentCmd) (w w' : World)
      → delete_document_use_case (undisturbed env) cmd w ≡ (ok tt, w')
      → answer_to_get cmd.document_id cmd.owner w' ≡ err not_found
  get-delete cmd w w' e = returned-Yields _ _ tt w' e (delete_document_use_case-Yields cmd w)

  module _ (prints : (n : ℕ) → env.parse_uuid (env.print_uuid n) ≡ some n) where
    -- Where the text of an identifier is parsed as the identifier, no other request runs and storage does
    -- not fail: the view that a create returns is the view that its owner then reads under the view's
    -- identifier.
    pub get-create :
        (cmd : CreateDocumentCmd) (w : World) (view : DocumentView) (w' : World)
        → create_document_use_case (undisturbed env) cmd w ≡ (ok view, w')
        → answer_to_get view.document_id cmd.owner w' ≡ ok view
    get-create cmd w view w' e =
        returned-Yields _ _ view w' e (create_document_use_case-Yields env prints cmd w)

    -- Where the text of an identifier is parsed as the identifier, no other request runs and storage does
    -- not fail: the view that a replace returns is the view that its owner then reads under the view's
    -- identifier.
    pub get-replace :
        (cmd : ReplaceDocumentCmd) (w : World) (view : DocumentView) (w' : World)
        → replace_document_use_case (undisturbed env) cmd w ≡ (ok view, w')
        → answer_to_get view.document_id cmd.owner w' ≡ ok view
    get-replace cmd w view w' e =
        returned-Yields _ _ view w' e (replace_document_use_case-Yields env prints cmd w)
