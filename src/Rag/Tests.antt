-- ===== src/Rag/Tests.antt =====
-- Examples of the document service's theorems.
mod Owners
mod Searches
use holahost.Base.{ℕ, ◌≡◌, refl, Option, none, some, List, [], ◌∷◌, Result, ok, err}
use holahost.Rag.Data.{World, DocumentView, not_found, ReplaceDocumentCmd, DeleteDocumentCmd}
use holahost.Rag.Ports.Effects.{undisturbed}
use holahost.Rag.UseCases.{
  create_document_use_case, replace_document_use_case, delete_document_use_case,
}
use holahost.Rag.UseCases.Reread.{answer_to_get, get-create, get-replace, get-delete}
use holahost.Rag.Requests.{at_rest}
use holahost.Rag.Samples.{sample_env, no_tables, create_manual, print_id, parse-print_id, id_size}

abbrev manual_view : DocumentView
manual_view = record {
  document_id = print_id 0;
  name = "Manual";
  mime_type = "text/plain";
  chunk_count = 1;
  created_at = 0;
  updated_at = 0;
}

abbrev created : World
created = (create_document_use_case (undisturbed sample_env) create_manual (at_rest no_tables)).1

create_manual-returns :
    create_document_use_case (undisturbed sample_env) create_manual (at_rest no_tables)
    ≡ (ok manual_view, created)
unfolding create_document_use_case holahost.Base.Action.◌>>=◌ holahost.Base.Action.lift
    holahost.Rag.UseCases.supported_mime_type holahost.Rag.Values.make_mime_type
    holahost.Rag.UseCases.acceptable_name holahost.Rag.Values.make_document_name
    holahost.Base.Text.strip holahost.Rag.UseCases.prepare holahost.Rag.Ingestion.parse
    holahost.Rag.Ingestion.parse_plain_text holahost.Base.Text.is_blank
    holahost.Rag.Ingestion.fragment holahost.Rag.Ingestion.split holahost.Rag.Ingestion.embed_texts
    holahost.Rag.Values.make_embedding holahost.Rag.Ports.checked
    holahost.Rag.Values.make_owner_subject holahost.Base.Action.gets holahost.Base.Action.pure
    holahost.Base.Action.raise holahost.Base.Dict.get holahost.Base.Dict.put holahost.Base.any
    holahost.Base.keep holahost.Base.traverse holahost.Base.Text.is_space
    holahost.Base.Text.join_lines holahost.Rag.Data.make_text_fragment
    holahost.Rag.Entities.create_chunk holahost.Rag.Entities.create_document
    holahost.Rag.Entities.validate_chunks holahost.Rag.Ingestion.enumerate
    holahost.Rag.Ingestion.parse_docx holahost.Rag.Ingestion.parse_pdf holahost.Rag.Ports.add
    holahost.Rag.Ports.bind_owner holahost.Rag.Ports.enter holahost.Rag.Ports.exit
    holahost.Rag.Ports.fresh_uuid holahost.Rag.Ports.now_utc holahost.Rag.Ports.statement
    holahost.Rag.Ports.with_uow holahost.Rag.Storage.insert_chunk holahost.Rag.Storage.insert_chunks
    holahost.Rag.Storage.insert_document holahost.Rag.Storage.is_btrim_blank
    holahost.Rag.UseCases.new_chunk holahost.Rag.UseCases.new_chunks
    holahost.Rag.UseCases.total_chars holahost.Rag.UseCases.view_of
    holahost.Rag.Values.make_chunk_index holahost.Rag.Values.make_page_number
create_manual-returns = refl

get-create_example : answer_to_get sample_env (print_id 0) "ann" created ≡ ok manual_view
get-create_example =
    get-create sample_env parse-print_id create_manual (at_rest no_tables) manual_view created
      create_manual-returns

abbrev replace_manual : ReplaceDocumentCmd
replace_manual = record {
  document_id = print_id 0;
  owner = "ann";
  content = [];
  mime_type = "text/markdown";
  name = some "Guide";
}

abbrev guide_view : DocumentView
guide_view = record {
  document_id = print_id 0;
  name = "Guide";
  mime_type = "text/markdown";
  chunk_count = 1;
  created_at = 0;
  updated_at = 2;
}

abbrev replaced : World
replaced = (replace_document_use_case (undisturbed sample_env) replace_manual created).1

replace_manual-returns :
    replace_document_use_case (undisturbed sample_env) replace_manual created
    ≡ (ok guide_view, replaced)
unfolding create_document_use_case replace_document_use_case holahost.Base.Action.◌>>=◌
    holahost.Base.Action.lift holahost.Rag.UseCases.supported_mime_type
    holahost.Rag.Values.make_mime_type holahost.Rag.UseCases.acceptable_name
    holahost.Rag.Values.make_document_name holahost.Base.Text.strip holahost.Rag.UseCases.prepare
    holahost.Rag.Ingestion.parse holahost.Rag.Ingestion.parse_plain_text holahost.Base.Text.is_blank
    holahost.Rag.Ingestion.fragment holahost.Rag.Ingestion.split holahost.Rag.Ingestion.embed_texts
    holahost.Rag.Values.make_embedding holahost.Rag.Ports.checked
    holahost.Rag.Values.make_owner_subject holahost.Base.Action.gets holahost.Base.Action.pure
    holahost.Base.Action.raise holahost.Base.Dict.get holahost.Base.Dict.put holahost.Base.any
    holahost.Base.keep holahost.Base.traverse holahost.Base.Text.is_space
    holahost.Base.Text.join_lines holahost.Rag.Data.make_text_fragment
    holahost.Rag.Entities.create_chunk holahost.Rag.Entities.create_document
    holahost.Rag.Entities.validate_chunks holahost.Rag.Ingestion.enumerate
    holahost.Rag.Ingestion.parse_docx holahost.Rag.Ingestion.parse_pdf holahost.Rag.Ports.add
    holahost.Rag.Ports.bind_owner holahost.Rag.Ports.enter holahost.Rag.Ports.exit
    holahost.Rag.Ports.fresh_uuid holahost.Rag.Ports.now_utc holahost.Rag.Ports.statement
    holahost.Rag.Ports.with_uow holahost.Rag.Storage.insert_chunk holahost.Rag.Storage.insert_chunks
    holahost.Rag.Storage.insert_document holahost.Rag.Storage.is_btrim_blank
    holahost.Rag.UseCases.new_chunk holahost.Rag.UseCases.new_chunks
    holahost.Rag.UseCases.total_chars holahost.Rag.UseCases.view_of
    holahost.Rag.Values.make_chunk_index holahost.Rag.Values.make_page_number
    holahost.Rag.UseCases.acceptable_new_name holahost.Rag.UseCases.document_id_from_str
    holahost.Rag.UseCases.write holahost.Rag.Ports.get holahost.Rag.Ports.update
    holahost.Rag.Storage.select_document holahost.Rag.Ports.document_from_row
    holahost.Rag.Entities.document_from_repo holahost.Rag.Entities.rename
    holahost.Rag.Entities.replace_content holahost.Rag.Storage.update_document
    holahost.Rag.Storage.delete_chunks holahost.Db.Retry.retry_on_concurrent_update
    holahost.Rag.UseCases.is_conflict id_size print_id
replace_manual-returns = refl

get-replace_example : answer_to_get sample_env (print_id 0) "ann" replaced ≡ ok guide_view
get-replace_example =
    get-replace sample_env parse-print_id replace_manual created guide_view replaced
      replace_manual-returns

abbrev delete_manual : DeleteDocumentCmd
delete_manual = record { document_id = print_id 0; owner = "ann" }

abbrev deleted : World
deleted = (delete_document_use_case (undisturbed sample_env) delete_manual created).1

delete_manual-returns :
    delete_document_use_case (undisturbed sample_env) delete_manual created ≡ (ok tt, deleted)
unfolding create_document_use_case delete_document_use_case holahost.Base.Action.◌>>=◌
    holahost.Base.Action.lift holahost.Rag.UseCases.supported_mime_type
    holahost.Rag.Values.make_mime_type holahost.Rag.UseCases.acceptable_name
    holahost.Rag.Values.make_document_name holahost.Base.Text.strip holahost.Rag.UseCases.prepare
    holahost.Rag.Ingestion.parse holahost.Rag.Ingestion.parse_plain_text holahost.Base.Text.is_blank
    holahost.Rag.Ingestion.fragment holahost.Rag.Ingestion.split holahost.Rag.Ingestion.embed_texts
    holahost.Rag.Values.make_embedding holahost.Rag.Ports.checked
    holahost.Rag.Values.make_owner_subject holahost.Base.Action.gets holahost.Base.Action.pure
    holahost.Base.Action.raise holahost.Base.Dict.get holahost.Base.Dict.put holahost.Base.any
    holahost.Base.keep holahost.Base.traverse holahost.Base.Text.is_space
    holahost.Base.Text.join_lines holahost.Rag.Data.make_text_fragment
    holahost.Rag.Entities.create_chunk holahost.Rag.Entities.create_document
    holahost.Rag.Entities.validate_chunks holahost.Rag.Ingestion.enumerate
    holahost.Rag.Ingestion.parse_docx holahost.Rag.Ingestion.parse_pdf holahost.Rag.Ports.add
    holahost.Rag.Ports.bind_owner holahost.Rag.Ports.enter holahost.Rag.Ports.exit
    holahost.Rag.Ports.fresh_uuid holahost.Rag.Ports.now_utc holahost.Rag.Ports.statement
    holahost.Rag.Ports.with_uow holahost.Rag.Storage.insert_chunk holahost.Rag.Storage.insert_chunks
    holahost.Rag.Storage.insert_document holahost.Rag.Storage.is_btrim_blank
    holahost.Rag.UseCases.new_chunk holahost.Rag.UseCases.new_chunks
    holahost.Rag.UseCases.total_chars holahost.Rag.UseCases.view_of
    holahost.Rag.Values.make_chunk_index holahost.Rag.Values.make_page_number
    holahost.Rag.UseCases.document_id_from_str holahost.Rag.UseCases.delete_once
    holahost.Rag.Ports.get holahost.Rag.Ports.delete holahost.Rag.Storage.select_document
    holahost.Rag.Ports.document_from_row holahost.Rag.Entities.document_from_repo
    holahost.Rag.Storage.delete_document holahost.Db.Retry.retry_on_concurrent_update
    holahost.Rag.UseCases.is_conflict holahost.Base.Dict.remove id_size print_id
delete_manual-returns = refl

get-delete_example : answer_to_get sample_env (print_id 0) "ann" deleted ≡ err not_found
get-delete_example = get-delete sample_env delete_manual created deleted delete_manual-returns
