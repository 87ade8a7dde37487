-- ===== src/Guest/Flows.antt =====
-- The sequence of calls behind each command (guest_reply/flows.py).
pub mod Cleanup
use Prim.Native.String.{◌++◌ as ◌⧺◌}
use holahost.Base.{
  ℕ, String, Option, none, some, List, [], ◌∷◌, length, Result, ok, err, if◌then◌else◌,
}
use holahost.Base.Action.{pure, raise, ◌>>=◌, ◌>>◌}
use holahost.Auth.{text, member, last, is_empty}
use holahost.Guest.Errors.{
  GuestReplyError, CleanupFailure, Raised, failed, defect, new_error, file_unreadable,
  document_not_found,
}
use holahost.Guest.World.{World, M, Bytes, FilePath}
use holahost.Guest.Caller.{Env, ServiceCaller}
use holahost.Guest.Clients.{
  Models, CreatedDocument, Chunk, Message, Usage, Generated, create, replace_document,
  search_chunks, generate, delete,
}
use holahost.Guest.Prompt.{render, system_prompt}

-- Their two clients, each by its caller
pub record Services : Type 0 where
  pub documents : ServiceCaller
  pub generation : ServiceCaller
  pub model_alias : String

pub record Answer : Type 0 where
  pub text : String
  pub chunks_used : ℕ
  pub usage : Usage
  pub provider : String
  pub model : String

pub record OneShot : Type 0 where
  pub document_id : String
  pub answer : Option Answer
  pub cleanup_failure : Option CleanupFailure

abbrev pub content_of : String → Result String Bytes → M Bytes
content_of name (ok content) = pure content
content_of name (err reason) = raise (
    failed
      (new_error file_unreadable ("cannot read " ⧺ (name ⧺ (": " ⧺ reason))) none
        (member "path" (text name) last))
      none)

-- `_read`
unfoldable pub read : FilePath → M Bytes
read path = content_of path.name path.read_bytes

-- `name or path.name`
abbrev pub name_or : Option String → String → String
name_or none other = other
name_or (some name) other = if is_empty name then other else name

abbrev answer_of : List Chunk → Generated → Answer
answer_of chunks generated = record {
  text = generated.text;
  chunks_used = length chunks;
  usage = generated.usage;
  provider = generated.provider;
  model = generated.model;
}

-- The failure to delete, unless there was no such document any more.
abbrev pub failure_to_delete : String → GuestReplyError → Option CleanupFailure
failure_to_delete document_id error = elim error.class [
  | document_not_found ↦ none
  | _ ↦ some (record { document_id = document_id; error = error })
]

abbrev pub deletion :
    String → Result Raised (Unit {0}) × World → Result Raised (Option CleanupFailure) × World
deletion document_id (ok _, w) = (ok none, w)
deletion document_id (err (failed error _), w) = (ok (failure_to_delete document_id error), w)
deletion document_id (err (defect notes), w) = (err (defect notes), w)

-- `error.add_note(…)`, of the document's id and the failure's code
abbrev pub noted : Option CleanupFailure → List (String × String) → List (String × String)
noted none notes = notes
noted (some failure) notes = (failure.document_id, failure.error.code) ∷ notes

-- What `ask_from_file` ends with, once asking has returned or raised, and deleting has returned.
abbrev pub one_shot : String → Result Raised (Option Answer) → Option CleanupFailure → M OneShot
one_shot document_id (ok answer) failure =
    pure (record { document_id = document_id; answer = answer; cleanup_failure = failure })
one_shot document_id (err (failed error _)) failure = raise (failed error failure)
one_shot document_id (err (defect notes)) failure = raise (defect (noted failure notes))

module _ (env : Env) (services : Services) where
  unfoldable pub remove : String → M (Unit {0})
  remove document_id = delete env services.documents document_id

  -- `_delete`
  unfoldable pub delete_temporary : String → M (Option CleanupFailure)
  delete_temporary document_id w = deletion document_id (remove document_id w)

  abbrev pub asked_from_file : String → Result Raised (Option Answer) → M OneShot
  asked_from_file document_id asked = do
    failure ← delete_temporary document_id
    one_shot document_id asked failure

  abbrev pub cleaning_up : String → M (Option Answer) → M OneShot
  cleaning_up document_id asking w = let (r, w') = asking w in asked_from_file document_id r w'

module _ (env : Env) (models : Models) (services : Services) where
  unfoldable pub ingest : FilePath → Option String → M CreatedDocument
  ingest path name = do
    content ← read path
    create env models services.documents content path.name (name_or name path.name)

  unfoldable pub replace : String → FilePath → Option String → M CreatedDocument
  replace document_id path name = do
    content ← read path
    replace_document env models services.documents document_id content path.name name

  -- A prompt that cannot be rendered is a defect.
  abbrev pub generate_from : List Chunk → Option (List Message) → M (Option Answer)
  generate_from chunks none = raise (defect [])
  generate_from chunks (some messages) = do
    generated ← generate env models services.generation system_prompt messages services.model_alias
    pure (some (answer_of chunks generated))

  abbrev pub ask_about : String → List Chunk → M (Option Answer)
  ask_about guest_message [] = pure none
  ask_about guest_message (chunk ∷ chunks) =
      generate_from (chunk ∷ chunks) (render (chunk ∷ chunks) guest_message)

  unfoldable pub ask : String → String → M (Option Answer)
  ask document_id guest_message = do
    chunks ← search_chunks env models services.documents document_id guest_message
    ask_about guest_message chunks

  unfoldable pub ask_from_file : FilePath → String → M OneShot
  ask_from_file path guest_message = do
    created ← ingest path none
    cleaning_up env services created.document_id (ask created.document_id guest_message)
