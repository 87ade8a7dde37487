-- ===== src/Guest/Cli.antt =====
-- The command line (guest_reply/cli.py). Click's own refusals end before any command runs.
pub mod Exits
pub mod Silence
pub mod Printing
pub mod Output
use Prim.Native.String.{◌++◌ as ◌⧺◌}
use holahost.Base.{
  ℕ, String, Bool, true, false, not, Option, none, some, List, [], ◌∷◌, ◌++◌, Result, ok, err,
  or_raise, if◌then◌else◌,
}
use holahost.Base.Int.{ℤ, pos}
use holahost.Base.Equality.{Eq, string_eq}
use holahost.Base.Dict.{Dict, put}
use holahost.Base.Action.{Action, pure, raise, ◌>>=◌, ◌>>◌}
use holahost.Auth.{Json, Members, null, boolean, number, text, object, member, last}
use holahost.Guest.Errors.{GuestReplyError, CleanupFailure, Raised, failed, defect, exit_code}
use holahost.Guest.World.{
  World, M, FilePath, Notice, no_context, described, not_deleted, Printed, line, json_object,
}
use holahost.Guest.Caller.{Env, ServiceCaller}
use holahost.Guest.Clients.{Models, CreatedDocument, Usage, documents_api_base, generation_api_base}
use holahost.Guest.Settings.{Url, Settings, Reader, load_settings}
use holahost.Guest.Flows.{Services, Answer, OneShot, ingest, replace, ask, remove, ask_from_file}

-- What leaves a command's body: what its calls raise, or the exit that it asks for.
pub data Stopped : Type 0 where
  raised : Raised → Stopped
  exits : ℕ → Stopped

abbrev pub C : Type 0 → Type 0
C = Action World Stopped

-- What the flows do, within a command.
unfoldable pub calling : {A : Type 0} → M A → C A
calling m w = let (r, w') = m w in (or_raise raised r, w')

-- What a command of the tool is run with.
pub record Setup : Type 0 where
  pub env : Env
  pub models : Models
  pub read_url : String → Result String Url
  pub settings : Reader
  pub uuid : String → Option String
  pub request_id : String
  pub json_output : Bool

abbrev pub exit_no_context : ℕ
exit_no_context = 5

abbrev pub echo : Printed → C (Unit {0})
echo printed w = (ok tt, record w { stdout = printed ∷ w.stdout })

abbrev pub notify : Notice → C (Unit {0})
notify notice w = (ok tt, record w { stderr = notice ∷ w.stderr })

-- The object with these members
abbrev pub as_members : Dict String Json → Members
as_members [] = last
as_members ((name, value) ∷ d) = member name value (as_members d)

-- `_created`
abbrev pub created_body : CreatedDocument → Dict String Json
created_body created =
    ("document_id", text created.document_id) ∷ ("chunk_count", number created.chunk_count) ∷ []

-- `_error_object`
abbrev pub error_object : GuestReplyError → Json
error_object error = object (
    member "code" (text error.code)
      (member "message" (text error.message) (member "details" (object error.details) last)))

-- `_cleanup_object`
abbrev pub cleanup_object : CleanupFailure → Json
cleanup_object failure = object (
    member "document_id" (text failure.document_id)
      (member "error" (error_object failure.error) last))

-- `usage.model_dump()`
abbrev pub usage_object : Usage → Json
usage_object usage = object (
    member "input_tokens" (number usage.input_tokens)
      (member "output_tokens" (number usage.output_tokens) last))

abbrev pub answer_body : Option Answer → String → Dict String Json
answer_body none document_id =
    ("answer", null) ∷ ("chunks_used", number (pos 0)) ∷ ("document_id", text document_id) ∷ []
answer_body (some answer) document_id =
    ("answer", text answer.text)
    ∷ ("chunks_used", number (pos answer.chunks_used))
    ∷ ("usage", usage_object answer.usage)
    ∷ ("provider", text answer.provider)
    ∷ ("model", text answer.model)
    ∷ ("document_id", text document_id)
    ∷ []

abbrev pub with_cleanup_error : Option CleanupFailure → Dict String Json → Dict String Json
with_cleanup_error none body = body
with_cleanup_error (some failure) body = put "cleanup_error" (cleanup_object failure) body

abbrev pub answer_text : Option Answer → Option String
answer_text none = none
answer_text (some answer) = some answer.text

-- `_warn`
abbrev pub warn : CleanupFailure → C (Unit {0})
warn failure = notify (not_deleted failure.document_id) >> notify (described failure.error)

abbrev pub warn_if : Option CleanupFailure → C (Unit {0})
warn_if none = pure tt
warn_if (some failure) = warn failure

module _ (setup : Setup) where
  -- The body with the run's request id
  abbrev pub run_object : Dict String Json → Json
  run_object body = object (as_members (put "request_id" (text setup.request_id) body))

  -- `_print_json`
  abbrev pub print_json : Dict String Json → C (Unit {0})
  print_json body = echo (json_object (run_object body))

  abbrev pub echo_line : Option String → C (Unit {0})
  echo_line none = pure tt
  echo_line (some s) = echo (line s)

  -- `_Run.emit`
  unfoldable pub emit : Option String → Dict String Json → C (Unit {0})
  emit s body = if setup.json_output then print_json body else echo_line s

  -- `_Run.services`
  unfoldable pub services : M Services
  services = do
    settings ← load_settings setup.read_url setup.settings
    pure (record {
      documents = record {
        origin = settings.rag_documents_url;
        api_base = documents_api_base;
        token = settings.token;
        request_id = setup.request_id;
      };
      generation = record {
        origin = settings.llm_client_url;
        api_base = generation_api_base;
        token = settings.token;
        request_id = setup.request_id;
      };
      model_alias = settings.model_alias;
    })

  -- That there is no context is said on stderr, unless the object says it.
  abbrev pub notify_no_context : Option Answer → C (Unit {0})
  notify_no_context (some _) = pure tt
  notify_no_context none = if setup.json_output then pure tt else notify no_context

  abbrev pub exit_after : Option Answer → Option CleanupFailure → C (Unit {0})
  exit_after answer (some failure) = warn failure >> raise (exits (exit_code failure.error.class))
  exit_after none none = raise (exits exit_no_context)
  exit_after (some _) none = pure tt

  -- `_Run.answer`
  unfoldable pub answer_with : Option Answer → String → Option CleanupFailure → C (Unit {0})
  answer_with answer document_id cleanup_failure = do
    emit (answer_text answer) (with_cleanup_error cleanup_failure (answer_body answer document_id))
    notify_no_context answer
    exit_after answer cleanup_failure

  -- `_Run.fail`
  unfoldable pub fail : GuestReplyError → Option CleanupFailure → C (Unit {0})
  fail error cleanup_failure = do
    if setup.json_output
        then print_json (with_cleanup_error cleanup_failure (("error", error_object error) ∷ []))
        else notify (described error)
    warn_if cleanup_failure
    raise (exits (exit_code error.class))

  abbrev pub handled : Result Stopped (Unit {0}) × World → Result Stopped (Unit {0}) × World
  handled (ok _, w) = (ok tt, w)
  handled (err (raised (failed error cleanup_failure)), w) = fail error cleanup_failure w
  handled (err (exits code), w) = (err (exits code), w)
  handled (err (raised (defect notes)), w) = (err (raised (defect notes)), w)

  -- `with _command(json_output) as run: …`
  unfoldable pub command : C (Unit {0}) → C (Unit {0})
  command body w = handled (body w)

  unfoldable pub ingest_command : FilePath → Option String → C (Unit {0})
  ingest_command file name = command do
    s ← calling services
    created ← calling (ingest setup.env setup.models s file name)
    emit (some created.document_id) (created_body created)

  unfoldable pub replace_command : String → FilePath → Option String → C (Unit {0})
  replace_command document_id file name = command do
    s ← calling services
    created ← calling (replace setup.env setup.models s document_id file name)
    emit (some created.document_id) (created_body created)

  unfoldable pub remove_command : String → C (Unit {0})
  remove_command document_id = command do
    s ← calling services
    calling (remove setup.env s document_id)
    emit none (("document_id", text document_id) ∷ ("deleted", boolean true) ∷ [])

  -- `ask DOCUMENT_ID GUEST_MESSAGE`, once its arguments are read
  unfoldable pub ask_command : String → String → C (Unit {0})
  ask_command document_id guest_message = command do
    s ← calling services
    answer ← calling (ask setup.env setup.models s document_id guest_message)
    answer_with answer document_id none

  -- `ask --file FILE GUEST_MESSAGE`, once its arguments are read
  unfoldable pub ask_file_command : FilePath → String → C (Unit {0})
  ask_file_command file guest_message = command do
    s ← calling services
    shot ← calling (ask_from_file setup.env setup.models s file guest_message)
    answer_with shot.answer shot.document_id shot.cleanup_failure

  -- `typer.BadParameter`, which Click ends with the exit code 2
  abbrev pub bad_parameter : C (Unit {0})
  bad_parameter = raise (exits 2)

  abbrev pub ask_document : Option String → String → C (Unit {0})
  ask_document none guest_message = bad_parameter
  ask_document (some document_id) guest_message = ask_command document_id guest_message

  -- `ask`, whose arguments `_ask_arguments` and `_document_id` read
  unfoldable pub ask_main : List String → Option FilePath → C (Unit {0})
  ask_main (guest_message ∷ []) (some file) = ask_file_command file guest_message
  ask_main (value ∷ guest_message ∷ []) none = ask_document (setup.uuid value) guest_message
  ask_main _ _ = bad_parameter
