-- ===== src/Guest/Tests.antt =====
-- Examples of the command-line client's theorems.
use holahost.Base.{
  ℕ, ◌≡◌, refl, String, Bool, ◌<◌, inl, Option, none, some, List, [], ◌∷◌, Result, ok, err, ◌==◌,
  if◌then◌else◌, length, arith,
}
use holahost.Base.Int.{pos}
use holahost.Base.Equality.{◌=?◌, string_eq}
use holahost.Auth.{Json, null, text, object, member, last}
use holahost.Guest.World.{World, Request, Outcome, answered, FilePath}
use holahost.Guest.Caller.{Env, ServiceCaller, Call, call_service, request_of}
use holahost.Guest.Caller.Rounds.{while_true, while_true-call_service}
use holahost.Guest.Caller.Spent.{Spends, call_service-Spends}
use holahost.Guest.Clients.{Models, CreatedDocument, Chunk, Generated, delete_call}
use holahost.Guest.Prompt.{render}
use holahost.Guest.Flows.{Services, ingest, ask, ask_from_file}
use holahost.Guest.Flows.Cleanup.{Deleted, ask_from_file-Deletes}
use holahost.Guest.Cli.{Setup, services, ask_file_command}
use holahost.Guest.Cli.Exits.{status, IsDone, LeftNothing, ask_file_command-LeftNothing}
use holahost.Guest.Cli.Output.{Prints, ask_stored, run, run-Prints}

-- Too many requests at first; then each is answered.
abbrev limited_at_first : List Request → Request → Outcome
limited_at_first [] request = answered (record {
  status = 429;
  retry_after = some "5";
  body =
      some (
        object (member "error" (object (member "code" (text "RateLimitExceededError") last)) last));
})
limited_at_first (_ ∷ _) request =
    answered (record { status = 200; retry_after = none; body = some null })

abbrev sample_env : Env
sample_env = record {
  answer = limited_at_first;
  int = λ s. if s =? "5" then some (pos 5) else none;
}

abbrev guidebook : CreatedDocument
guidebook = record { document_id = "d1"; chunk_count = pos 1 }

abbrev sample_models : Models
sample_models = record {
  created_document = λ _. some guidebook;
  search_result = λ _. some (
      record { chunk_id = "c1"; text = "The code is 4711."; page = none; score = pos 900000000 }
      ∷ []);
  generated = λ _. some (record {
    text = "It is 4711.";
    usage = record { input_tokens = pos 80; output_tokens = pos 6 };
    provider = "anthropic";
    model = "m1";
  });
}

abbrev documents_caller : ServiceCaller
documents_caller = record {
  origin = "http://localhost:8081";
  api_base = "/api/rag-documents";
  token = "t";
  request_id = "r1";
}

abbrev sample_services : Services
sample_services = record {
  documents = documents_caller;
  generation = record documents_caller { api_base = "/api/llm-client" };
  model_alias = "default";
}

abbrev sample_setup : Setup
sample_setup = record {
  env = sample_env;
  models = sample_models;
  read_url = λ value. ok (record { scheme = "http"; host = "localhost"; path = ""; query = "" });
  settings = λ _. ok (record {
    rag_documents_url = "http://localhost:8081";
    llm_client_url = "http://localhost:8082";
    token = "t";
    model_alias = "default";
  });
  uuid = λ value. some value;
  request_id = "r1";
  json_output = Bool.true;
}

abbrev fresh : World
fresh = record { sent = []; waited = []; stdout = []; stderr = [] }

abbrev guide : FilePath
guide = record { name = "guide.md"; read_bytes = ok (35 ∷ []) }

while_true-call_service_example :
    while_true sample_env documents_caller 4 0 (delete_call "d1") fresh
    ≡ some (call_service sample_env documents_caller (delete_call "d1") fresh)
while_true-call_service_example =
    while_true-call_service sample_env documents_caller 4 (delete_call "d1") fresh (omega arith)

call_service-Spends_example :
    Spends
      (request_of documents_caller (delete_call "d1"))
      3
      fresh
      (call_service sample_env documents_caller (delete_call "d1") fresh).1
call_service-Spends_example =
    call_service-Spends sample_env documents_caller (delete_call "d1") fresh

abbrev ingested : World
ingested = (ingest sample_env sample_models sample_services guide none fresh).1

guide-ingested :
    ingest sample_env sample_models sample_services guide none fresh ≡ (ok guidebook, ingested)
unfolding ingest holahost.Base.Action.◌>>=◌ holahost.Guest.Flows.read holahost.Base.Action.pure
    holahost.Guest.Clients.create holahost.Guest.Caller.fetch call_service
    holahost.Guest.Caller.call_left holahost.Guest.Caller.send_once holahost.Guest.Caller.is_success
    holahost.Guest.Caller.rate_limit_wait holahost.Guest.Caller.envelope holahost.Auth.member_of
    holahost.Guest.Caller.wait_out
guide-ingested = refl

ask_from_file-Deletes_example :
    Deleted sample_env sample_services "d1"
      (ask sample_env sample_models sample_services "d1" "What is the code?" ingested).0
      (ask_from_file sample_env sample_models sample_services guide "What is the code?" fresh).0
      (ask_from_file sample_env sample_models sample_services guide "What is the code?" fresh).1
ask_from_file-Deletes_example =
    ask_from_file-Deletes sample_env sample_models sample_services guide "What is the code?" fresh
      ingested guidebook guide-ingested

answered_guest : IsDone (status (ask_file_command sample_setup guide "What is the code?" fresh).0)
unfolding ask_file_command holahost.Base.Action.◌>>=◌ holahost.Guest.Flows.read
    holahost.Base.Action.pure holahost.Guest.Clients.create holahost.Guest.Caller.fetch call_service
    holahost.Guest.Caller.call_left holahost.Guest.Caller.send_once holahost.Guest.Caller.is_success
    holahost.Guest.Caller.rate_limit_wait holahost.Guest.Caller.envelope holahost.Auth.member_of
    holahost.Guest.Caller.wait_out holahost.Guest.Cli.command holahost.Guest.Cli.calling services
    holahost.Guest.Settings.load_settings ask_from_file ingest holahost.Base.Action.raise
    holahost.Base.Decimal.str holahost.Base.Dict.get holahost.Base.Dict.put
    holahost.Guest.Caller.authorization holahost.Guest.Caller.enveloped_error
    holahost.Guest.Caller.error_of holahost.Guest.Caller.is_rejected_status
    holahost.Guest.Caller.refuse request_of holahost.Guest.Caller.send
    holahost.Guest.Cli.answer_with holahost.Guest.Cli.emit holahost.Guest.Cli.fail
    holahost.Guest.Clients.delete holahost.Guest.Clients.dumped holahost.Guest.Clients.generate
    holahost.Guest.Clients.search_chunks holahost.Guest.Errors.exit_code
    holahost.Guest.Errors.new_error ask holahost.Guest.Flows.delete_temporary
    holahost.Guest.Flows.remove holahost.Guest.Prompt.fragments holahost.Guest.Prompt.render
    holahost.Guest.Prompt.scan holahost.Guest.Prompt.separated holahost.Guest.Prompt.substitute
    holahost.Guest.Prompt.system_prompt holahost.Guest.Settings.an_origin
    holahost.Guest.Settings.listed holahost.Guest.Settings.problems_of
    holahost.Guest.Settings.rstrip_slashes
answered_guest = inl refl

ask_file_command-LeftNothing_example :
    (s : Services) × ((services sample_setup fresh).0 ≡ ok s)
    × LeftNothing sample_setup guide "What is the code?" s
        (services sample_setup fresh).1
        (ask_file_command sample_setup guide "What is the code?" fresh).1
ask_file_command-LeftNothing_example =
    ask_file_command-LeftNothing sample_setup guide "What is the code?" fresh _ _ refl
      answered_guest

run-Prints_example :
    Prints Bool.true [] (run sample_setup (ask_stored "d1" "What is the code?") fresh)
run-Prints_example = run-Prints sample_setup (ask_stored "d1" "What is the code?") fresh

-- A fragment's text is placed once, whatever is in it.
render_runs :
    render (record { chunk_id = "c1"; text = "$text"; page = none; score = pos 0 } ∷ []) "Hi $5"
    ≡ some (
        record {
          role = "user";
          content =
              "<guidebook>\n<fragment number=\"1\">\n$text\n</fragment>\n</guidebook>\n\n<guest_message>\nHi $5\n</guest_message>";
        }
        ∷ [])
unfolding render holahost.Guest.Prompt.substitute holahost.Base.Dict.get holahost.Base.Decimal.str
render_runs = refl
