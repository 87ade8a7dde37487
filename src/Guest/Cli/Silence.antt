-- ===== src/Guest/Cli/Silence.antt =====
-- What leaves stdout alone: the calls and the flows of guest-reply (guest_reply/flows.py).
use holahost.Base.{String, ◌≡◌, ◌∙◌, Option, none, some, List, [], ◌∷◌, Result, ok, err}
use holahost.Base.Action.Hoare.{Keeps, keeps_rules, bind-Keeps}
use holahost.Auth.{Json}
use holahost.Guest.Errors.{CleanupFailure, Raised, failed, defect}
use holahost.Guest.World.{World, M, Response, Bytes, FilePath, Printed}
use holahost.Guest.Caller.{Env, ServiceCaller, Call, call_service, fetch, send, validated}
use holahost.Guest.Caller.Spent.{call_service-Spends}
use holahost.Guest.Settings.{Url, Settings, ErrorDetails, Reader, an_origin, load_settings, loaded}
use holahost.Guest.Clients.{
  Models, Chunk, Message, create, replace_document, search_chunks, generate, delete,
}
use holahost.Guest.Flows.{
  Services, Answer, read, ingest, replace, ask, remove, delete_temporary, deletion, one_shot,
  asked_from_file, cleaning_up, ask_from_file, ask_about, generate_from, content_of,
}
use holahost.Guest.Cli.{Setup, services}

module _ (out : List Printed) where
  -- Stdout is as given.
  abbrev pub As : World → Type 0
  As w = w.stdout ≡ out

  call_service-Keeps :
      (env : Env) (caller : ServiceCaller) (call : Call) → Keeps As (call_service env caller call)
  call_service-Keeps env caller call = record {
    keeps = λ w h. (call_service-Spends env caller call w).silent ∙ h;
  }

  validated-Keeps :
      {A : Type 0} (env : Env) (caller : ServiceCaller) (call : Call) (response : Response)
      (o : Option A)
      → Keeps As (validated env caller call response o)
  validated-Keeps env caller call response none = search (keeps_rules) depth 5
  validated-Keeps env caller call response (some a) = search (keeps_rules) depth 5

  fetch-Keeps :
      {A : Type 0} (env : Env) (caller : ServiceCaller) (model : Json → Option A) (call : Call)
      → Keeps As (fetch env caller model call)
  unfolding fetch
  fetch-Keeps env caller model call =
      search (keeps_rules, call_service-Keeps, validated-Keeps) depth 10

  module _ (env : Env) (models : Models) (s : Services) where
    read-Keeps : (path : FilePath) → Keeps As (read path)
    unfolding read
    read-Keeps path = content-Keeps path.name path.read_bytes
      where
        content-Keeps : (name : String) (r : Result String Bytes) → Keeps As (content_of name r)
        content-Keeps name (ok content) = search (keeps_rules) depth 5
        content-Keeps name (err reason) = search (keeps_rules) depth 5

    pub ingest-Keeps :
        (path : FilePath) (name : Option String) → Keeps As (ingest env models s path name)
    unfolding ingest create
    ingest-Keeps path name = search (keeps_rules, read-Keeps, fetch-Keeps) depth 10

    pub replace-Keeps :
        (id : String) (path : FilePath) (name : Option String)
        → Keeps As (replace env models s id path name)
    unfolding replace replace_document
    replace-Keeps id path name = search (keeps_rules, read-Keeps, fetch-Keeps) depth 10

    pub remove-Keeps : (id : String) → Keeps As (remove env s id)
    unfolding remove delete send
    remove-Keeps id = search (keeps_rules, call_service-Keeps) depth 10

    generate_from-Keeps :
        (chunks : List Chunk) (o : Option (List Message))
        → Keeps As (generate_from env models s chunks o)
    unfolding generate
    generate_from-Keeps chunks none = search (keeps_rules) depth 5
    generate_from-Keeps chunks (some messages) = search (keeps_rules, fetch-Keeps) depth 10

    ask_about-Keeps :
        (message : String) (chunks : List Chunk) → Keeps As (ask_about env models s message chunks)
    ask_about-Keeps message [] = search (keeps_rules) depth 5
    ask_about-Keeps message (chunk ∷ chunks) = generate_from-Keeps (chunk ∷ chunks) _

    pub ask-Keeps : (id message : String) → Keeps As (ask env models s id message)
    unfolding ask search_chunks
    ask-Keeps id message = search (keeps_rules, fetch-Keeps, ask_about-Keeps) depth 10

    deletion-Keeps :
        (id : String) (r : Result Raised (Unit {0})) (w : World) → As w → As (deletion id (r, w)).1
    deletion-Keeps id (ok _) w h = h
    deletion-Keeps id (err (failed e c)) w h = h
    deletion-Keeps id (err (defect notes)) w h = h

    delete_temporary-Keeps : (id : String) → Keeps As (delete_temporary env s id)
    unfolding delete_temporary
    delete_temporary-Keeps id = record {
      keeps = λ w h.
          let (r, w') = remove env s id w in deletion-Keeps id r w' ((remove-Keeps id).keeps w h);
    }

    one_shot-Keeps :
        (id : String) (asked : Result Raised (Option Answer)) (f : Option CleanupFailure)
        → Keeps As (one_shot id asked f)
    one_shot-Keeps id (ok a) f = search (keeps_rules) depth 5
    one_shot-Keeps id (err (failed e c)) f = search (keeps_rules) depth 5
    one_shot-Keeps id (err (defect notes)) f = search (keeps_rules) depth 5

    asked-Keeps :
        (id : String) (asked : Result Raised (Option Answer))
        → Keeps As (asked_from_file env s id asked)
    asked-Keeps id asked = search (keeps_rules, delete_temporary-Keeps, one_shot-Keeps) depth 10

    cleaning_up-Keeps :
        (id : String) (m : M (Option Answer)) → Keeps As m → Keeps As (cleaning_up env s id m)
    cleaning_up-Keeps id m k = record {
      keeps = λ w h. let (r, w') = m w in (asked-Keeps id r).keeps w' (k.keeps w h);
    }

    pub ask_from_file-Keeps :
        (path : FilePath) (message : String) → Keeps As (ask_from_file env models s path message)
    unfolding ask_from_file
    ask_from_file-Keeps path message =
        bind-Keeps (ingest env models s path none) _ (ingest-Keeps path none) (λ created.
          cleaning_up-Keeps created.document_id _ (ask-Keeps created.document_id message))

  load_settings-Keeps :
      (read_url : String → Result String Url) (reader : Reader)
      → Keeps As (load_settings read_url reader)
  unfolding load_settings
  load_settings-Keeps read_url reader = loaded-Keeps (reader (an_origin read_url))
    where
      loaded-Keeps : (r : Result (List ErrorDetails) Settings) → Keeps As (loaded r)
      loaded-Keeps (ok settings) = search (keeps_rules) depth 5
      loaded-Keeps (err errors) = search (keeps_rules) depth 5

  pub services-Keeps : (setup : Setup) → Keeps As (services setup)
  unfolding services
  services-Keeps setup = search (keeps_rules, load_settings-Keeps) depth 10
