-- ===== src/Guest/Cli/Output.antt =====
-- What the commands print on stdout (guest_reply/cli.py).
use holahost.Base.{String, ◌≡◌, refl, ◌⊎◌, Bool, true, false, Option, List, ◌∷◌, Result, ok, err}
use holahost.Auth.{Json}
use holahost.Guest.Errors.{failed, defect}
use holahost.Guest.World.{World, FilePath, Printed, line, json_object}
use holahost.Guest.Cli.{
  C, Setup, Stopped, raised, exits, ingest_command, replace_command, remove_command, ask_command,
  ask_file_command,
}
use holahost.Guest.Cli.Silence.{
  ingest-Keeps, replace-Keeps, remove-Keeps, ask-Keeps, ask_from_file-Keeps,
}
use holahost.Guest.Cli.Printing.{
  ShownIf, PrintsIf, calling-Prepared, emit-Prepared, answer_with-Prepared, command-Prints,
}

-- With `--json`, one JSON object and nothing else was printed; without, at most one text.
abbrev pub Shown : Bool → List Printed → World → Type 0
Shown true out w = (body : Json) × (w.stdout ≡ json_object body ∷ out)
Shown false out w = (w.stdout ≡ out) ⊎ ((s : String) × (w.stdout ≡ line s ∷ out))

-- Of a command: what does not end with a traceback has printed.
abbrev pub Prints : Bool → List Printed → Result Stopped (Unit {0}) × World → Type 0
Prints json out (ok _, w) = Shown json out w
Prints json out (err (exits _), w) = Shown json out w
Prints json out (err (raised (failed _ _)), w) = ⊥
Prints json out (err (raised (defect _)), w) = Unit

if-Shown : (json : Bool) (out : List Printed) (w : World) → ShownIf json out w → Shown json out w
if-Shown true out w h = h.one_object refl
if-Shown false out w h = h.one_text refl

if-Prints :
    (setup : Setup) (out : List Printed) (r : Result Stopped (Unit {0})) (w : World)
    → PrintsIf setup out (r, w)
    → Prints setup.json_output out (r, w)
if-Prints setup out (ok _) w h = if-Shown setup.json_output out w h
if-Prints setup out (err (exits _)) w h = if-Shown setup.json_output out w h
if-Prints setup out (err (raised (failed _ _))) w h = h
if-Prints setup out (err (raised (defect _))) w h = h

-- A command line that Click has read.
pub data Command : Type 0 where
  ingest_file : FilePath → Option String → Command
  replace_file : String → FilePath → Option String → Command
  ask_stored : String → String → Command
  ask_once : FilePath → String → Command
  remove_stored : String → Command

unfoldable pub run : Setup → Command → C (Unit {0})
run setup (ingest_file file name) = ingest_command setup file name
run setup (replace_file id file name) = replace_command setup id file name
run setup (ask_stored id guest_message) = ask_command setup id guest_message
run setup (ask_once file guest_message) = ask_file_command setup file guest_message
run setup (remove_stored id) = remove_command setup id

run-PrintsIf : (setup : Setup) (c : Command) (w : World) → PrintsIf setup w.stdout (run setup c w)
unfolding run ingest_command replace_command ask_command ask_file_command remove_command
run-PrintsIf setup (ingest_file file name) w =
    command-Prints setup w.stdout _
      (λ s.
        calling-Prepared setup w.stdout _ _
          (ingest-Keeps w.stdout setup.env setup.models s file name)
          (λ created. emit-Prepared setup w.stdout _ _))
      w refl
run-PrintsIf setup (replace_file id file name) w =
    command-Prints setup w.stdout _
      (λ s.
        calling-Prepared setup w.stdout _ _
          (replace-Keeps w.stdout setup.env setup.models s id file name)
          (λ created. emit-Prepared setup w.stdout _ _))
      w refl
run-PrintsIf setup (ask_stored id guest_message) w =
    command-Prints setup w.stdout _
      (λ s.
        calling-Prepared setup w.stdout _ _
          (ask-Keeps w.stdout setup.env setup.models s id guest_message)
          (λ answer. answer_with-Prepared setup w.stdout _ _ _))
      w refl
run-PrintsIf setup (ask_once file guest_message) w =
    command-Prints setup w.stdout _
      (λ s.
        calling-Prepared setup w.stdout _ _
          (ask_from_file-Keeps w.stdout setup.env setup.models s file guest_message)
          (λ shot. answer_with-Prepared setup w.stdout _ _ _))
      w refl
run-PrintsIf setup (remove_stored id) w =
    command-Prints setup w.stdout _
      (λ s.
        calling-Prepared setup w.stdout _ _ (remove-Keeps w.stdout setup.env setup.models s id)
          (λ _. emit-Prepared setup w.stdout _ _))
      w refl

-- Whatever the services answer, a command that does not end with a traceback prints, with `--json`,
-- exactly one JSON object on stdout, also where it fails, and, without, one text or nothing.
pub run-Prints :
    (setup : Setup) (c : Command) (w : World) → Prints setup.json_output w.stdout (run setup c w)
run-Prints setup c w =
    let (r, w') = run setup c w in if-Prints setup w.stdout r w' (run-PrintsIf setup c w)
