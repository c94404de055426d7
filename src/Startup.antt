-- ===== src/Startup.antt =====
-- src/cli.rs, src/main.rs and src/port_conflict.rs: what the process does with its command line, and
-- with a port that is taken. What clap, the operating system and `lsof` give are inputs.
pub mod Listening
use spanfall.Prelude.{
  ℕ, ◌^◌, Bool, false, ◌&&◌, ◌||◌, is_some, Option, none, some, List, [], ◌∷◌, ◌++◌, get_elem?,
  if◌then◌else◌,
}
use spanfall.Prelude.Text.{Text, text}
use spanfall.Prelude.Strings.{to_string}
use spanfall.Prelude.Utf8.{from_utf8_lossy, lines, split_whitespace}
use spanfall.Ingest.Convert.{Result, ok, err}

pub data Command : Type 0 where
  list : Command

pub record Cli : Type 0 where
  pub command : Option Command
  pub max_memory : ℕ
  pub ingest_timeout : ℕ
  pub dump : Bool
  pub demo : Bool

-- The values of a command line that gives none.
abbrev pub cli_default : Cli
cli_default = record {
  command = none;
  max_memory = 2 ^ 30;
  ingest_timeout = 10;
  dump = false;
  demo = false;
}

-- How `main` goes on: it exits with a code and a line on the standard error, it returns after
-- printing, or it runs the server with a memory budget, a timeout in seconds, and the seeding.
pub data Outcome : Type 0 where
  exit : ℕ → Text → Outcome
  printed : List Text → Outcome
  run_server : ℕ → ℕ → Bool → Outcome

-- `env!("CARGO_BIN_NAME")`.
abbrev pub bin_name : Text
bin_name = text "spanfall"

unfoldable pub exit_on_err : Result {0, 0} Text (List Text) → Outcome
exit_on_err (ok printed_lines) = printed printed_lines
exit_on_err (err e) = exit 1 (bin_name ++ (text ": " ++ e))

-- `main`, with what the two commands give.
unfoldable pub main : Cli → (print_dump print_list : Result {0, 0} Text (List Text)) → Outcome
main cli print_dump print_list =
    if cli.dump && is_some cli.command
    then exit 2 (
        bin_name
        ++ (text ": --dump does not take a subcommand (did you mean `"
            ++ (bin_name ++ text " list`?)")))
    else if cli.demo && (cli.dump || is_some cli.command)
    then exit 2
        (bin_name ++ text ": --demo seeds a new server, it doesn't query one -- drop --dump/list")
    else if cli.dump
    then exit_on_err print_dump
    else if is_some cli.command
    then exit_on_err print_list
    else run_server cli.max_memory cli.ingest_timeout cli.demo

-- `describe_holder`, with what running `lsof` gives: whether it succeeded, and what it printed.
unfoldable pub holder_of : List Text → Option Text
holder_of [] = none
holder_of (command ∷ []) = none
holder_of (command ∷ pid ∷ fields) = some (command ++ (text " (pid " ++ (pid ++ text ")")))

unfoldable pub describe_holder : Option (Bool × List ℕ) → Option Text
describe_holder none = none
describe_holder (some (success, stdout)) =
    if success
    then (elim (get_elem? (lines (from_utf8_lossy stdout)) 1) [
      | none ↦ none
      | some line ↦ holder_of (split_whitespace line)
    ])
    else none

-- What `TcpListener::bind` gives.
pub data Bind : Type 0 where
  bound : Bind
  addr_in_use : Bind
  bind_error : Text → Bind

-- `bind_or_exit`: the listener, an exit with a line on the standard error, or a panic.
pub data Bound : Type 0 where
  listener : Bound
  exit : ℕ → Text → Bound
  panicked : Bound

unfoldable pub bind_or_exit : Bind → ℕ → Option Text → Bound
bind_or_exit bound port holder = listener
bind_or_exit (bind_error e) port holder = panicked
bind_or_exit addr_in_use port holder = exit 1 (
    bin_name
    ++ (text ": port "
        ++ (to_string port
            ++ (text " is already in use"
                ++ (elim holder [ none ↦ [] | some h ↦ text " -- held by " ++ h ])))))

-- The three calls of `bind_or_exit` in `run_server`, each with its port and what names its holder:
-- the first one that gives no listener ends the process.
unfoldable pub bind_all : List (Bind × ℕ × Option Text) → Bound
bind_all [] = listener
bind_all ((b, port, holder) ∷ binds) =
    let rest = bind_all binds in
    elim (bind_or_exit b port holder) [
      | listener ↦ rest
      | exit code line ↦ exit code line
      | panicked ↦ panicked
    ]

-- What `run_server` prints once it has its listeners.
unfoldable pub banner : Bool → List Text
banner seed_demo =
    text "Listening on http://localhost:5317"
    ∷ text "OTLP gRPC: 4317   OTLP HTTP: 4318"
    ∷ (if seed_demo then text "--demo: pre-seeded with a curated fake trace set" ∷ [] else [])

-- The start of `run_server`: how the binding ended, and what was printed.
unfoldable pub start_server : List (Bind × ℕ × Option Text) → Bool → Bound × List Text
start_server binds seed_demo = elim (bind_all binds) [
  | listener ↦ (listener, banner seed_demo)
  | exit code line ↦ (exit code line, [])
  | panicked ↦ (panicked, [])
]
