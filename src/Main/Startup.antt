-- ===== src/Main/Startup.antt =====
-- main.go: the start of the program, from the options to the running server.
pub mod Results
pub mod Opens
pub mod Sound
pub mod Resumes
pub mod Served
mod Tests
use gospidertrap.Common.{
  ℕ, ◌*◌, ◌^◌, Bool, true, false, Option, none, some, List, [], ◌++◌, Text, codes, text_eq, ltb,
  if◌then◌else◌, length,
}
use gospidertrap.Common.Int.{ℤ, pos, pos_part}
use gospidertrap.Random.{Device, new_source}
use gospidertrap.Random.Bias.{char_space}
use gospidertrap.Content.{Generator, new_generator}
use gospidertrap.RateLimit.{RateLibrary, Limiter, new_limiter}
use gospidertrap.Stats.{Stats, Time, new_stats}
use gospidertrap.Stats.Database.{Tables, Engine, Faults, new_database}
use gospidertrap.Stats.Migration.{DataFiles, Decoder, Environment, migrate_from_files}
use gospidertrap.Stats.Manager.{Manager, new_manager}
use gospidertrap.Admin.Auth.{Authenticator, new_authenticator, get_login_url, get_admin_url}
use gospidertrap.Ui.{
  StartupInfo, build_template_summary, build_wordlist_summary, build_rate_limit_summary,
  build_persist_mode_summary,
}
use gospidertrap.Server.{Config, validate}
use gospidertrap.Paths.{join, validate_data_dir_path, validate_file_path}
use gospidertrap.Main.Options.{Options, check_rates, database_path}
use gospidertrap.Main.Wordlist.{Result, ok, error, Disk, can_stat, load_wordlist}
use gospidertrap.Main.Saved.{Codec, FileState, load_stats}

-- What the program finds when it starts, and what fails.
pub record Machine : Type 1 where
  pub disk : Disk
  pub device : Device
  pub engine : Engine
  pub codec : Codec
  pub decoder : Decoder
  pub created_at : Time
  pub opened_at : Time
  -- whether `os.MkdirAll` fails
  pub mkdir_fails : Bool
  -- stats.json, and what opening requests.ndjson for appending gives
  pub stats_file : FileState
  pub log_file : Option Text
  -- the database file, and the calls of the driver that fail when it is opened
  pub db_file : Tables
  pub db_faults : Faults
  -- the files that the migration finds, and what happens to it
  pub data_files : DataFiles
  pub migration : Environment

-- The statistics that the program begins with.
pub record Backend : Type 0 where
  pub db : Option Tables
  pub stats : Stats
  pub log : Option Text

abbrev pub and_then {ℓ} : {A : Type ℓ} {B : Type ℓ} → Result A → (A → Result B) → Result B
and_then (ok a) f = f a
and_then (error e) f = error e

-- The first text stands for the message that is printed before the program exits.
abbrev pub unless_error : Text → Option Text → Result Text
unless_error message none = ok []
unless_error message (some e) = error message

-- The same with a message of its own.
abbrev pub stop_on : Option Text → Result Text
stop_on none = ok []
stop_on (some e) = error e

abbrev pub max_html_template_size : ℕ
max_html_template_size = 10485760

unfoldable pub load_template : Disk → Text → Result Text
load_template disk html_file =
    if text_eq html_file []
    then ok []
    else elim (validate_file_path disk.cwd (can_stat disk) html_file) [
      | some e ↦ error (codes "Invalid HTML file path")
      | none ↦ elim (disk.content html_file) [
        | none ↦ error (codes "Failed to read HTML file")
        | some content ↦
            if ltb max_html_template_size (length content)
            then error (codes "HTML file too large")
            else ok content
      ]
    ]

-- The error of `loadWordlist` is that of the program.
unfoldable pub load_words : Disk → Text → Result (List Text)
load_words disk wordlist_file =
    if text_eq wordlist_file [] then ok [] else load_wordlist disk wordlist_file

-- `ensureDataDir`
unfoldable pub ensure_data_dir : Machine → Text → Result Text
ensure_data_dir machine data_dir =
    if text_eq data_dir []
    then ok []
    else if machine.mkdir_fails
    then error (codes "Failed to create data directory")
    else ok []

-- `openLogFile`; the log file, if it is opened.
unfoldable pub open_log_file : Machine → Text → Result (Option Text)
open_log_file machine data_dir =
    if text_eq data_dir []
    then ok none
    else elim (validate_data_dir_path machine.disk.cwd data_dir
        (join data_dir (codes "requests.ndjson"))) [
          | some e ↦ error (codes "Failed to open log file")
          | none ↦ elim machine.log_file [
            | none ↦ error (codes "Failed to open log file")
            | some log ↦ ok (some log)
          ]
        ]

-- The database, with what the migration adds to it, whose error is only logged.
unfoldable pub open_database : Machine → Options → Result Backend
open_database machine o = elim (new_database machine.db_faults machine.opened_at machine.db_file) [
  | none ↦ error (codes "Failed to initialize database")
  | some t ↦
      let migrated =
        migrate_from_files machine.engine machine.decoder machine.migration o.data_dir
          machine.data_files t in
      ok (record { db = some (migrated.tables); stats = new_stats machine.created_at; log = none })
]

-- The persistence. An error of `loadStats` is only logged.
unfoldable pub open_backend : Machine → Options → Result Backend
open_backend machine o =
    let new = new_stats machine.created_at in
    let loaded = (load_stats machine.codec machine.disk.cwd o.data_dir machine.stats_file new).1 in
    if o.use_files
    then and_then (open_log_file machine o.data_dir)
        (λ log. ok (record { db = none; stats = loaded; log = log }))
    else if text_eq (database_path o) []
    then ok (record { db = none; stats = new; log = none })
    else open_database machine o

-- A number of seconds as a `time.Duration`.
abbrev seconds : ℕ → ℤ
seconds n = pos (n * 1_000_000_000)

abbrev pub read_timeout_seconds : ℕ
read_timeout_seconds = 15

abbrev pub write_timeout_seconds : ℕ
write_timeout_seconds = 15

abbrev pub idle_timeout_seconds : ℕ
idle_timeout_seconds = 60

-- `1 << 20`
abbrev pub max_header_bytes : ℕ
max_header_bytes = 2 ^ 20

-- `serverConfig`
abbrev pub server_config : Options → Config
server_config o = record {
  port = o.port;
  read_timeout = seconds read_timeout_seconds;
  write_timeout = seconds write_timeout_seconds;
  idle_timeout = seconds idle_timeout_seconds;
  max_header_bytes = pos max_header_bytes;
}

unfoldable pub create_authenticator : Machine → Options → Result (Authenticator × ℕ)
create_authenticator machine o = elim (new_authenticator machine.device o.use_https 0) [
  | none ↦ error (codes "Failed to create admin authenticator")
  | some made ↦ ok made
]

module _ (lib : RateLibrary) where
  -- The server as it starts to listen.
  pub record Running : Type 0 where
    pub config : Config
    pub generator : Generator
    pub manager : Manager
    pub log : Option Text
    pub limiter : Limiter lib
    pub auth : Authenticator
    pub offset : ℕ

  -- `main` up to `GracefulShutdown`, from the options that package flag has read.
  unfoldable pub start_up : Machine → Options → Result Running
  start_up machine o = and_then (stop_on (check_rates o)) (λ _.
      and_then (load_template machine.disk o.html_file) (λ html_template.
        and_then (load_words machine.disk o.wordlist_file) (λ wordlist.
          and_then (ensure_data_dir machine o.data_dir) (λ _.
            and_then (open_backend machine o) (λ backend.
              and_then
                (unless_error (codes "Invalid server configuration") (validate (server_config o)))
                (λ _. and_then (create_authenticator machine o) (λ made. ok (record {
                  config = server_config o;
                  generator =
                      new_generator wordlist html_template o.endpoint
                        (new_source char_space (pos machine.created_at));
                  manager = new_manager backend.db backend.stats o.trust_proxy;
                  log = backend.log;
                  limiter = new_limiter lib (pos_part o.rate_limit) (pos_part o.rate_burst);
                  auth = made.0;
                  offset = made.1;
                }))))))))

  -- What is shown at the start; `quotient` is the `%.1f` of a size, and `none` an index out of range.
  unfoldable pub startup_info : (ℕ → ℕ → Text) → Options → Running → Option StartupInfo
  startup_info quotient o r =
      let host = codes "localhost:" ++ o.port in
      elim (build_template_summary quotient o.html_file (pos (length r.generator.html_template))) [
        | none ↦ none
        | some template ↦ some (record {
          port = o.port;
          admin_login_url = get_login_url r.auth host;
          admin_url = get_admin_url r.auth host;
          persist_mode = build_persist_mode_summary o.use_files (database_path o) o.data_dir;
          rate_limit = build_rate_limit_summary o.rate_limit o.rate_burst;
          wordlist = build_wordlist_summary o.wordlist_file (pos (length r.generator.webpages));
          template = template;
        })
      ]
