-- ===== src/Stats/Migration.antt =====
-- internal/stats/migration.go: the import of the files of the legacy mode into the database.
pub mod Import
pub mod Runs
mod Tests
use gospidertrap.Common.{
  ℕ, suc, ◌+◌, ◌%◌, Bool, true, false, not, ◌&&◌, Option, none, some, List, [], ◌∷◌, ◌++◌, Text,
  codes, ltb, text_eq, if◌then◌else◌, ◌==◌,
}
use gospidertrap.Strings.Lines.{scan_lines}
use gospidertrap.Stats.{RequestInfo, Time}
use gospidertrap.Stats.Database.{Tables, StatsRow, Engine, Faults, exec, record_request}

-- The files of the data directory and the copies that the migration leaves; `none` is no file.
pub record DataFiles : Type 0 where
  pub requests : Option Text
  pub stats : Option Text
  pub migrated_requests : Option Text
  pub migrated_stats : Option Text

-- `json.Unmarshal` of a line into a `RequestInfo`, and of a file into the start time of a
-- `PersistedStats`; `none` is an error.
pub record Decoder : Type 0 where
  pub request : Text → Option RequestInfo
  pub start_time : Text → Option Time

-- What the environment does to one run: whether the paths are refused, whether reading or renaming a
-- file fails, whether the context is done when line `n` has been read, and which calls of the
-- driver fail for line `n`.
pub record Environment : Type 0 where
  pub bad_path : Bool
  pub read_fails : Bool
  pub rename_fails : Bool
  pub done_at : ℕ → Bool
  pub faults_at : ℕ → Faults
  pub update_fails : Bool

-- A context that is done makes every call of the driver fail, as package database/sql documents.
abbrev pub faults_in : Environment → ℕ → Faults
faults_in env line n = if env.done_at line then true else env.faults_at line n

-- The outcome of a run: whether an error is returned, the files and the tables.
pub record Migrated : Type 0 where
  pub failed : Bool
  pub files : DataFiles
  pub tables : Tables

-- `UPDATE stats SET start_time = ? WHERE id = 1 AND start_time > ?`
abbrev pub earlier_start : Time → Option StatsRow → Option StatsRow
earlier_start start none = none
earlier_start start (some row) =
    some (if ltb start row.start_time then record row { start_time = start } else row)

module _ (engine : Engine) (decoder : Decoder) (env : Environment) where
  -- One line: parsed and recorded, or skipped. The number of imported requests goes with the tables.
  unfoldable pub import_line : ℕ → Text → ℕ → Tables → ℕ × Tables
  import_line line input count t = elim (decoder.request input) [
    | none ↦ (count, t)
    | some req ↦
        let (failed, t') = record_request engine (faults_in env line) req t in
        if failed then (count, t') else (suc count, t')
  ]

  -- The loop over the lines, from line number `line` on; the flag is an error.
  unfoldable pub import_lines : ℕ → List Text → ℕ → Tables → Bool × Tables
  import_lines line [] count t = (false, t)
  import_lines line (input ∷ inputs) count t =
      let (count', t') = import_line line input count t in
      let rest = import_lines (suc line) inputs count' t' in
      if count % 100 == 0 && env.done_at line then (true, t) else rest

  -- `migrateRequestsNDJSON`
  unfoldable pub migrate_requests : Text → Tables → Bool × Tables
  migrate_requests content t =
      if env.bad_path
      then (true, t)
      else if env.read_fails
      then (true, t)
      else let (lines, ended) = scan_lines content in
        let (failed, t') = import_lines 0 lines 0 t in
        if failed then (true, t') else (not ended, t')

  -- `migrateStatsJSON`
  unfoldable pub migrate_stats : Text → Tables → Bool × Tables
  migrate_stats content t =
      if env.bad_path
      then (true, t)
      else if env.read_fails
      then (true, t)
      else elim (decoder.start_time content) [
        | none ↦ (true, t)
        | some start ↦
            if env.update_fails
            then (true, t)
            else (false, record t { stats = earlier_start start t.stats })
      ]

  -- `os.Rename` to the backup, whose error is only logged.
  abbrev backup_requests : DataFiles → DataFiles
  backup_requests files =
      if env.rename_fails
      then files
      else record files { requests = none; migrated_requests = files.requests }

  abbrev backup_stats : DataFiles → DataFiles
  backup_stats files =
      if env.rename_fails
      then files
      else record files { stats = none; migrated_stats = files.stats }

  unfoldable pub migrate_stats_file : DataFiles → Tables → Migrated
  migrate_stats_file files t = elim files.stats [
    | none ↦ record { failed = false; files = files; tables = t }
    | some content ↦
        let (failed, t') = migrate_stats content t in
        record {
          failed = failed;
          files = if failed then files else backup_stats files;
          tables = t';
        }
  ]

  -- `MigrateFromFiles`
  unfoldable pub migrate_from_files : Text → DataFiles → Tables → Migrated
  migrate_from_files data_dir files t =
      if text_eq data_dir []
      then record { failed = false; files = files; tables = t }
      else elim files.requests [
        | none ↦ migrate_stats_file files t
        | some content ↦
            let (failed, t') = migrate_requests content t in
            if failed
            then record { failed = true; files = files; tables = t' }
            else migrate_stats_file (backup_requests files) t'
      ]
