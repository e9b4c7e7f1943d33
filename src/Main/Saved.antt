-- ===== src/Main/Saved.antt =====
-- main.go: `saveStats` and `loadStats`, the statistics of the file mode on the disk.
use gospidertrap.Common.{
  ℕ, ◌-◌, Bool, true, false, Option, none, some, List, [], Text, codes, text_eq, if◌then◌else◌,
  length, take, drop, ltb,
}
use gospidertrap.Stats.{Stats, RequestInfo, Time}
use gospidertrap.Stats.Table.{Counts}
use gospidertrap.Paths.{join, validate_data_dir_path}

-- `PersistedStats`. A map that is nil, as after reading a file that has `null` for it or lacks it, is
-- `none`.
pub record PersistedStats : Type 0 where
  pub start_time : Time
  pub total_requests : ℕ
  pub ip_counts : Option Counts
  pub user_agents : Option Counts
  pub recent_requests : List RequestInfo

-- encoding/json for `PersistedStats`; `none` is an error. The order in which a map is read back is
-- not that in which it was written.
pub record Codec : Type 0 where
  pub encode : PersistedStats → Option Text
  pub decode : Text → Option PersistedStats

abbrev pub entries : Option Counts → Counts
entries none = []
entries (some m) = m

abbrev pub is_nil : Option Counts → Bool
is_nil none = true
is_nil (some m) = false

-- A file of the disk: missing, not readable, or its content.
pub data FileState : Type 0 where
  missing : FileState
  unreadable : FileState
  present : Text → FileState

-- How `os.WriteFile` ends: all is written; the file cannot be opened, and is as it was; or the write
-- fails behind the truncation, with so many bytes in the file.
pub data WriteEnd : Type 0 where
  written : WriteEnd
  not_opened : WriteEnd
  broken_off : ℕ → WriteEnd

-- The copies of the maps are made by `make`.
unfoldable pub persisted : Stats → PersistedStats
persisted s = record {
  start_time = s.start_time;
  total_requests = s.total_requests;
  ip_counts = some s.ip_counts;
  user_agents = some s.user_agents;
  recent_requests = s.recent_requests;
}

-- The requests of the file, the last `max` of them if they are more.
unfoldable pub restore_recent : ℕ → List RequestInfo → List RequestInfo
restore_recent max reqs = if ltb max (length reqs) then drop (length reqs - max) reqs else reqs

-- The statistics with what the file says of them; the start time stays.
unfoldable pub restore : PersistedStats → Stats → Stats
restore p s = record {
  start_time = s.start_time;
  total_requests = p.total_requests;
  ip_counts = entries p.ip_counts;
  ip_counts_nil = is_nil p.ip_counts;
  user_agents = entries p.user_agents;
  user_agents_nil = is_nil p.user_agents;
  recent_requests = restore_recent s.max_recent_requests p.recent_requests;
  max_recent_requests = s.max_recent_requests;
}

module _ (codec : Codec) where
  -- Whether an error is returned, and the file.
  unfoldable pub save_stats : WriteEnd → Text → Stats → FileState → Bool × FileState
  save_stats ends data_dir s file =
      if text_eq data_dir [] then (false, file) else elim (codec.encode (persisted s)) [
        | none ↦ (true, file)
        | some text ↦ elim ends [
          | written ↦ (false, present text)
          | not_opened ↦ (true, file)
          | broken_off n ↦ (true, present (take n text))
        ]
      ]

  unfoldable pub load_file : FileState → Stats → Bool × Stats
  load_file missing s = (false, s)
  load_file unreadable s = (true, s)
  load_file (present text) s = elim (codec.decode text) [
    | none ↦ (true, s)
    | some p ↦ (false, restore p s)
  ]

  unfoldable pub load_stats : Option Text → Text → FileState → Stats → Bool × Stats
  load_stats cwd data_dir file s =
      if text_eq data_dir []
      then (false, s)
      else elim (validate_data_dir_path cwd data_dir (join data_dir (codes "stats.json"))) [
        | some e ↦ (true, s)
        | none ↦ load_file file s
      ]
