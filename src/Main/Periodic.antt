-- ===== src/Main/Periodic.antt =====
-- main.go: `startPeriodicSave`, `stopPeriodicSave` and the cleanup, which write stats.json while the
-- server runs and when it ends.
pub mod Snapshots
mod Tests
use gospidertrap.Common.{
  Bool, true, false, not, ◌&&◌, List, [], ◌∷◌, ◌++◌, Text, text_eq, if◌then◌else◌,
}
use gospidertrap.Stats.{Stats, RequestInfo}
use gospidertrap.Stats.Memory.{record_request}
use gospidertrap.Main.Saved.{
  Codec, FileState, WriteEnd, written, not_opened, broken_off, save_stats,
}

-- The statistics in memory, stats.json, and whether the goroutine that saves is running.
pub record Saver : Type 0 where
  pub stats : Stats
  pub file : FileState
  pub active : Bool

-- What happens, in any order: a request is recorded, the ticker ticks, the context is cancelled, the
-- cleanup runs; with how the write of the file ends, if there is one.
pub data SaveEvent : Type 0 where
  visited : RequestInfo → SaveEvent
  ticked : WriteEnd → SaveEvent
  cancelled : SaveEvent
  cleaned_up : WriteEnd → SaveEvent

unfoldable pub start_periodic_save : Text → Saver → Saver
start_periodic_save data_dir s = if text_eq data_dir [] then s else record s { active = true }

unfoldable pub stop_periodic_save : Saver → Saver
stop_periodic_save s = record s { active = false }

module _ (codec : Codec) (data_dir : Text) (use_files : Bool) where
  abbrev pub saved : WriteEnd → Saver → Saver
  saved ends s = record s { file = (save_stats codec ends data_dir s.stats s.file).1 }

  -- The loop of the goroutine, at a tick.
  unfoldable pub save_at_tick : WriteEnd → Saver → Saver
  save_at_tick ends s = if s.active then saved ends s else s

  -- `cleanup`, without what it prints.
  unfoldable pub cleanup : WriteEnd → Saver → Saver
  unfolding stop_periodic_save
  cleanup ends s =
      let stopped = stop_periodic_save s in
      if use_files && not (text_eq data_dir []) then saved ends stopped else stopped

  unfoldable pub happen : SaveEvent → Saver → Saver
  happen (visited req) s = record s { stats = record_request s.stats req }
  happen (ticked ends) s = save_at_tick ends s
  happen cancelled s = stop_periodic_save s
  happen (cleaned_up ends) s = cleanup ends s

  abbrev pub happen_all : List SaveEvent → Saver → Saver
  happen_all [] s = s
  happen_all (e ∷ es) s = happen_all es (happen e s)

-- The requests among the events.
abbrev pub request_of : SaveEvent → List RequestInfo
request_of (visited req) = req ∷ []
request_of (ticked ends) = []
request_of cancelled = []
request_of (cleaned_up ends) = []

abbrev pub requests : List SaveEvent → List RequestInfo
requests [] = []
requests (e ∷ es) = request_of e ++ requests es

abbrev pub is_whole : WriteEnd → Bool
is_whole written = true
is_whole not_opened = true
is_whole (broken_off n) = false

-- Whether no write of the event breaks off.
abbrev pub leaves_whole : SaveEvent → Bool
leaves_whole (visited req) = true
leaves_whole (ticked ends) = is_whole ends
leaves_whole cancelled = true
leaves_whole (cleaned_up ends) = is_whole ends

abbrev pub all_whole : List SaveEvent → Bool
all_whole [] = true
all_whole (e ∷ es) = leaves_whole e && all_whole es
