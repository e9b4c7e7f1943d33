-- ===== src/Main/Periodic/Snapshots.antt =====
-- main.go: what stats.json holds at any time.
use gospidertrap.Common.{ℕ, take, ◌≡◌, ◌⊎◌, Bool, false, some, List, ◌++◌, Text}
use gospidertrap.Stats.{Stats, RequestInfo}
use gospidertrap.Stats.Memory.{record_all}
use gospidertrap.Main.Saved.{Codec, FileState, present, persisted}
use gospidertrap.Main.Periodic.{Saver}

module _ (codec : Codec) (data_dir : Text) (use_files : Bool) (begun : Saver) where
  -- The file holds the statistics as they were after some of the requests `seen`, from the first on: all
  -- of the text, or, if a write has broken off, a beginning of it.
  pub record IsSnapshot (seen : List RequestInfo) (whole : Bool) (file : FileState) : Type 0 where
    pub covered : List RequestInfo
    pub missed : List RequestInfo
    pub split : seen ≡ covered ++ missed
    pub text : Text
    pub encoded : codec.encode (persisted (record_all begun.stats covered)) ≡ some text
    pub content :
        (file ≡ present text) ⊎ ((whole ≡ false) × (n : ℕ) × (file ≡ present (take n text)))

  -- The file is as it was at the beginning, or a snapshot.
  abbrev pub IsKept : List RequestInfo → Bool → FileState → Type 0
  IsKept seen whole file = (file ≡ begun.file) ⊎ IsSnapshot seen whole file

  abbrev Holds : List RequestInfo → Bool → Saver → Type 0
  Holds seen whole s = (s.stats ≡ record_all begun.stats seen) × IsKept seen whole s.file
