-- ===== src/Main/Startup/Resumes.antt =====
-- main.go: a server that starts in file mode with the statistics that an earlier one has saved.
use gospidertrap.Common.{◌≡◌, refl, ◌∙◌, true, false, some, List, [], ◌++◌, Text, text_eq}
use gospidertrap.Stats.{RequestInfo, Time, new_stats}
use gospidertrap.Stats.Memory.{record_all}
use gospidertrap.Stats.Memory.History.{Reflects}
use gospidertrap.Paths.{is_abs}
use gospidertrap.RateLimit.{RateLibrary}
use gospidertrap.Main.Options.{Options}
use gospidertrap.Main.Wordlist.{ok}
use gospidertrap.Main.Saved.{FileState, written, persisted, save_stats, load_stats}
use gospidertrap.Main.Restart.{ReadsBack, restart_goes_on}
use gospidertrap.Main.Startup.{Machine, Running, start_up}
use gospidertrap.Main.Startup.Sound.{CanStart, CanStart-IsReady}

module _ (lib : RateLibrary) where
  -- In file mode the statistics survive a restart, wherever the data directory is: after any requests,
  -- if the statistics are saved without an error of the system, the next server finds the file that was
  -- written and reads back what was written, and nothing is in the way of its start, then it starts,
  -- and its statistics reflect the requests before and after the restart as if there had been none,
  -- but for the start time, which is that of the later server. The data directory is set and the
  -- working directory is an absolute path.
  pub start_up_resumes :
      (machine : Machine) (o : Options) (dir : Text) (now : Time) (before after : List RequestInfo)
      (file : FileState)
      → CanStart machine o
      → o.use_files ≡ true
      → text_eq o.data_dir [] ≡ false
      → machine.disk.cwd ≡ some dir
      → is_abs dir ≡ true
      → ReadsBack machine.codec (persisted (record_all (new_stats now) before))
      → let saved =
          save_stats machine.codec written o.data_dir (record_all (new_stats now) before) file in
        machine.stats_file ≡ saved.1
        → (r : Running lib) × (start_up lib machine o ≡ ok r)
          × (saved.0 ≡ false)
          × (r.manager.stats.start_time ≡ machine.created_at)
          × Reflects (before ++ after) (record_all r.manager.stats after)
  start_up_resumes machine o dir now before after file c files set at rooted b found =
      let (r, started, ready) = CanStart-IsReady lib machine o c in
      let (saved, loaded, time, reflected) =
        restart_goes_on machine.codec dir o.data_dir rooted set now machine.created_at before after
          file b in
      let same : r.manager.stats
          ≡ (load_stats machine.codec (some dir) o.data_dir
              (save_stats machine.codec written o.data_dir (record_all (new_stats now) before)
                file).1
              (new_stats machine.created_at)).1 =
        ready.opened.stats_are ∙ rw (files, at, found) refl in
      (r, started, saved, rw same time, rw same reflected)
