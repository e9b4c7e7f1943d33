-- ===== src/Main/Startup/Opens.antt =====
-- main.go: the persistence that a start opens.
use gospidertrap.Common.{
  ℕ, ◌≡◌, refl, true, false, Option, if◌then◌else◌, none, some, [], Text, codes, text_eq,
  text_eq-ne, arith, Bool-cases, Option-cases, inl, inr,
}
use gospidertrap.Stats.{Stats, new_stats}
use gospidertrap.Main.Saved.{load_stats}
use gospidertrap.Stats.Migration.{migrate_from_files}
use gospidertrap.Main.Options.{Options, database_path}
use gospidertrap.Main.Wordlist.{ok}
use gospidertrap.Stats.Database.{Tables, initial_row, new_database}
use gospidertrap.Paths.{is_abs}
use gospidertrap.Paths.Own.{own_files_accepted}
use gospidertrap.Strings.{has_prefix}
use gospidertrap.Main.Startup.Results.{and_then_ok, Gives, and_then-Gives, if-Gives, if_ok}
use gospidertrap.Main.Startup.{Machine, Backend, open_log_file, open_database, open_backend}

-- The database is for one mode, and the log for the other.
abbrev pub HasOneMode : Options → Option Tables → Option Text → Type 0
HasOneMode o db log = (o.use_files ≡ true → db ≡ none) × (o.use_files ≡ false → log ≡ none)

-- The statistics that the program goes on from: in file mode those in stats.json.
abbrev pub first_stats : Machine → Options → Stats
first_stats machine o =
    let new = new_stats machine.created_at in
    if o.use_files
    then (load_stats machine.codec machine.disk.cwd o.data_dir machine.stats_file new).1
    else new

pub record IsOpened (machine : Machine) (o : Options) (b : Backend) : Type 0 where
  pub one_mode : HasOneMode o b.db b.log
  pub stats_are : b.stats ≡ first_stats machine o

open_database-Gives :
    (machine : Machine) (o : Options)
    → o.use_files ≡ false
    → Gives (IsOpened machine o) (open_database machine o)
unfolding open_database
open_database-Gives machine o e =
    elim (Option-cases (new_database machine.db_faults machine.opened_at machine.db_file)) [
      | inl g ↦ rw (g, open_database) tt
      | inr (t, g) ↦
          rw (g, open_database)
            (record { one_mode = ((λ q. cc (e, q)), (λ q. refl)); stats_are = rw e refl })
    ]

pub open_backend-Gives :
    (machine : Machine) (o : Options) → Gives (IsOpened machine o) (open_backend machine o)
unfolding open_backend
open_backend-Gives machine o =
    if-Gives _ o.use_files _ _
      (λ e.
        and_then-Gives _ (open_log_file machine o.data_dir) _
          (λ log. record { one_mode = ((λ q. refl), (λ q. cc (e, q))); stats_are = rw e refl }))
      (λ e.
        if-Gives _ (text_eq (database_path o) []) _ _
          (λ f. record { one_mode = ((λ q. refl), (λ q. refl)); stats_are = rw e refl })
          (λ f. open_database-Gives machine o e))

-- Nothing is in the way of opening the persistence: in file mode the log opens and the working
-- directory is an absolute path, else no call of the driver fails.
pub data CanOpen (machine : Machine) (o : Options) : Type 0 where
  in_files :
      (dir log : Text)
      → o.use_files ≡ true
      → machine.disk.cwd ≡ some dir
      → is_abs dir ≡ true
      → machine.log_file ≡ some log
      → CanOpen machine o
  in_database : o.use_files ≡ false → ((n : ℕ) → machine.db_faults n ≡ false) → CanOpen machine o

open_database_ok :
    (machine : Machine) (o : Options)
    → ((n : ℕ) → machine.db_faults n ≡ false)
    → (b : Backend) × (open_database machine o ≡ ok b)
unfolding open_database new_database
open_database_ok machine o h =
    let t : Tables = record machine.db_file {
      stats = some (initial_row machine.db_file.stats machine.opened_at);
    } in
    let opened : new_database machine.db_faults machine.opened_at machine.db_file ≡ some t =
      rw (h 0, h 1, h 2, h 3, h 4, h 5, new_database) refl in
    let migrated =
      migrate_from_files machine.engine machine.decoder machine.migration o.data_dir
        machine.data_files t in
    (
      record { db = some (migrated.tables); stats = new_stats machine.created_at; log = none },
      rw (opened, open_database) refl,
    )

open_log_file_ok :
    (machine : Machine) (data_dir dir log : Text)
    → machine.disk.cwd ≡ some dir
    → is_abs dir ≡ true
    → machine.log_file ≡ some log
    → (l : Option Text) × (open_log_file machine data_dir ≡ ok l)
unfolding open_log_file
open_log_file_ok machine data_dir dir log at rooted opens =
    elim (Bool-cases (text_eq data_dir [])) [
      | inl e ↦ (none, rw (e, open_log_file) refl)
      | inr e ↦
          let valid =
            own_files_accepted dir data_dir (codes "requests.ndjson") rooted
              (text_eq-ne data_dir [] e) (λ q. cc q) (λ q. cc q) (unfold has_prefix in refl)
              (ground arith) in
          (some log, rw (e, at, valid, opens, open_log_file) refl)
    ]

pub open_backend_ok :
    (machine : Machine) (o : Options)
    → CanOpen machine o
    → (b : Backend) × (open_backend machine o ≡ ok b)
unfolding open_backend
open_backend_ok machine o (in_files dir log e at rooted opens) =
    let (l, opened) = open_log_file_ok machine o.data_dir dir log at rooted opens in
    simp (e) (_, and_then_ok _ _ l _ opened refl)
open_backend_ok machine o (in_database e h) =
    simp (e) (if_ok (text_eq (database_path o) []) _ _ (_, refl) (open_database_ok machine o h))
