-- ===== src/Stats/Migration/Tests.antt =====
-- Tests of the migration.
use gospidertrap.Common.{
  ℕ, zero, suc, ◌≡◌, refl, false, none, some, [], ◌∷◌, ◌++◌, arith, Text, codes, leb, length,
}
use gospidertrap.Stats.Database.{Engine, no_tables}
use gospidertrap.Stats.Migration.{DataFiles, Decoder, Environment, import_lines}
use gospidertrap.Stats.Migration.Import.{IsCalm}
use gospidertrap.Stats.Migration.Runs.{cancelled_import_forgets}

abbrev bytes_engine : Engine
bytes_engine = record { text_length = length; order_desc = λ key l. l }

-- Every line is the path of a request.
abbrev paths : Decoder
paths = record {
  request = λ s.
      some (record { ip = codes "10.0.0.1"; user_agent = codes "curl"; path = s; timestamp = 1 });
  start_time = λ s. some 7;
}

abbrev calm_env : Environment
calm_env = record {
  bad_path = false;
  read_fails = false;
  rename_fails = false;
  done_at = λ n. false;
  faults_at = λ n call. false;
  update_fails = false;
}

abbrev calm_env-IsCalm : IsCalm calm_env
calm_env-IsCalm = record {
  good_path = refl;
  read = refl;
  alive = λ n. refl;
  quiet = λ n call. refl;
}

letters : ℕ → Text
letters zero = []
letters (suc n) = b'a' ∷ letters n

-- A short line, and one of 70000 bytes.
long_file : Text
long_file = codes "/a" ++ 10 ∷ letters 70000

abbrev no_backups : DataFiles
no_backups = record {
  requests = none;
  stats = none;
  migrated_requests = none;
  migrated_stats = none;
}

abbrev short_file : Text
short_file = codes "/a\n/b\r\n"

abbrev cancelled_env : Environment
cancelled_env = record calm_env { done_at = λ n. leb 7 n }

cancelled_import_forgets_example :
    import_lines bytes_engine paths cancelled_env 7 (codes "/a" ∷ codes "/b" ∷ []) 7 no_tables
    ≡ (false, no_tables)
cancelled_import_forgets_example =
    cancelled_import_forgets bytes_engine paths cancelled_env 7 (codes "/a" ∷ codes "/b" ∷ []) 7
      no_tables refl (λ n h. ground arith)
