-- ===== src/Main/Startup/Tests.antt =====
-- Tests of the start.
use gospidertrap.Common.{
  ◌∷◌, ℕ, ◌-◌, ◌≡◌, refl, false, none, [], text_eq, length, leb, ltb, arith, true, some,
  if◌then◌else◌, Bool, ◌++◌, codes,
}
use gospidertrap.Random.{Device}
use gospidertrap.RateLimit.{RateLibrary, allow_ip}
use gospidertrap.Stats.Database.{no_tables}
use gospidertrap.Strings.Number.{atoi, parse_digits, parse_up_to}
use gospidertrap.Server.{validate}
use gospidertrap.Main.Options.{Options, check_rates, default_options}
use gospidertrap.Main.Wordlist.{ok}
use gospidertrap.Main.Saved.{FileState, missing, written, save_stats}
use gospidertrap.Main.Startup.{Machine, Running, load_template, load_words, start_up}
use gospidertrap.Main.Startup.Sound.{CanStart, IsReady}
use gospidertrap.Main.Startup.Opens.{in_files, in_database}
use gospidertrap.Main.Startup.Resumes.{start_up_resumes}
use gospidertrap.Main.Tests.{codec, one_visit, reads_back}
use gospidertrap.Stats.Memory.{record_all}
use gospidertrap.Stats.Memory.History.{Reflects}
use gospidertrap.Strings.{has_prefix}
use gospidertrap.Main.Startup.Served.{site_of, served_all, start_up_serves}
use gospidertrap.Http.Writer.{fresh_writer}
use gospidertrap.Content.{new_generator}
use gospidertrap.Stats.{new_stats}
use gospidertrap.Main.Routes.{Site, Visit, mux, client, http_handler}
use gospidertrap.Main.Routes.Calm.{refused}

-- Buckets that are never refilled.
abbrev dry : RateLibrary
dry = record {
  Bucket = ℕ;
  new = λ rate burst. burst;
  allow = λ now tokens. (ltb 0 tokens, tokens - 1);
  has_full_burst = λ now tokens burst. leb burst tokens;
}

abbrev zeros : Device
zeros = record { byte_at = λ i. 0; fails_at = λ i. false }

abbrev fresh_machine : Machine
fresh_machine = record {
  disk = record { cwd = none; size = λ path. none; content = λ path. none };
  device = zeros;
  engine = record { text_length = length; order_desc = λ key l. l };
  codec = record { encode = λ p. none; decode = λ s. none };
  decoder = record { request = λ s. none; start_time = λ s. none };
  created_at = 1;
  opened_at = 2;
  mkdir_fails = false;
  stats_file = missing;
  log_file = none;
  db_file = no_tables;
  db_faults = λ n. false;
  data_files = record {
    requests = none;
    stats = none;
    migrated_requests = none;
    migrated_stats = none;
  };
  migration = record {
    bad_path = false;
    read_fails = false;
    rename_fails = false;
    done_at = λ n. false;
    faults_at = λ n call. false;
    update_fails = false;
  };
}

can_start : CanStart fresh_machine default_options
unfolding check_rates validate atoi parse_up_to parse_digits load_template load_words text_eq
can_start = record {
  rates = refl;
  template = [];
  template_loads = refl;
  words = [];
  words_load = refl;
  directory = refl;
  opens = in_database refl (λ n. refl);
  port = refl;
  device = record { bytes = λ i. omega arith; never_fails = λ i. refl };
}

abbrev around : Site
around = record {
  engine = fresh_machine.engine;
  parse_ip = λ s. true;
  device = zeros;
  generator = new_generator [] [] [] (record { chars = codes "ab" });
  auth = record { path = codes "/k3-f"; token = codes "s3cret_-"; use_https = false };
  encode_json = λ c. codes "{}";
  duration_string = λ d. codes "7s";
  format_time = λ t. codes "noon";
  encode_line = λ req. some req.path;
  moved = λ r. none;
  data_dir = [];
  use_files = false;
}

abbrev first_visit : Visit
first_visit = record {
  request = record {
    method = codes "GET";
    path = codes "/x";
    remote_addr = codes "10.0.0.1:999";
    headers = [];
    query = [];
    cookies = [];
  };
  context = record { done_first = false; done_second = false };
  allowed_at = 4;
  logged_at = 5;
  recorded_at = 6;
  shown_at = 7;
  record_faults = λ n. false;
  report_faults = λ n call. true;
  write_fails = false;
}

start_up_serves_example :
    (r : Running dry) × (start_up dry fresh_machine default_options ≡ ok r)
    × IsReady dry fresh_machine default_options r
    × (let site = site_of dry fresh_machine default_options r around in
        let (s, limiter) =
          served_all dry fresh_machine default_options r around (first_visit ∷ []) in
        ((mux site first_visit s fresh_writer).panicked ≡ false)
        × ((http_handler site dry first_visit s limiter).0 ≡ (
            if (allow_ip dry limiter (client site first_visit s) 4).0
            then mux site first_visit s fresh_writer
            else refused s)))
start_up_serves_example =
    start_up_serves dry fresh_machine default_options around (first_visit ∷ []) first_visit
      can_start (unfold new_stats in (refl, refl))

-- What a server has left that was stopped after one visit.
abbrev left : Bool × FileState
left = save_stats codec written (codes "data") (record_all (new_stats 3) one_visit) missing

abbrev machine_after : Machine
machine_after = record fresh_machine {
  disk = record { cwd = some (codes "/srv"); size = λ path. none; content = λ path. none };
  codec = codec;
  created_at = 20;
  stats_file = left.1;
  log_file = some [];
}

abbrev in_file_mode : Options
in_file_mode = record default_options { use_files = true; data_dir = codes "data" }

machine_after-CanStart : CanStart machine_after in_file_mode
unfolding check_rates validate atoi parse_up_to parse_digits load_template load_words text_eq
    has_prefix
machine_after-CanStart = record {
  rates = refl;
  template = [];
  template_loads = refl;
  words = [];
  words_load = refl;
  directory = refl;
  opens = in_files (codes "/srv") [] refl refl refl refl;
  port = refl;
  device = record { bytes = λ i. omega arith; never_fails = λ i. refl };
}

start_up_resumes_example :
    (r : Running dry) × (start_up dry machine_after in_file_mode ≡ ok r)
    × (left.0 ≡ false)
    × (r.manager.stats.start_time ≡ 20)
    × Reflects (one_visit ++ one_visit) (record_all r.manager.stats one_visit)
start_up_resumes_example =
    start_up_resumes dry machine_after in_file_mode (codes "/srv") 3 one_visit one_visit missing
      machine_after-CanStart refl (unfold text_eq in refl) refl (unfold has_prefix in refl)
      reads_back refl
