-- ===== src/Main/Tests.antt =====
-- Tests of main.go.
use gospidertrap.Common.{
  inl, true, ◌≡◌, ◌≢◌, refl, false, none, some, Option, List, [], ◌∷◌, ◌++◌, arith, Text, codes,
  text_eq, length, leb, All,
}
use gospidertrap.Strings.{
  split, split_from, contains, has_prefix, trim_space, space_one, space_two, space_three,
}
use gospidertrap.Strings.Lines.{scan_lines, scan_pieces, drop_cr}
use gospidertrap.Paths.{
  push, push_all, elements, join_elements, clean, join, abs, validate_file_path,
}
use gospidertrap.Stats.{RequestInfo, new_stats}
use gospidertrap.Stats.Table.{lookup, insert, track}
use gospidertrap.Stats.Memory.{record_request, record_all, push_recent}
use gospidertrap.Stats.Database.{Engine, Tables, no_tables}
use gospidertrap.Stats.Migration.{Decoder, Environment, migrate_requests}
use gospidertrap.Main.Options.{default_options, check_rates, database_path}
use gospidertrap.Main.Wordlist.{Disk, can_stat, max_wordlist_entries, load_wordlist}
use gospidertrap.Main.Entries.{answer, entries_of, load_wordlist_entries}
use gospidertrap.Main.Saved.{Codec, PersistedStats, present, persisted, load_stats}
use gospidertrap.Main.Restart.{ReadsBack}
use gospidertrap.Main.NilMaps.{nil_map_panics}
use gospidertrap.Stats.Manager.{new_manager, record_panics}
use gospidertrap.Main.RequestLog.{append_all}
use gospidertrap.Main.Handover.{IsLogged, accepted, logged_requests_migrate}

default_rates : check_rates default_options ≡ none
unfolding check_rates
default_rates = refl

default_database : database_path default_options ≡ codes "data/stats.db"
unfolding database_path join clean elements push_all push join_elements split has_prefix text_eq
default_database = refl

abbrev words : Text
words = codes "admin\n  \nlogin \r\n"

abbrev disk : Disk
disk = record { cwd = some (codes "/srv"); size = λ path. some 18; content = λ path. some words }

load_wordlist_entries_example :
    (load_wordlist disk (codes "words.txt")
      ≡ answer
          (leb (length (entries_of (scan_lines words).0)) max_wordlist_entries)
          (entries_of (scan_lines words).0))
    × All (λ entry. entry ≢ []) (entries_of (scan_lines words).0)
load_wordlist_entries_example =
    load_wordlist_entries disk (codes "words.txt") words 18 valid refl (omega arith) refl
      (unfold scan_lines scan_pieces split split_from text_eq in refl)
  where
    valid : validate_file_path disk.cwd (can_stat disk) (codes "words.txt") ≡ none
    valid = unfold validate_file_path contains has_prefix abs in refl

entries_test : entries_of (scan_lines words).0 ≡ codes "admin" ∷ codes "login" ∷ []
unfolding entries_of scan_lines scan_pieces drop_cr split text_eq trim_space space_one space_two
    space_three
entries_test = refl

abbrev visit : Text → RequestInfo
visit ip = record { ip = ip; user_agent = codes "curl"; path = codes "/a"; timestamp = 9 }

abbrev pub one_visit : List RequestInfo
one_visit = visit (codes "10.0.0.1") ∷ []

-- What the statistics are after the visit.
abbrev after_visit : PersistedStats
after_visit = record {
  start_time = 3;
  total_requests = 1;
  ip_counts = some ((codes "10.0.0.1", 1) ∷ []);
  user_agents = some ((codes "curl", 1) ∷ []);
  recent_requests = one_visit;
}

-- A codec for this one value.
abbrev pub codec : Codec
codec = record { encode = λ p. some (codes "{}"); decode = λ s. some after_visit }

pub reads_back : ReadsBack codec (persisted (record_all (new_stats 3) one_visit))
unfolding persisted record_request new_stats track insert lookup push_recent
reads_back = record {
  text = codes "{}";
  written = refl;
  ips_back = (codes "10.0.0.1", 1) ∷ [];
  agents_back = (codes "curl", 1) ∷ [];
  read = refl;
  same_ips = record {
    same_lookup = λ k. refl;
    same_length = refl;
    same_total = refl;
    distinct = (refl, tt);
  };
  same_agents = record {
    same_lookup = λ k. refl;
    same_length = refl;
    same_total = refl;
    distinct = (refl, tt);
  };
}

-- One line for this one request.
abbrev encode_visit : RequestInfo → Option Text
encode_visit req = some (codes "{\"IP\":\"10.0.0.1\"}")

abbrev decode_visit : Decoder
decode_visit = record { request = λ s. some (visit (codes "10.0.0.1")); start_time = λ s. none }

abbrev calm : Environment
calm = record {
  bad_path = false;
  read_fails = false;
  rename_fails = false;
  done_at = λ n. false;
  faults_at = λ n call. false;
  update_fails = false;
}

abbrev bytes_engine : Engine
bytes_engine = record { text_length = length; order_desc = λ key l. l }

visit-IsLogged : IsLogged encode_visit decode_visit (visit (codes "10.0.0.1"))
unfolding drop_cr
visit-IsLogged = record {
  line = codes "{\"IP\":\"10.0.0.1\"}";
  written = refl;
  one_line = omega arith;
  no_cr = refl;
  short = omega arith;
  read = refl;
}

logged_requests_migrate_example :
    (content : Text) × (after : Tables) × (append_all encode_visit
        (codes "data")
        (some [])
        one_visit
      ≡ some content)
    × (migrate_requests bytes_engine decode_visit calm content no_tables ≡ (false, after))
    × (after.request_log
        ≡ [] ++ accepted encode_visit decode_visit (codes "data") bytes_engine one_visit)
logged_requests_migrate_example =
    logged_requests_migrate encode_visit decode_visit (codes "data") bytes_engine calm one_visit
      no_tables
      (record { good_path = refl; read = refl; alive = λ n. refl; quiet = λ n call. refl })
      (visit-IsLogged, tt) (unfold text_eq in refl)

-- Reads a file `{}`.
abbrev empty_object : PersistedStats
empty_object = record {
  start_time = 0;
  total_requests = 0;
  ip_counts = none;
  user_agents = none;
  recent_requests = [];
}

abbrev object_codec : Codec
object_codec = record { encode = λ p. none; decode = λ s. some empty_object }

nil_map_panics_example :
    let loaded =
      load_stats object_codec
        (some (codes "/srv"))
        (codes "data")
        (present (codes "{}"))
        (new_stats 3) in
    (loaded.0 ≡ false)
    × (record_panics (new_manager none (record_all loaded.1 one_visit) false) ≡ true)
nil_map_panics_example =
    nil_map_panics object_codec (codes "/srv") (codes "data") (codes "{}") empty_object
      (new_stats 3) false one_visit (unfold has_prefix in refl) (unfold text_eq in refl) refl
      (inl refl)
