-- ===== src/Main/NilMaps.antt =====
-- main.go: a stats.json that lacks a map, and the requests of pages after it is loaded.
use gospidertrap.Common.{
  ◌≡◌, ◌⊎◌, inl, inr, refl, ◌∙◌, Bool, true, false, none, some, List, [], ◌∷◌, ◌||◌, Text, codes,
  text_eq, text_eq-ne, arith,
}
use gospidertrap.Strings.{has_prefix}
use gospidertrap.Paths.{is_abs, join, validate_data_dir_path}
use gospidertrap.Paths.Own.{own_files_accepted}
use gospidertrap.Stats.{Stats, RequestInfo}
use gospidertrap.Stats.Memory
use gospidertrap.Stats.Memory.{record_all}
use gospidertrap.Stats.Manager.{new_manager, record_panics}
use gospidertrap.Main.Saved.{Codec, PersistedStats, present, restore, load_stats, load_file}

record_all_panics :
    (reqs : List RequestInfo) (s : Stats)
    → Memory.record_panics (record_all s reqs) ≡ Memory.record_panics s
record_all_panics [] s = refl
record_all_panics (req ∷ reqs) s =
    record_all_panics reqs (Memory.record_request s req) ∙ Memory.record_panics-record_request s req

or_true : (a b : Bool) → (a ≡ true) ⊎ (b ≡ true) → (a || b) ≡ true
or_true true b h = refl
or_true false b (inl h) = cc h
or_true false b (inr h) = h

restored_panics :
    (p : PersistedStats) (fresh : Stats)
    → (p.ip_counts ≡ none) ⊎ (p.user_agents ≡ none)
    → Memory.record_panics (restore p fresh) ≡ true
unfolding Memory.record_panics restore
restored_panics p fresh lacking =
    or_true (restore p fresh).ip_counts_nil (restore p fresh).user_agents_nil
      (elim lacking [ inl e ↦ inl (rw e refl) | inr e ↦ inr (rw e refl) ])

-- If stats.json can be read and lacks one of the maps, or has `null` for it, loading it returns no error,
-- and without a database `RecordRequest` panics from then on, whatever requests have come: no request
-- mends the map. The data directory is set and the working directory is an absolute path.
pub nil_map_panics :
    (codec : Codec) (dir data_dir text : Text) (p : PersistedStats) (fresh : Stats) (trust : Bool)
    (reqs : List RequestInfo)
    → is_abs dir ≡ true
    → text_eq data_dir [] ≡ false
    → codec.decode text ≡ some p
    → (p.ip_counts ≡ none) ⊎ (p.user_agents ≡ none)
    → let loaded = load_stats codec (some dir) data_dir (present text) fresh in
      (loaded.0 ≡ false)
      × (record_panics (new_manager none (record_all loaded.1 reqs) trust) ≡ true)
unfolding load_stats load_file record_panics new_manager
nil_map_panics codec dir data_dir text p fresh trust reqs rooted set decoded lacking =
    let valid : validate_data_dir_path (some dir) data_dir (join data_dir (codes "stats.json"))
        ≡ none =
      own_files_accepted dir data_dir (codes "stats.json") rooted (text_eq-ne data_dir [] set)
        (λ e. cc e) (λ e. cc e) (unfold has_prefix in refl) (ground arith) in
    let loaded : load_stats codec (some dir) data_dir (present text) fresh
        ≡ (false, restore p fresh) =
      rw (set, valid, load_stats) (rw (decoded, load_file) refl) in
    rw loaded (refl, record_all_panics reqs (restore p fresh) ∙ restored_panics p fresh lacking)
