-- ===== src/Main/Restart.antt =====
-- main.go: the statistics before and after a restart in file mode.
use gospidertrap.Common.{
  ℕ, ◌-◌, ◌≡◌, refl, ap, ◌∙◌, false, none, some, List, [], ◌++◌, arith, Text, codes, text_eq,
  text_eq-ne, true, length, length-drop, ltb,
}
use gospidertrap.Stats.{Stats, RequestInfo, Time, new_stats}
use gospidertrap.Stats.Table.{Counts, lookup, HasDistinctKeys, total}
use gospidertrap.Stats.Tracking.{Tracks}
use gospidertrap.Stats.Memory.{record_all, record_all-max}
use gospidertrap.Stats.Memory.History.{Reflects, last_n, ips, agents, history, record_all-Reflects}
use gospidertrap.Paths.{is_abs, join, validate_data_dir_path}
use gospidertrap.Paths.Own.{own_files_accepted}
use gospidertrap.Strings.{has_prefix}
use gospidertrap.Main.Saved.{
  PersistedStats, Codec, FileState, present, written, entries, persisted, restore_recent, restore,
  save_stats, load_stats, load_file,
}

-- The same map, its entries in any order.
pub record SameCounts (m m' : Counts) : Type 0 where
  pub same_lookup : (k : Text) → lookup k m' ≡ lookup k m
  pub same_length : length m' ≡ length m
  pub same_total : total m' ≡ total m
  pub distinct : HasDistinctKeys m'

-- What encoding/json documents for texts in UTF-8: what was written is read back, maps in some
-- order.
pub record ReadsBack (codec : Codec) (p : PersistedStats) : Type 0 where
  pub text : Text
  pub written : codec.encode p ≡ some text
  pub ips_back : Counts
  pub agents_back : Counts
  pub read :
      codec.decode text
      ≡ some (record p { ip_counts = some ips_back; user_agents = some agents_back })
  pub same_ips : SameCounts (entries p.ip_counts) ips_back
  pub same_agents : SameCounts (entries p.user_agents) agents_back

Tracks-SameCounts :
    (limit : ℕ) (seen : List Text) (m m' : Counts)
    → SameCounts m m'
    → Tracks limit seen m
    → Tracks limit seen m'
Tracks-SameCounts limit seen m m' same t = record {
  key = λ k. rw (same.same_lookup k, same.same_length) (t.key k);
  fits = omega (arith, same.same_length, t.fits);
  distinct = same.distinct;
  sum = omega (arith, same.same_total, t.sum);
}

restore_recent-last_n :
    (max : ℕ) (reqs : List RequestInfo) → restore_recent max (last_n max reqs) ≡ last_n max reqs
unfolding restore_recent
restore_recent-last_n max reqs =
    let short : ltb max (length (last_n max reqs)) ≡ false =
      ground (arith, length-drop (length reqs - max) reqs) in
    rw short refl

restore-Reflects :
    (seen : List RequestInfo) (s fresh : Stats) (ips_back agents_back : Counts)
    → Reflects seen s
    → s.max_recent_requests ≡ fresh.max_recent_requests
    → SameCounts s.ip_counts ips_back
    → SameCounts s.user_agents agents_back
    → Reflects seen (
        restore
          (record (persisted s) { ip_counts = some ips_back; user_agents = some agents_back })
          fresh)
unfolding restore persisted
restore-Reflects seen s fresh ips_back agents_back h same_max same_ips same_agents = record {
  maps_made = (refl, refl);
  every_request = h.every_request;
  by_ip = Tracks-SameCounts _ (ips seen) s.ip_counts ips_back same_ips h.by_ip;
  by_agent = Tracks-SameCounts _ (agents seen) s.user_agents agents_back same_agents h.by_agent;
  recent =
      ap (restore_recent fresh.max_recent_requests) (h.recent ∙ ap (λ n. last_n n seen) same_max)
      ∙ restore_recent-last_n fresh.max_recent_requests seen;
}

module _ (codec : Codec) (dir data_dir : Text) (rooted : is_abs dir ≡ true)
    (set : text_eq data_dir [] ≡ false) where
  saved_and_loaded :
      (s fresh : Stats) (file : FileState) (b : ReadsBack codec (persisted s))
      → (save_stats codec written data_dir s file ≡ (false, present b.text))
        × (load_stats codec (some dir) data_dir (present b.text) fresh ≡ (
          false,
          restore
              (record (persisted s) {
                ip_counts = some b.ips_back;
                user_agents = some b.agents_back;
              })
              fresh,
        ))
  unfolding save_stats load_stats load_file
  saved_and_loaded s fresh file b =
      let valid : validate_data_dir_path (some dir) data_dir (join data_dir (codes "stats.json"))
          ≡ none =
        own_files_accepted dir data_dir (codes "stats.json") rooted (text_eq-ne data_dir [] set)
          (λ e. cc e) (λ e. cc e) (unfold has_prefix in refl) (ground arith) in
      (
        rw (set, b.written, save_stats) refl,
        rw (set, valid, load_stats) (rw (b.read, load_file) refl),
      )

  -- In file mode the statistics survive a restart, with an absolute working directory and a data
  -- directory that is set, wherever that is: after any requests, if the statistics are saved, loaded
  -- by a server that starts later, and what was written is read back, then they reflect the requests
  -- before and after the restart as if there had been none, but for the start time, which is that of
  -- the later server.
  pub restart_goes_on :
      (now later : Time) (before after : List RequestInfo) (file : FileState)
      → ReadsBack codec (persisted (record_all (new_stats now) before))
      → let saved = save_stats codec written data_dir (record_all (new_stats now) before) file in
        let loaded = load_stats codec (some dir) data_dir saved.1 (new_stats later) in
        (saved.0 ≡ false)
        × (loaded.0 ≡ false)
        × (loaded.1.start_time ≡ later)
        × Reflects (before ++ after) (record_all loaded.1 after)
  unfolding restore new_stats persisted
  restart_goes_on now later before after file b =
      let s = record_all (new_stats now) before in
      let (saved, read) = saved_and_loaded s (new_stats later) file b in
      rw (saved, read)
        (
          refl,
          refl,
          refl,
          record_all-Reflects before after _ (
              restore-Reflects before s (new_stats later) b.ips_back b.agents_back
                (history now before) (record_all-max before (new_stats now)) b.same_ips
                b.same_agents),
        )
