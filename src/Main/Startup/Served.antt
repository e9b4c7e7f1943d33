-- ===== src/Main/Startup/Served.antt =====
-- main.go: a server that has started, and the requests that it is sent.
use gospidertrap.Stats.Memory
use gospidertrap.Stats.Memory.{HasMaps}
use gospidertrap.Stats.Manager.{Manager, record_panics}
use gospidertrap.Main.Startup.Opens.{IsOpened, first_stats}
use gospidertrap.Common.{
  List, ◌∙◌, Option, Text, Option-cases, inl, inr, refl, ◌≡◌, false, if◌then◌else◌,
}
use gospidertrap.Http.Writer.{fresh_writer}
use gospidertrap.RateLimit.{RateLibrary, Limiter, allow_ip}
use gospidertrap.Serve.{State}
use gospidertrap.Main.Options.{Options}
use gospidertrap.Main.Wordlist.{ok}
use gospidertrap.Main.Routes.{Site, Visit, mux, client, http_handler, serve_all}
use gospidertrap.Main.Routes.Kept.{serve_all_panics}
use gospidertrap.Main.Routes.Calm.{refused, http_handler_returns}
use gospidertrap.Main.Startup.{Machine, Running, start_up}
use gospidertrap.Main.Startup.Sound.{CanStart, IsReady, CanStart-IsReady}

opened-calm :
    (machine : Machine) (o : Options) (m : Manager) (log : Option Text)
    → IsOpened machine o (record { db = m.db; stats = m.stats; log = log })
    → HasMaps (first_stats machine o)
    → record_panics m ≡ false
unfolding record_panics Memory.record_panics
opened-calm machine o m log opened (ips, agents) =
    let no_nil : Memory.record_panics m.stats ≡ false =
      rw opened.stats_are (rw (ips, agents) refl) in
    elim (Option-cases m.db) [
      | inl e ↦ rw (e, record_panics) no_nil
      | inr (t, e) ↦ rw (e, record_panics) refl
    ]

module _ (lib : RateLibrary) where
  -- The site of a server: what it was started with, in surroundings that give the rest.
  abbrev pub site_of : Machine → Options → Running lib → Site → Site
  site_of machine o r around = record around {
    engine = machine.engine;
    device = machine.device;
    generator = r.generator;
    auth = r.auth;
    data_dir = o.data_dir;
    use_files = o.use_files;
  }

  -- The state in which a server starts to listen.
  abbrev pub first_state : Running lib → State
  first_state r = record { manager = r.manager; log = r.log; offset = r.offset }

  -- The state and the limiter of a server that has handled these visits.
  abbrev pub served_all : Machine → Options → Running lib → Site → List Visit → State × Limiter lib
  served_all machine o r around vs =
      serve_all (site_of machine o r around) lib vs (first_state r) r.limiter

  -- If nothing is in the way of a start, in file mode or with a database, and stats.json leaves no map
  -- nil, the server starts: its rates are in order, its port is valid, pages can be made with its
  -- source, its template has at most 10 MiB, it has only one of database and log, and its statistics
  -- are those that it loads in file mode, and new ones otherwise. From then on, after any requests one
  -- after another, no handler panics at the next one, whichever calls of the database fail: if the
  -- limiter lets it through it is answered by its handler, and else with the status 429.
  pub start_up_serves :
      (machine : Machine) (o : Options) (around : Site) (vs : List Visit) (v : Visit)
      → CanStart machine o
      → HasMaps (first_stats machine o)
      → (r : Running lib) × (start_up lib machine o ≡ ok r)
        × IsReady lib machine o r
        × (let site = site_of machine o r around in
            let (s, limiter) = served_all machine o r around vs in
            ((mux site v s fresh_writer).panicked ≡ false)
            × ((http_handler site lib v s limiter).0 ≡ (
                if (allow_ip lib limiter (client site v s) v.allowed_at).0
                then mux site v s fresh_writer
                else refused s)))
  start_up_serves machine o around vs v c maps =
      let (r, started, ready) = CanStart-IsReady lib machine o c in
      let site = site_of machine o r around in
      let (s, limiter) = served_all machine o r around vs in
      let fine : record_panics s.manager ≡ false =
        serve_all_panics site lib vs (first_state r) r.limiter
        ∙ opened-calm machine o r.manager r.log ready.opened maps in
      (r, started, ready, http_handler_returns site v s c.device ready.usable fine lib limiter)
