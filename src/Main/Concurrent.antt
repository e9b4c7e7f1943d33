-- ===== src/Main/Concurrent.antt =====
-- main.go: requests of pages that are handled at the same time, each by its own goroutine. The log, the
-- statistics and the source of random numbers each have a lock: what a handler does with one of them
-- is a step, and the steps of different handlers come in any order. What the limiter answers is left
-- open, so that its cleanup may run at any time, also between the two parts of `Allow`.
pub mod Orders
pub mod Quiet
pub mod Sequential
mod Tests
use gospidertrap.Common.{ℕ, ◌≡◌, Bool, ◌&&◌, List, [], ◌∷◌, ◌++◌, if◌then◌else◌}
use gospidertrap.Stats.Manager.{record_request}
use gospidertrap.Serve.{State}
use gospidertrap.Main.Routes.{Site, Visit, info, logged}
use gospidertrap.Main.Routes.Accounting.{asks_page}

-- The visits that have met the limiter, in this order and with its answers, the shared state, and the
-- handlers of pages that the limiter let through, by what they have before them: the log, or
-- `RecordRequest`.
pub record System : Type 0 where
  pub came : List (Visit × Bool)
  pub state : State
  pub to_log : List Visit
  pub to_record : List Visit

-- The handler of a visit, among others.
abbrev pub among : List Visit → Visit → List Visit → List Visit
among before v after = before ++ v ∷ after

module _ (site : Site) (trust : Bool) where
  -- `RecordRequest`, for a visit.
  abbrev pub recorded : Visit → State → State
  recorded v s = record s {
    manager =
        (record_request site.engine v.record_faults (info site v v.recorded_at s) s.manager).1;
  }

  -- A step of one of the handlers. The pages and the nonces of the dashboard take random numbers at any
  -- time, and how many is left open.
  pub data Step (s : System) : System → Type 0 where
    arrive :
        (v : Visit) (allowed : Bool)
        → Step s (record s {
          came = s.came ++ (v, allowed) ∷ [];
          to_log = if allowed && asks_page site trust v.request then v ∷ s.to_log else s.to_log;
        })
    write_log :
        (before after : List Visit) (v : Visit)
        → s.to_log ≡ among before v after
        → Step s (record s {
          state = logged site v s.state;
          to_log = before ++ after;
          to_record = v ∷ s.to_record;
        })
    record_visit :
        (before after : List Visit) (v : Visit)
        → s.to_record ≡ among before v after
        → Step s (record s { state = recorded v s.state; to_record = before ++ after })
    draw : (offset : ℕ) → Step s (record s { state = record s.state { offset = offset } })

  -- The server with no request under way.
  abbrev pub idle : State → List (Visit × Bool) → System
  idle s came = record { came = came; state = s; to_log = []; to_record = [] }

  pub data Reach (state : State) : System → Type 0 where
    start : Reach state (idle state [])
    later : {s t : System} → Reach state s → Step s t → Reach state t
