-- ===== src/Main/Concurrent/Tests.antt =====
-- Tests of handlers that interleave.
use mathlib.Core.List.{Perm}
use gospidertrap.Common.{ℕ, ◌≡◌, refl, false, true, some, List, [], ◌∷◌, codes, text_eq, map}
use gospidertrap.Stats.{new_stats}
use gospidertrap.Stats.Memory
use gospidertrap.Main.Routes.{Visit, route, logged}
use gospidertrap.Main.Routes.Accounting.{in_files, recorded_info}
use gospidertrap.Main.Routes.Example.{site, asking, started}
use gospidertrap.Main.Concurrent.Orders.{log_all, entered}
use gospidertrap.Main.Concurrent.Quiet.{interleavings_agree}
use gospidertrap.Main.Concurrent.{
  System, recorded, Reach, arrive, write_log, record_visit, start, later,
}

abbrev x : Visit
x = asking (codes "/x")

abbrev y : Visit
y = asking (codes "/y")

-- `x` and `y` arrive, `y` is logged first, and `x` is recorded first.
abbrev crossed : System
crossed = record {
  came = (x, true) ∷ (y, true) ∷ [];
  state = recorded site false y (recorded site false x (logged site x (logged site y started)));
  to_log = [];
  to_record = [];
}

crossing : Reach site false started crossed
unfolding route text_eq
crossing =
    later
      (later
        (later
          (later (later (later start (arrive x true)) (arrive y true))
            (write_log [] (x ∷ []) y refl))
          (write_log [] [] x refl))
        (record_visit [] (y ∷ []) x refl))
      (record_visit [] [] y refl)

interleavings_agree_example :
    (logs records : List Visit) × (offset : ℕ) × (crossed.state
      ≡ in_files
          (Memory.record_all (new_stats 3) (map (recorded_info site false) records))
          false
          (log_all site false (some []) logs)
          offset)
    × Perm logs (entered site false crossed.came)
    × Perm records (entered site false crossed.came)
interleavings_agree_example =
    interleavings_agree site false refl (new_stats 3) (some []) 0 crossed crossing refl refl
