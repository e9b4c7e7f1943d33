-- ===== src/Main/Periodic/Tests.antt =====
-- Tests of the periodic saving.
use gospidertrap.Common.{◌≡◌, refl, true, some, none, List, [], ◌∷◌, codes, text_eq}
use gospidertrap.Stats.{RequestInfo, new_stats}
use gospidertrap.Main.Saved.{Codec, missing, present, written, broken_off, save_stats}
use gospidertrap.Main.Periodic.{
  Saver, SaveEvent, visited, ticked, cancelled, cleaned_up, stop_periodic_save, save_at_tick,
  happen, happen_all,
}

abbrev visit : RequestInfo
visit = record {
  ip = codes "10.0.0.1";
  user_agent = codes "curl";
  path = codes "/a";
  timestamp = 9;
}

abbrev codec : Codec
codec = record { encode = λ p. some (codes "{}"); decode = λ s. none }

abbrev begun : Saver
begun = record { stats = new_stats 3; file = missing; active = true }

abbrev busy_day : List SaveEvent
busy_day =
    visited visit
    ∷ ticked written
    ∷ visited visit
    ∷ ticked (broken_off 1)
    ∷ cleaned_up written
    ∷ ticked written
    ∷ []

not_ticking :
    (happen_all codec (codes "data") true (cancelled ∷ ticked written ∷ []) begun).file ≡ missing
unfolding happen stop_periodic_save save_at_tick
not_ticking = refl

saved_at_tick :
    (happen_all codec (codes "data") true (ticked written ∷ []) begun).file ≡ present (codes "{}")
unfolding happen save_at_tick save_stats text_eq
saved_at_tick = refl

torn_at_tick :
    (happen_all codec (codes "data") true (ticked (broken_off 1) ∷ []) begun).file
    ≡ present (codes "{")
unfolding happen save_at_tick save_stats text_eq
torn_at_tick = refl
