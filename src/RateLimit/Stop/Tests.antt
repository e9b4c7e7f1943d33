-- ===== src/RateLimit/Stop/Tests.antt =====
-- Tests of `Stop`.
use gospidertrap.Common.{refl, true, false, arith}
use gospidertrap.RateLimit.Stop.{
  System, new_system, moved, ticker_stopped, found_open, finished, Reach, start, later, stop_ticker,
  take_default, close_open,
}

-- One call, from its beginning to its end.
abbrev stopped : System
stopped = record {
  ticking = false;
  closed = true;
  cleaning = true;
  panicked = false;
  pc = moved 0 finished (moved 0 found_open (moved 0 ticker_stopped new_system.pc));
}

stopped_reached : Reach 1 stopped
stopped_reached =
    later (later (later start (stop_ticker 0 (omega arith) refl)) (take_default 0 refl refl))
      (close_open 0 refl refl)
