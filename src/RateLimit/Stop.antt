-- ===== src/RateLimit/Stop.antt =====
-- internal/ratelimit/limiter.go: `Stop` and the goroutine of the cleanup, in any interleaving.
pub mod Race
mod Tests
use gospidertrap.Common.{
  ℕ, ◌≡◌, ◌≢◌, ◌<◌, ◌⊎◌, inl, inr, refl, sym, ◌∙◌, ap, Bool, true, false, Option, arith,
  if◌then◌else◌, ◌==◌, Bool-cases,
}

-- Where a caller of `Stop` is: before it, after the ticker is stopped, in the `default` branch of the
-- `select`, which found the channel open, or behind it.
pub data Pc : Type 0 where
  outside : Pc
  ticker_stopped : Pc
  found_open : Pc
  finished : Pc

-- The ticker, the channel and the goroutine of a limiter, and its callers by their numbers.
pub record System : Type 0 where
  pub ticking : Bool
  pub closed : Bool
  pub cleaning : Bool
  pub panicked : Bool
  pub pc : ℕ → Pc

abbrev pub moved : ℕ → Pc → (ℕ → Pc) → ℕ → Pc
moved i p pc j = if i == j then p else pc j

-- After `NewLimiter`.
abbrev pub new_system : System
new_system = record {
  ticking = true;
  closed = false;
  cleaning = true;
  panicked = false;
  pc = λ i. outside;
}

-- What `n` callers and the goroutine can do. `close` of a closed channel panics.
pub data Step (n : ℕ) (s : System) : System → Type 0 where
  stop_ticker :
      (i : ℕ)
      → i < n
      → s.pc i ≡ outside
      → Step n s (record s { ticking = false; pc = moved i ticker_stopped s.pc })
  receive :
      (i : ℕ)
      → s.pc i ≡ ticker_stopped
      → s.closed ≡ true
      → Step n s (record s { pc = moved i finished s.pc })
  take_default :
      (i : ℕ)
      → s.pc i ≡ ticker_stopped
      → s.closed ≡ false
      → Step n s (record s { pc = moved i found_open s.pc })
  close_open :
      (i : ℕ)
      → s.pc i ≡ found_open
      → s.closed ≡ false
      → Step n s (record s { closed = true; pc = moved i finished s.pc })
  close_closed :
      (i : ℕ) → s.pc i ≡ found_open → s.closed ≡ true → Step n s (record s { panicked = true })
  tick : s.ticking ≡ true → s.cleaning ≡ true → Step n s s
  leave_loop : s.closed ≡ true → s.cleaning ≡ true → Step n s (record s { cleaning = false })

pub data Reach (n : ℕ) : System → Type 0 where
  start : Reach n new_system
  later : {s t : System} → Reach n s → Step n s t → Reach n t
