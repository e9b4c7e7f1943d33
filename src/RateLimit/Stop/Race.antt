-- ===== src/RateLimit/Stop/Race.antt =====
-- internal/ratelimit/limiter.go: what calls of `Stop` do to a limiter, and to each other.
use gospidertrap.Common.{
  ℕ, ◌≡◌, ◌≢◌, ◌<◌, ◌⊎◌, inl, inr, refl, sym, ◌∙◌, ap, Bool, true, false, arith, ◌==◌, Bool-cases,
}
use gospidertrap.RateLimit.Stop.{
  Pc, outside, ticker_stopped, found_open, finished, System, moved, new_system, Step, stop_ticker,
  receive, take_default, close_open, close_closed, tick, leave_loop, Reach, start, later,
}

moved_same : (i : ℕ) (p : Pc) (pc : ℕ → Pc) → moved i p pc i ≡ p
moved_same i p pc = let same : (i == i) ≡ true = ground arith in rw same refl

-- A caller is the one that moved, or is where it was.
moved_cases :
    (i j : ℕ) (p : Pc) (pc : ℕ → Pc)
    → ((i ≡ j) × (moved i p pc j ≡ p)) ⊎ ((i ≢ j) × (moved i p pc j ≡ pc j))
moved_cases i j p pc = elim (Bool-cases (i == j)) [
  | inl e ↦ inl (ground arith, rw e refl)
  | inr e ↦ inr (ground arith, rw e refl)
]

record Holds (s : System) : Type 0 where
  -- a call that is finished leaves the channel closed
  closed_behind : (i : ℕ) → s.pc i ≡ finished → s.closed ≡ true
  -- whoever is inside has stopped the ticker
  ticker_off : (i : ℕ) → (s.pc i ≡ outside) ⊎ (s.ticking ≡ false)
  -- a closed channel was closed by a call that is finished
  closer : (s.closed ≡ false) ⊎ ((j : ℕ) × (s.pc j ≡ finished))
  -- a panic is that of a call that found the channel open
  late : (s.panicked ≡ false) ⊎ ((s.closed ≡ true) × (i : ℕ) × (s.pc i ≡ found_open))

new_system-Holds : Holds new_system
new_system-Holds = record {
  closed_behind = λ i e. cc;
  ticker_off = λ i. inl refl;
  closer = inl refl;
  late = inl refl;
}

-- A caller that is not finished moves on, and the channel stays as it is.
move-Holds :
    (s : System) (i : ℕ) (p : Pc) (ticking : Bool)
    → Holds s
    → s.pc i ≢ finished
    → (s.pc i ≢ found_open)
    → (p ≢ finished) ⊎ (s.closed ≡ true)
    → (ticking ≡ false)
    → Holds (record s { ticking = ticking; pc = moved i p s.pc })
move-Holds s i p ticking h unfinished not_open next off = record {
  closed_behind = λ j e. elim (moved_cases i j p s.pc) [
    | inl (same, m) ↦ elim next [ inl n ↦ absurd (n (sym m ∙ e)) | inr c ↦ c ]
    | inr (other, m) ↦ h.closed_behind j (sym m ∙ e)
  ];
  ticker_off = λ j. inr off;
  closer = elim h.closer [
    | inl e ↦ inl e
    | inr (j, e) ↦ elim (moved_cases i j p s.pc) [
      | inl (same, m) ↦ absurd (unfinished (ap s.pc same ∙ e))
      | inr (other, m) ↦ inr (j, m ∙ e)
    ]
  ];
  late = elim h.late [
    | inl e ↦ inl e
    | inr (closed, j, e) ↦ elim (moved_cases i j p s.pc) [
      | inl (same, m) ↦ absurd (not_open (ap s.pc same ∙ e))
      | inr (other, m) ↦ inr (closed, j, m ∙ e)
    ]
  ];
}

ticker_off_inside : (s : System) (i : ℕ) → Holds s → s.pc i ≢ outside → s.ticking ≡ false
ticker_off_inside s i h inside = elim (h.ticker_off i) [ inl e ↦ absurd (inside e) | inr off ↦ off ]

step-Holds : {n : ℕ} {s t : System} → Holds s → Step n s t → Holds t
step-Holds {n} {s} h (stop_ticker i small e) =
    move-Holds s i ticker_stopped false h (λ q. cc (e, q)) (λ q. cc (e, q)) (inl (λ q. cc)) refl
step-Holds {n} {s} h (receive i e closed) =
    move-Holds s i finished s.ticking h (λ q. cc (e, q)) (λ q. cc (e, q)) (inr closed)
      (ticker_off_inside s i h (λ q. cc (e, q)))
step-Holds {n} {s} h (take_default i e still_open) =
    move-Holds s i found_open s.ticking h (λ q. cc (e, q)) (λ q. cc (e, q)) (inl (λ q. cc))
      (ticker_off_inside s i h (λ q. cc (e, q)))
step-Holds {n} {s} h (close_open i e still_open) = record {
  closed_behind = λ j q. refl;
  ticker_off = λ j. inr (ticker_off_inside s i h (λ q. cc (e, q)));
  closer = inr (i, moved_same i finished s.pc);
  late = elim h.late [ inl calm ↦ inl calm | inr (closed, j, q) ↦ cc (closed, still_open) ];
}
step-Holds {n} {s} h (close_closed i e closed) = record {
  closed_behind = h.closed_behind;
  ticker_off = h.ticker_off;
  closer = h.closer;
  late = inr (closed, i, e);
}
step-Holds {n} {s} h (tick ticking cleaning) = h
step-Holds {n} {s} h (leave_loop closed cleaning) = record {
  closed_behind = h.closed_behind;
  ticker_off = h.ticker_off;
  closer = h.closer;
  late = h.late;
}

Reach-Holds : {n : ℕ} {s : System} → Reach n s → Holds s
Reach-Holds start = new_system-Holds
Reach-Holds (later r step) = step-Holds (Reach-Holds r) step

-- However the calls of `Stop` and the goroutine of the cleanup interleave: when a call is finished, the
-- ticker is stopped and the channel is closed, so that the goroutine can leave its loop; and if a call
-- has panicked, then two different calls were under way, one of which found the channel open and
-- closes it a second time after the other has closed it.
pub stop_sound :
    (n : ℕ) (s : System)
    → Reach n s
    → ((i : ℕ) → s.pc i ≡ finished → (s.ticking ≡ false) × (s.closed ≡ true))
      × (s.panicked ≡ true → (i j : ℕ) × (i ≢ j) × (s.pc i ≡ found_open) × (s.pc j ≡ finished))
stop_sound n s r =
    let h = Reach-Holds r in
    (
      λ i e. (ticker_off_inside s i h (λ q. cc (e, q)), h.closed_behind i e),
      λ p. elim h.late [
        | inl calm ↦ cc (p, calm)
        | inr (closed, i, e) ↦ elim h.closer [
          | inl still_open ↦ cc (closed, still_open)
          | inr (j, f) ↦ (i, j, (λ same. cc (e, f, same)), e, f)
        ]
      ],
    )

-- Two calls of `Stop` can make the program panic, whoever they are: each stops the ticker and finds the
-- channel open, one closes it, and the other closes it again.
pub stops_race :
    (n i j : ℕ) → i < n → j < n → i ≢ j → (s : System) × Reach n s × (s.panicked ≡ true)
stops_race n i j hi hj other = (
  _,
  later
      (later
        (later
          (later (later (later start (stop_ticker i hi refl)) (stop_ticker j hj (ground arith)))
            (take_default i (ground arith) refl))
          (take_default j (ground arith) refl))
        (close_open i (ground arith) refl))
      (close_closed j (ground arith) refl),
  refl,
)
