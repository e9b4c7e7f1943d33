-- ===== src/Main/Concurrent/Quiet.antt =====
-- main.go: which requests the statistics and the log of the file mode hold, however the handlers
-- interleave.
use mathlib.Core.List.{map, map-append, Perm, perm_append_comm}
use mathlib.Core.List.Perm
use gospidertrap.Common.{
  ℕ, ◌≡◌, refl, ap, sym, ◌∙◌, Bool, true, false, Option, List, [], ◌∷◌, ◌++◌, append-nil, Text,
  if◌then◌else◌,
}
use gospidertrap.Stats.{Stats}
use gospidertrap.Stats.Memory
use gospidertrap.Serve.{State}
use gospidertrap.Main.Routes.{Site, Visit, logged}
use gospidertrap.Main.Routes.Accounting.{in_files, recorded_info}
use gospidertrap.Main.Concurrent.Orders.{
  move_last, record_all-append, log_all, log_all-append, enters, entered, entered-append,
  logged-in_files, recorded-in_files,
}
use gospidertrap.Main.Concurrent.{
  System, recorded, Step, arrive, write_log, record_visit, draw, Reach, start, later,
}

none_left {ℓ} :
    {A : Type ℓ} (all left done : List A) → left ≡ [] → Perm all (left ++ done) → Perm all done
none_left all left done e p = rw e at p

module _ (site : Site) (trust : Bool) where
  -- The visits that handlers have been through: `logs` as they were written to the log, and `records`
  -- as they were recorded.
  pub record Accounts (stats : Stats) (log : Option Text) (s : System) : Type 0 where
    pub logs : List Visit
    pub records : List Visit
    pub offset : ℕ
    pub state_is :
        s.state
        ≡ in_files
            (Memory.record_all stats (map (recorded_info site trust) records))
            trust
            (log_all site trust log logs)
            offset
    pub begun : Perm (entered site trust s.came) (s.to_log ++ logs)
    pub pending : Perm logs (s.to_record ++ records)

  module _ (files : site.use_files ≡ true) (stats : Stats) (log : Option Text) where
    abbrev IsAccounted : System → Type 0
    IsAccounted = Accounts stats log

    arrive-IsAccounted :
        (s : System) (v : Visit) (allowed : Bool)
        → IsAccounted s
        → IsAccounted (record s {
          came = s.came ++ (v, allowed) ∷ [];
          to_log = if enters site trust v allowed then v ∷ s.to_log else s.to_log;
        })
    arrive-IsAccounted s v allowed a = record {
      logs = a.logs;
      records = a.records;
      offset = a.offset;
      state_is = a.state_is;
      begun = rw (entered-append site trust s.came v allowed) (go (enters site trust v allowed));
      pending = a.pending;
    }
      where
        go :
            (b : Bool)
            → Perm
                (entered site trust s.came ++ (if b then v ∷ [] else []))
                ((if b then v ∷ s.to_log else s.to_log) ++ a.logs)
        go true = Perm.trans (perm_append_comm _ (v ∷ [])) (Perm.cons v a.begun)
        go false = rw append-nil a.begun

    step-IsAccounted : (s t : System) → Step site trust s t → IsAccounted s → IsAccounted t
    step-IsAccounted s _ (arrive v allowed) a = arrive-IsAccounted s v allowed a
    step-IsAccounted s _ (write_log before after v here) a = record {
      logs = a.logs ++ v ∷ [];
      records = a.records;
      offset = a.offset;
      state_is =
          ap (logged site v) a.state_is
          ∙ logged-in_files site trust files _ _ a.offset v
          ∙ ap
              (λ l.
                in_files (Memory.record_all stats (map (recorded_info site trust) a.records)) trust
                  l a.offset)
              (sym (log_all-append site trust log a.logs v));
      begun = Perm.trans (rw (← here) a.begun) (move_last before after a.logs v);
      pending = Perm.trans (perm_append_comm a.logs (v ∷ [])) (Perm.cons v a.pending);
    }
    step-IsAccounted s _ (record_visit before after v here) a = record {
      logs = a.logs;
      records = a.records ++ v ∷ [];
      offset = a.offset;
      state_is =
          ap (recorded site trust v) a.state_is
          ∙ recorded-in_files site trust _ _ a.offset v
          ∙ ap (λ now. in_files now trust (log_all site trust log a.logs) a.offset)
              (sym (
                  record_all-append stats (map (recorded_info site trust) a.records)
                    (recorded_info site trust v))
                ∙ ap (Memory.record_all stats) (sym (map-append _ a.records (v ∷ []))));
      begun = a.begun;
      pending = Perm.trans (rw (← here) a.pending) (move_last before after a.records v);
    }
    step-IsAccounted s _ (draw offset) a = record {
      logs = a.logs;
      records = a.records;
      offset = offset;
      state_is = ap {A = State} (λ st. record st { offset = offset }) a.state_is;
      begun = a.begun;
      pending = a.pending;
    }

    reach-IsAccounted :
        (i : ℕ) (s : System)
        → Reach site trust (in_files stats trust log i) s
        → Accounts stats log s
    reach-IsAccounted i s start = record {
      logs = [];
      records = [];
      offset = i;
      state_is = refl;
      begun = Perm.refl [];
      pending = Perm.refl [];
    }
    reach-IsAccounted i t (later {s = s} r step) =
        step-IsAccounted s t step (reach-IsAccounted i s r)

    -- In file mode, however the handlers interleave and whatever the limiter answers, from a server with
    -- no request under way on: once no handler has the log or the statistics before it, the same visits
    -- have been written to the log and recorded in the statistics, each of them once and each in an
    -- order of its own, namely the visits of pages that the limiter let through. Of the visits that
    -- are written, the log lacks those that cannot be encoded or whose write fails; and if a map is
    -- nil, what is recorded of a visit ends at the write to it.
    pub interleavings_agree :
        (i : ℕ) (s : System)
        → Reach site trust (in_files stats trust log i) s
        → s.to_log ≡ []
        → s.to_record ≡ []
        → (logs records : List Visit) × (offset : ℕ) × (s.state
            ≡ in_files
                (Memory.record_all stats (map (recorded_info site trust) records))
                trust
                (log_all site trust log logs)
                offset)
          × Perm logs (entered site trust s.came)
          × Perm records (entered site trust s.came)
    interleavings_agree i s r none_to_log none_to_record =
        let a = reach-IsAccounted i s r in
        let logged_ones = none_left _ s.to_log a.logs none_to_log a.begun in
        let recorded_ones = none_left a.logs s.to_record a.records none_to_record a.pending in
        (
          a.logs,
          a.records,
          a.offset,
          a.state_is,
          Perm.symm logged_ones,
          Perm.symm (Perm.trans logged_ones recorded_ones),
        )
