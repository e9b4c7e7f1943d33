-- ===== src/Main/Concurrent/Sequential.antt =====
-- main.go: requests that are handled one after another.
use gospidertrap.Common.{
  ℕ, ◌≡◌, refl, ap, ◌∙◌, Bool, true, false, Option, List, [], ◌∷◌, ◌++◌, append_assoc, append-nil,
  Text, Bool-cases, inl, inr, All,
}
use gospidertrap.RateLimit.{RateLibrary, Limiter}
use gospidertrap.Stats.{Stats}
use gospidertrap.Stats.Memory
use gospidertrap.Serve.{State}
use gospidertrap.Main.RequestLog.{append_request_to_log}
use gospidertrap.Main.Routes.{Site, Visit, logged, serve_all}
use gospidertrap.Main.Routes.Accounting.{
  in_files, recorded_info, logged_info, append, admitted, http_handler_state,
}
use gospidertrap.Main.Concurrent.Orders.{enters, log_all, logged-in_files, recorded-in_files}
use gospidertrap.Main.Concurrent.{
  recorded, arrive, write_log, record_visit, draw, idle, Reach, later,
}

module _ (site : Site) (trust : Bool) (files : site.use_files ≡ true) where
  -- One visit from its arrival to its end, with nothing else under way.
  page_alone :
      (first : State) (came : List (Visit × Bool)) (v : Visit) (allowed : Bool) (s : State) (j : ℕ)
      → enters site trust v allowed ≡ true
      → Reach site trust first (idle site trust s came)
      → Reach site trust first (
          idle site trust
            (record (recorded site trust v (logged site v s)) { offset = j })
            (came ++ (v, allowed) ∷ []))
  page_alone first came v allowed s j e r =
      later
        (later (later (later r (arrive v allowed)) (write_log [] [] v (rw e refl)))
          (record_visit [] [] v refl))
        (draw j)

  -- Any other visit changes at most the offset.
  other_alone :
      (first : State) (came : List (Visit × Bool)) (v : Visit) (allowed : Bool) (s : State) (j : ℕ)
      → enters site trust v allowed ≡ false
      → Reach site trust first (idle site trust s came)
      → Reach site trust first
          (idle site trust (record s { offset = j }) (came ++ (v, allowed) ∷ []))
  other_alone first came v allowed s j e r =
      let arrived = later (later r (arrive v allowed)) (draw j) in rw e at arrived

  handled_alone :
      (v : Visit) (now : Stats) (log : Option Text) (i j : ℕ)
      → v.write_fails ≡ false
      → record (recorded site trust v (logged site v (in_files now trust log i))) { offset = j }
        ≡ in_files
            (Memory.record_request now (recorded_info site trust v))
            trust
            (append site trust log (logged_info site trust v))
            j
  handled_alone v now log i j w =
      ap {A = State} (λ s. record (recorded site trust v s) { offset = j })
        (logged-in_files site trust files now log i v)
      ∙ ap {A = State} (λ s. record s { offset = j })
          (recorded-in_files site trust now (log_all site trust log (v ∷ [])) i v)
      ∙ ap
          (λ fails.
            in_files (Memory.record_request now (recorded_info site trust v)) trust
              (append_request_to_log site.encode_line fails site.data_dir log
                (logged_info site trust v))
              j)
          w

  module _ (lib : RateLibrary) where
    -- The answers of the limiter to these visits, one after another.
    abbrev pub answered : List Visit → Limiter lib → List (Visit × Bool)
    answered [] l = []
    answered (v ∷ vs) l =
        let (allowed, l') = admitted site trust lib v l in (v, allowed) ∷ answered vs l'

    -- In file mode the requests that are handled one after another are one of the interleavings.
    pub serve_all-Reach :
        (vs : List Visit) (first : State) (came : List (Visit × Bool)) (now : Stats)
        (log : Option Text) (i : ℕ) (l : Limiter lib)
        → All (λ v. v.write_fails ≡ false) vs
        → Reach site trust first (idle site trust (in_files now trust log i) came)
        → Reach site trust first (
            idle site trust
              (serve_all site lib vs (in_files now trust log i) l).0
              (came ++ answered vs l))
    serve_all-Reach [] first came now log i l written r = rw append-nil r
    serve_all-Reach (v ∷ vs) first came now log i l (w, written) r =
        let (j, ended, limiter_ended) = http_handler_state site trust files lib v now log i l w in
        let allowed = (admitted site trust lib v l).0 in
        elim (Bool-cases (enters site trust v allowed)) [
          | inl e ↦
              let alone = page_alone first came v allowed (in_files now trust log i) j e r in
              let next : Reach site trust first (
                  idle site trust
                    (in_files (Memory.record_request now (recorded_info site trust v)) trust
                      (append site trust log (logged_info site trust v)) j)
                    (came ++ (v, allowed) ∷ [])) =
                rw (handled_alone v now log i j w) at alone in
              rw
                (
                  ended,
                  limiter_ended,
                  e,
                  serve_all,
                  ← append_assoc came ((v, allowed) ∷ [])
                      (answered vs (admitted site trust lib v l).1),
                )
                (serve_all-Reach vs first _ _ _ j (admitted site trust lib v l).1 written next)
          | inr e ↦
              rw
                (
                  ended,
                  limiter_ended,
                  e,
                  serve_all,
                  ← append_assoc came ((v, allowed) ∷ [])
                      (answered vs (admitted site trust lib v l).1),
                )
                (serve_all-Reach vs first _ now log j (admitted site trust lib v l).1 written
                  (other_alone first came v allowed (in_files now trust log i) j e r))
        ]
