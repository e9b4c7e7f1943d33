-- ===== src/Main/Concurrent/Orders.antt =====
-- main.go: visits in the order in which they meet the limiter, the log and the statistics.
use mathlib.Core.List.{Perm, perm_append_comm, perm_middle}
use mathlib.Core.List.Perm
use gospidertrap.Common.{
  ℕ, ◌≡◌, refl, ap, Bool, true, ◌&&◌, Option, List, [], ◌∷◌, ◌++◌, append_assoc, Text, Bool-cases,
  inl, inr, if◌then◌else◌,
}
use gospidertrap.Stats.{Stats, RequestInfo}
use gospidertrap.Stats.Memory
use gospidertrap.Stats.Manager.{record_request}
use gospidertrap.Main.RequestLog.{append_request_to_log}
use gospidertrap.Main.Routes.{Site, Visit, logged}
use gospidertrap.Main.Routes.Accounting.{in_files, asks_page, recorded_info, logged_info}
use gospidertrap.Main.Concurrent.{recorded}

pub move_last {ℓ} :
    {A : Type ℓ} (before after rest : List A) (v : A)
    → Perm ((before ++ v ∷ after) ++ rest) ((before ++ after) ++ (rest ++ v ∷ []))
move_last before after rest v = Perm.trans (Perm.append_right rest (perm_middle before after)) (
    Perm.trans (perm_append_comm (v ∷ []) ((before ++ after) ++ rest))
      (rw (append_assoc (before ++ after) rest (v ∷ [])) (Perm.refl _)))

pub record_all-append :
    (s : Stats) (rs : List RequestInfo) (r : RequestInfo)
    → Memory.record_all s (rs ++ r ∷ []) ≡ Memory.record_request (Memory.record_all s rs) r
record_all-append s [] r = refl
record_all-append s (q ∷ rs) r = record_all-append (Memory.record_request s q) rs r

module _ (site : Site) (trust : Bool) where
  -- The log after these visits, one after another.
  abbrev pub log_all : Option Text → List Visit → Option Text
  log_all log [] = log
  log_all log (v ∷ vs) =
      log_all
        (append_request_to_log site.encode_line v.write_fails site.data_dir log
          (logged_info site trust v))
        vs

  pub log_all-append :
      (log : Option Text) (vs : List Visit) (v : Visit)
      → log_all log (vs ++ v ∷ []) ≡ log_all (log_all log vs) (v ∷ [])
  log_all-append log [] v = refl
  log_all-append log (u ∷ vs) v =
      log_all-append
        (append_request_to_log site.encode_line u.write_fails site.data_dir log
          (logged_info site trust u))
        vs v

  pub logged-in_files :
      site.use_files ≡ true
      → (now : Stats) (l : Option Text) (i : ℕ) (v : Visit)
      → logged site v (in_files now trust l i) ≡ in_files now trust (log_all l (v ∷ [])) i
  unfolding logged
  logged-in_files files now l i v = rw (files, logged) refl

  pub recorded-in_files :
      (now : Stats) (l : Option Text) (i : ℕ) (v : Visit)
      → recorded site trust v (in_files now trust l i)
        ≡ in_files (Memory.record_request now (recorded_info site trust v)) trust l i
  unfolding record_request
  recorded-in_files now l i v = refl

  -- Whether the handler of a page begins.
  abbrev pub enters : Visit → Bool → Bool
  enters v allowed = allowed && asks_page site trust v.request

  -- The visits of pages that the limiter let through.
  abbrev pub entered : List (Visit × Bool) → List Visit
  entered [] = []
  entered ((v, allowed) ∷ came) =
      let rest = entered came in if enters v allowed then v ∷ rest else rest

  pub entered-append :
      (came : List (Visit × Bool)) (v : Visit) (allowed : Bool)
      → entered (came ++ (v, allowed) ∷ [])
        ≡ entered came ++ (if enters v allowed then v ∷ [] else [])
  entered-append [] v allowed = refl
  entered-append ((u, b) ∷ came) v allowed = elim (Bool-cases (enters u b)) [
    | inl e ↦ rw e (ap (◌∷◌ u) (entered-append came v allowed))
    | inr e ↦ rw e (entered-append came v allowed)
  ]
