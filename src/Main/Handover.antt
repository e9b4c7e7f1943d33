-- ===== src/Main/Handover.antt =====
-- main.go and internal/stats/migration.go: from the log of the file mode to the database.
use gospidertrap.Common.{
  ◌<◌, ◌≡◌, refl, ap, ◌∙◌, true, false, Option, some, List, [], ◌∷◌, ◌++◌, arith, Text, codes,
  text_eq, leb, if◌then◌else◌, length, append_assoc, append-nil, Lacks,
}
use gospidertrap.Strings.{split}
use gospidertrap.Strings.Cut.{split_first}
use gospidertrap.Strings.Lines.{scan_lines, scan_pieces, drop_cr, max_token_size}
use gospidertrap.Stats.{RequestInfo}
use gospidertrap.Stats.Database.{Engine, Tables}
use gospidertrap.Stats.Database.Accepted.{accepts}
use gospidertrap.Stats.Migration.{Decoder, Environment, migrate_requests}
use gospidertrap.Stats.Migration.Import.{
  IsCalm, importable, all_importable, with_requests, with_requests-log, migrate_requests_calm,
}
use gospidertrap.Main.RequestLog.{append_request_to_log, append_all}

-- The request is written as one line that the scanner can hold and that is read back.
pub record IsLogged (encode : RequestInfo → Option Text) (decoder : Decoder) (req : RequestInfo)
    : Type 0 where
  pub line : Text
  pub written : encode req ≡ some line
  pub one_line : Lacks 10 line
  pub no_cr : drop_cr line ≡ line
  pub short : length line < max_token_size
  pub read : decoder.request line ≡ some req

regroup : (log line rest : Text) → (log ++ line ++ codes "\n") ++ rest ≡ log ++ (line ++ 10 ∷ rest)
regroup log line rest = simp append_assoc

module _ (encode : RequestInfo → Option Text) (decoder : Decoder) (data_dir : Text) where
  abbrev pub AllLogged : List RequestInfo → Type 0
  AllLogged [] = Unit
  AllLogged (req ∷ reqs) = IsLogged encode decoder req × AllLogged reqs

  abbrev lines_of : (reqs : List RequestInfo) → AllLogged reqs → List Text
  lines_of [] h = []
  lines_of (req ∷ reqs) (l, h) = l.line ∷ lines_of reqs h

  abbrev content_of : List Text → Text
  content_of [] = []
  content_of (line ∷ lines) = line ++ 10 ∷ content_of lines

  append_all_content :
      (log : Text) (reqs : List RequestInfo) (h : AllLogged reqs)
      → text_eq data_dir [] ≡ false
      → append_all encode data_dir (some log) reqs ≡ some (log ++ content_of (lines_of reqs h))
  unfolding append_all append_request_to_log
  append_all_content log [] h set = rw append-nil refl
  append_all_content log (req ∷ reqs) (l, h) set =
      rw (set, l.written, append_request_to_log)
        (append_all_content (log ++ l.line ++ codes "\n") reqs h set
          ∙ ap some (regroup log l.line (content_of (lines_of reqs h))))

  split_content :
      (reqs : List RequestInfo) (h : AllLogged reqs)
      → split (content_of (lines_of reqs h)) 10 ≡ lines_of reqs h ++ ([] ∷ [])
  split_content [] h = unfold split in refl
  split_content (req ∷ reqs) (l, h) =
      split_first 10 l.line (content_of (lines_of reqs h)) l.one_line
      ∙ ap (◌∷◌ l.line) (split_content reqs h)

  scan_logged :
      (reqs : List RequestInfo) (h : AllLogged reqs)
      → scan_pieces (lines_of reqs h ++ ([] ∷ [])) ≡ (lines_of reqs h, true)
  unfolding scan_pieces
  scan_logged [] h = unfold text_eq in refl
  scan_logged (req ∷ []) (l, h) =
      let fits : leb max_token_size (length l.line) ≡ false = ground (arith, l.short) in
      rw (fits, l.no_cr) (unfold text_eq in refl)
  scan_logged (req ∷ req' ∷ reqs) (l, h) =
      let fits : leb max_token_size (length l.line) ≡ false = ground (arith, l.short) in
      rw (scan_logged (req' ∷ reqs) h, fits, l.no_cr) refl

  scan_content :
      (reqs : List RequestInfo) (h : AllLogged reqs)
      → scan_lines (content_of (lines_of reqs h)) ≡ (lines_of reqs h, true)
  unfolding scan_lines
  scan_content reqs h = rw (split_content reqs h) (scan_logged reqs h)

  module _ (engine : Engine) where
    abbrev pub accepted : List RequestInfo → List RequestInfo
    accepted [] = []
    accepted (req ∷ reqs) = (if accepts engine req then req ∷ [] else []) ++ accepted reqs

    importable_logged :
        (reqs : List RequestInfo) (h : AllLogged reqs)
        → all_importable engine decoder (lines_of reqs h) ≡ accepted reqs
    importable_logged [] h = refl
    importable_logged (req ∷ reqs) (l, h) = rw (l.read, importable_logged reqs h, importable) refl

    -- Requests that are logged in file mode, each in a line that the scanner can hold and that is read
    -- back, are imported by a migration that nothing disturbs: the log of the database grows by those
    -- that the tables accept, in the order in which they came.
    pub logged_requests_migrate :
        (env : Environment) (reqs : List RequestInfo) (t : Tables)
        → IsCalm env
        → AllLogged reqs
        → text_eq data_dir [] ≡ false
        → (content : Text) × (after : Tables) × (append_all encode data_dir (some []) reqs
            ≡ some content)
          × (migrate_requests engine decoder env content t ≡ (false, after))
          × (after.request_log ≡ t.request_log ++ accepted reqs)
    logged_requests_migrate env reqs t calm h set =
        let content = content_of (lines_of reqs h) in
        (
          content,
          with_requests engine decoder (accepted reqs) t,
          append_all_content [] reqs h set,
          migrate_requests_calm engine decoder env calm content t
              ∙ rw (scan_content reqs h, importable_logged reqs h) refl,
          with_requests-log engine decoder (accepted reqs) t,
        )
