-- ===== src/Stats/Migration/Runs.antt =====
-- internal/stats/migration.go: one run of the migration after another, and a run that is cancelled.
use gospidertrap.Common.{
  ℕ, suc, ◌%◌, ◌≡◌, ◌≤◌, refl, true, false, Option, some, List, [], ◌∷◌, arith, Text, ◌==◌,
  Option-cases, inl, inr,
}
use gospidertrap.Strings.Lines.{scan_lines}
use gospidertrap.Stats.{RequestInfo, Time}
use gospidertrap.Stats.Database.{Tables, Engine, transaction, record_request}
use gospidertrap.Stats.Migration.{Decoder, Environment, import_line, import_lines}
use gospidertrap.Stats.Migration.Import.{all_importable}

module _ (engine : Engine) (decoder : Decoder) (env : Environment) where
  -- The requests that a run imports from a file.
  abbrev pub imported : Text → List RequestInfo
  imported content = all_importable engine decoder (scan_lines content).0

  -- The start time of `stats.json`, if there is such a file, can be read.
  abbrev pub IsReadable : Option Text → Type 0
  IsReadable stats =
      (content : Text)
      → stats ≡ some content
      → (start : Time) × (decoder.start_time content ≡ some start)

  import_line_done :
      (line : ℕ) (input : Text) (count : ℕ) (t : Tables)
      → env.done_at line ≡ true
      → import_line engine decoder env line input count t ≡ (count, t)
  unfolding import_line record_request transaction
  import_line_done line input count t done = elim (Option-cases (decoder.request input)) [
    | inl e ↦ rw (e, import_line) refl
    | inr (req, e) ↦ rw (e, done, import_line) refl
  ]

  -- When the context is done at a time when the number of imported requests is no multiple of 100, no
  -- further line is imported, and no error is reported.
  pub cancelled_import_forgets :
      (line : ℕ) (inputs : List Text) (count : ℕ) (t : Tables)
      → (count % 100 == 0) ≡ false
      → ((n : ℕ) → line ≤ n → env.done_at n ≡ true)
      → import_lines engine decoder env line inputs count t ≡ (false, t)
  unfolding import_lines
  cancelled_import_forgets line [] count t odd done = refl
  cancelled_import_forgets line (input ∷ inputs) count t odd done =
      rw (odd, import_line_done line input count t (done line (omega arith)))
        (cancelled_import_forgets (suc line) inputs count t odd (λ n h. done n (omega (arith, h))))
