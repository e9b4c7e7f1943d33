-- ===== src/Stats/Migration/Import.antt =====
-- internal/stats/migration.go: which requests of a file reach the database.
use gospidertrap.Common.{
  ℕ, suc, ◌%◌, ◌≡◌, refl, sym, ap, ◌∙◌, Bool, true, false, not, ◌&&◌, none, some, List, [], ◌∷◌,
  ◌++◌, Text, ◌==◌, if◌then◌else◌, append_assoc, append-nil, Bool-cases, Option-cases, inl, inr,
}
use gospidertrap.Strings.Lines.{scan_lines}
use gospidertrap.Stats.{RequestInfo}
use gospidertrap.Stats.Database.{Tables, Engine}
use gospidertrap.Stats.Database.Accepted.{accepts}
use gospidertrap.Stats.Database.Applied.{
  with_request, record_request_accepted, record_request_refused,
}
use gospidertrap.Stats.Migration.{
  Decoder, Environment, faults_in, import_line, import_lines, migrate_requests,
}

-- Nothing fails, and the context stays alive.
pub record IsCalm (env : Environment) : Type 0 where
  pub good_path : env.bad_path ≡ false
  pub read : env.read_fails ≡ false
  pub alive : (n : ℕ) → env.done_at n ≡ false
  pub quiet : (n call : ℕ) → env.faults_at n call ≡ false

if_never : {A : Type 0} (b c : Bool) (x y : A) → c ≡ false → (if b && c then x else y) ≡ y
if_never true c x y h = rw h refl
if_never false c x y h = refl

module _ (engine : Engine) (decoder : Decoder) where
  -- The request of a line, if it can be read and the tables accept it.
  abbrev pub importable : Text → List RequestInfo
  importable input = elim (decoder.request input) [
    | none ↦ []
    | some req ↦ if accepts engine req then req ∷ [] else []
  ]

  abbrev pub all_importable : List Text → List RequestInfo
  all_importable [] = []
  all_importable (input ∷ inputs) = importable input ++ all_importable inputs

  abbrev pub with_requests : List RequestInfo → Tables → Tables
  with_requests [] t = t
  with_requests (req ∷ reqs) t = with_requests reqs (with_request req t)

  with_requests-append :
      (xs ys : List RequestInfo) (t : Tables)
      → with_requests (xs ++ ys) t ≡ with_requests ys (with_requests xs t)
  with_requests-append [] ys t = refl
  with_requests-append (x ∷ xs) ys t = with_requests-append xs ys (with_request x t)

  pub with_requests-log :
      (reqs : List RequestInfo) (t : Tables)
      → (with_requests reqs t).request_log ≡ t.request_log ++ reqs
  unfolding with_request
  with_requests-log [] t = rw append-nil
  with_requests-log (req ∷ reqs) t =
      with_requests-log reqs (with_request req t) ∙ append_assoc t.request_log (req ∷ []) reqs

  module _ (env : Environment) (calm : IsCalm env) where
    no_faults : (line n : ℕ) → faults_in env line n ≡ false
    no_faults line n = rw (calm.alive line) (calm.quiet line n)

    import_line_calm :
        (line : ℕ) (input : Text) (count : ℕ) (t : Tables)
        → (import_line engine decoder env line input count t).1 ≡ with_requests (importable input) t
    unfolding import_line
    import_line_calm line input count t = elim (Option-cases (decoder.request input)) [
      | inl e ↦ rw (e, import_line, importable) refl
      | inr (req, e) ↦ elim (Bool-cases (accepts engine req)) [
        | inl a ↦
            rw
              (
                e,
                a,
                record_request_accepted engine (faults_in env line) (no_faults line) req t a,
                import_line,
                importable,
              )
              refl
        | inr a ↦
            rw
              (
                e,
                a,
                record_request_refused engine (faults_in env line) (no_faults line) req t a,
                import_line,
                importable,
              )
              refl
      ]
    ]

    import_lines_calm :
        (line : ℕ) (inputs : List Text) (count : ℕ) (t : Tables)
        → import_lines engine decoder env line inputs count t
          ≡ (false, with_requests (all_importable inputs) t)
    unfolding import_lines
    import_lines_calm line [] count t = refl
    import_lines_calm line (input ∷ inputs) count t =
        let (count', t') = import_line engine decoder env line input count t in
        if_never (count % 100 == 0) (env.done_at line) _ _ (calm.alive line)
        ∙ import_lines_calm (suc line) inputs count' t'
        ∙ ap (λ u. (false, with_requests (all_importable inputs) u))
            (import_line_calm line input count t)
        ∙ ap (λ u. (false, u))
            (sym (with_requests-append (importable input) (all_importable inputs) t))

    -- If nothing fails, the import of a file adds the requests of the lines that it can read and the
    -- tables accept, in their order, and reports an error exactly if a line is too long; the lines
    -- before it are imported all the same. So a second run, with the file still there, adds them
    -- again.
    pub migrate_requests_calm :
        (content : Text) (t : Tables)
        → migrate_requests engine decoder env content t
          ≡ (not (scan_lines content).1, with_requests (all_importable (scan_lines content).0) t)
    unfolding migrate_requests
    migrate_requests_calm content t =
        rw
          (
            import_lines_calm 0 (scan_lines content).0 0 t,
            calm.good_path,
            calm.read,
            migrate_requests,
          )
          refl
