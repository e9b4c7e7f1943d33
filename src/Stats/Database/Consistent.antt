-- ===== src/Stats/Database/Consistent.antt =====
-- internal/stats/database.go: the tables against the log, whichever calls fail.
use gospidertrap.Common.{
  ℕ, ◌+◌, ◌≡◌, ◌∙◌, ap, refl, sym, Bool, true, false, Option, none, some, List, [], ◌∷◌, ◌++◌, map,
  arith, Text, text_eq, text_eq_iff, if◌then◌else◌, length, length-append, Bool-cases, inl, inr,
}
use gospidertrap.Stats.{RequestInfo, Time}
use gospidertrap.Stats.Table.{lookup, insert, lookup-insert, occurrences}
use gospidertrap.Stats.Database.{
  CountRow, StatsRow, seen, initial_row, committed, Tables, Engine, Faults, no_tables, exec, then?,
  new_database, upsert, upsert_ip, upsert_user_agent, insert_log, increment_total, transaction,
  record_request,
}

abbrev row_count : Option CountRow → ℕ
row_count none = 0
row_count (some row) = row.count

-- The count of a key, 0 without a row.
abbrev pub count_of : Text → List (Text × CountRow) → ℕ
count_of key rows = row_count (lookup key rows)

abbrev pub ip_of : RequestInfo → Text
ip_of req = req.ip

abbrev pub agent_of : RequestInfo → Text
agent_of req = req.user_agent

-- The table has the number of requests in the log for each key.
abbrev pub Counts : (RequestInfo → Text) → List RequestInfo → List (Text × CountRow) → Type 0
Counts field log rows = (key : Text) → count_of key rows ≡ occurrences key (map field log)

-- The total and both tables of counts agree with the log.
abbrev pub IsConsistent : Tables → Type 0
IsConsistent t =
    (row : StatsRow) × (t.stats ≡ some row)
    × (row.total_requests ≡ length t.request_log)
    × Counts ip_of t.request_log t.ip_counts
    × Counts agent_of t.request_log t.user_agent_counts

after_call :
    {A B : Type 0} (fails : Bool) (x : A) (f : A → Option B) {z : B}
    → then? (exec fails (some x)) f ≡ some z
    → f x ≡ some z
after_call true x f h = absurd (ground arith)
after_call false x f h = h

after_check :
    {A B : Type 0} (fails c : Bool) (x : A) (f : A → Option B) {z : B}
    → then? (exec fails (if c then some x else none)) f ≡ some z
    → f x ≡ some z
after_check true c x f h = absurd (ground arith)
after_check false true x f h = h
after_check false false x f h = absurd (ground arith)

after_update :
    {A B C : Type 0} (fails : Bool) (u : Option A) (g : A → B) (f : B → Option C) {z : C}
    → then? (exec fails (then? u (λ x. some (g x)))) f ≡ some z
    → (x : A) × (u ≡ some x) × (f (g x) ≡ some z)
after_update true u g f h = absurd (ground arith)
after_update false none g f h = absurd (ground arith)
after_update false (some x) g f h = (x, refl, h)

after_commit : {A : Type 0} (fails : Bool) (x : A) {z : A} → exec fails (some x) ≡ some z → x ≡ z
after_commit true x h = absurd (ground arith)
after_commit false x h = ground arith

occurrences_end :
    (key : Text) (field : RequestInfo → Text) (log : List RequestInfo) (req : RequestInfo)
    → occurrences key (map field (log ++ (req ∷ [])))
      ≡ occurrences key (map field log) + (if text_eq (field req) key then 1 else 0)
occurrences_end key field [] req = ground arith
occurrences_end key field (r ∷ log) req = ground (arith, occurrences_end key field log req)

if_some : {A : Type 0} (b : Bool) (x : A) {y : A} → (if b then some x else none) ≡ some y → x ≡ y
if_some true x h = ground arith
if_some false x h = absurd (ground arith)

count_seen : (now : Time) (o : Option CountRow) → (seen now o).count ≡ row_count o + 1
count_seen now none = omega arith
count_seen now (some row) = omega arith

count_of-insert :
    (key other : Text) (now : Time) (rows : List (Text × CountRow))
    → count_of other (insert key (seen now (lookup key rows)) rows)
      ≡ count_of other rows + (if text_eq key other then 1 else 0)
count_of-insert key other now rows =
    ap row_count (lookup-insert key other (seen now (lookup key rows)) rows)
    ∙ elim (Bool-cases (text_eq key other)) [
      | inl e ↦ rw e (
          count_seen now (lookup key rows)
          ∙ ap (λ k. count_of k rows + 1) ((text_eq_iff key other).0 e))
      | inr e ↦ rw e (omega arith)
    ]

committed-IsConsistent :
    (o : Option Tables) (t : Tables)
    → ((after : Tables) → o ≡ some after → IsConsistent after)
    → IsConsistent t
    → IsConsistent (committed o t).1
committed-IsConsistent none t h old = old
committed-IsConsistent (some after) t h old = h after refl

module _ (engine : Engine) where
  -- A table that has the numbers of the log keeps them when its key and the log grow together.
  upsert-Counts :
      (limit : ℕ) (field : RequestInfo → Text) (req : RequestInfo) (log : List RequestInfo)
      (rows : List (Text × CountRow)) {after : List (Text × CountRow)}
      → upsert engine limit (field req) req.timestamp rows ≡ some after
      → Counts field log rows
      → Counts field (log ++ (req ∷ [])) after
  unfolding upsert
  upsert-Counts limit field req log rows h counts key =
      rw (← if_some _ _ h, occurrences_end key field log req, ← counts key)
        (count_of-insert (field req) key req.timestamp rows)

  -- The tables after a transaction that was committed.
  transaction_rows :
      (fails : Faults) (req : RequestInfo) (t : Tables) {after : Tables}
      → transaction engine fails req t ≡ some after
      → (ips agents : List (Text × CountRow)) × (upsert engine 45 req.ip req.timestamp t.ip_counts
          ≡ some ips)
        × (upsert engine 512 req.user_agent req.timestamp t.user_agent_counts ≡ some agents)
        × (after ≡ record (increment_total engine t) {
          ip_counts = ips;
          user_agent_counts = agents;
          request_log = t.request_log ++ (req ∷ []);
        })
  unfolding transaction insert_log upsert_ip upsert_user_agent increment_total
  transaction_rows fails req t h =
      let logged = after_check (fails 1) _ _ _ (after_call (fails 0) t _ h) in
      let (ips, ip_done, counted) = after_update (fails 2) _ _ _ logged in
      let (agents, agent_done, agent_counted) = after_update (fails 3) _ _ _ counted in
      (
        ips,
        agents,
        ip_done,
        agent_done,
        sym (after_commit (fails 5) _ (after_call (fails 4) _ _ agent_counted)),
      )

  transaction-IsConsistent :
      (fails : Faults) (req : RequestInfo) (t : Tables) {after : Tables}
      → transaction engine fails req t ≡ some after
      → IsConsistent t
      → IsConsistent after
  unfolding increment_total
  transaction-IsConsistent fails req t h (row, is_row, total, ips, agents) =
      let (ips', agents', ip_done, agent_done, after_is) = transaction_rows fails req t h in
      rw after_is (
        record row { total_requests = row.total_requests + 1 },
        rw is_row refl,
        omega (arith, total, length-append t.request_log (req ∷ [])),
        upsert-Counts 45 ip_of req t.request_log t.ip_counts ip_done ips,
        upsert-Counts 512 agent_of req t.request_log t.user_agent_counts agent_done agents,
      )

  record_request-IsConsistent :
      (fails : Faults) (req : RequestInfo) (t : Tables)
      → IsConsistent t
      → IsConsistent (record_request engine fails req t).1
  unfolding record_request
  record_request-IsConsistent fails req t h =
      committed-IsConsistent (transaction engine fails req t) t
        (λ after e. transaction-IsConsistent fails req t e h) h

new_database_tables :
    (fails : Faults) (now : Time) (t : Tables) {after : Tables}
    → new_database fails now t ≡ some after
    → record t { stats = some (initial_row t.stats now) } ≡ after
unfolding new_database
new_database_tables fails now t h = after_commit (fails 5) _ (
    after_call (fails 4) _ _ (
      after_call (fails 3) _ _
        (after_call (fails 2) _ _ (after_call (fails 1) _ _ (after_call (fails 0) t _ h)))))

reopened-IsConsistent :
    (fails : Faults) (now : Time) (t : Tables) {after : Tables}
    → new_database fails now t ≡ some after
    → IsConsistent t
    → IsConsistent after
reopened-IsConsistent fails now t h (row, is_row, total, ips, agents) =
    rw (← new_database_tables fails now t h) (row, rw is_row refl, total, ips, agents)

-- What happens to a database: a request is recorded, or the server starts again with it.
pub data Step : Type 0 where
  recorded : Faults → RequestInfo → Step
  restarted : Faults → Time → Step

-- An error of `NewDatabase` leaves the rows as they were.
abbrev pub apply_step : Engine → Step → Tables → Tables
apply_step engine (recorded fails req) t = (record_request engine fails req t).1
apply_step engine (restarted fails now) t = (committed (new_database fails now t) t).1

abbrev pub apply_steps : Engine → List Step → Tables → Tables
apply_steps engine [] t = t
apply_steps engine (e ∷ es) t = apply_steps engine es (apply_step engine e t)

apply_step-IsConsistent :
    (engine : Engine) (e : Step) (t : Tables)
    → IsConsistent t
    → IsConsistent (apply_step engine e t)
apply_step-IsConsistent engine (recorded fails req) t h =
    record_request-IsConsistent engine fails req t h
apply_step-IsConsistent engine (restarted fails now) t h =
    committed-IsConsistent (new_database fails now t) t
      (λ after e. reopened-IsConsistent fails now t e h) h

apply_steps-IsConsistent :
    (engine : Engine) (es : List Step) (t : Tables)
    → IsConsistent t
    → IsConsistent (apply_steps engine es t)
apply_steps-IsConsistent engine [] t h = h
apply_steps-IsConsistent engine (e ∷ es) t h =
    apply_steps-IsConsistent engine es (apply_step engine e t)
      (apply_step-IsConsistent engine e t h)

-- From a new database on, whatever requests are recorded, however often the server starts again, and
-- whichever calls of the driver fail, a failed commit leaving the tables as they were: the total is
-- the number of rows in the log, and the counts of each address and each user agent are the numbers
-- of its rows in the log.
pub database-IsConsistent :
    (engine : Engine) (fails : Faults) (now : Time) (es : List Step) (t : Tables)
    → new_database fails now no_tables ≡ some t
    → IsConsistent (apply_steps engine es t)
database-IsConsistent engine fails now es t h = apply_steps-IsConsistent engine es t (
    rw (← new_database_tables fails now no_tables h) (
      record { start_time = now; total_requests = 0 },
      refl,
      refl,
      λ key. unfold lookup in refl,
      λ key. unfold lookup in refl,
    ))
