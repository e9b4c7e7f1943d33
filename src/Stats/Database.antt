-- ===== src/Stats/Database.antt =====
-- internal/stats/database.go: the statistics in a database. The tables are lists of rows; the
-- engine of SQLite and its driver are parameters.
pub mod Consistent
pub mod Accepted
pub mod Applied
pub mod Ordered
mod Tests
use gospidertrap.Common.{
  ℕ, zero, suc, ◌+◌, Bool, true, false, ◌&&◌, Option, none, some, List, [], ◌∷◌, ◌++◌, map, Text,
  ltb, leb, if◌then◌else◌, take,
}
use gospidertrap.Common.Int.{ℤ, pos, negsuc}
use gospidertrap.Stats.{Stats, RequestInfo, Time}
use gospidertrap.Stats.Table.{Counts, lookup, insert}

-- A row of `ip_counts` or `user_agent_counts`, behind its primary key.
pub record CountRow : Type 0 where
  pub count : ℕ
  pub first_seen : Time
  pub last_seen : Time

-- The row of `stats` with id 1.
pub record StatsRow : Type 0 where
  pub start_time : Time
  pub total_requests : ℕ

pub record Tables : Type 0 where
  pub stats : Option StatsRow
  pub ip_counts : List (Text × CountRow)
  pub user_agent_counts : List (Text × CountRow)
  pub request_log : List RequestInfo

-- A file that has no tables yet.
abbrev pub no_tables : Tables
no_tables = record { stats = none; ip_counts = []; user_agent_counts = []; request_log = [] }

-- What the engine does: `length(x)` of a text, and `ORDER BY key DESC`.
pub record Engine : Type 1 where
  pub text_length : Text → ℕ
  pub order_desc : {A : Type 0} → (A → ℕ) → List A → List A

-- Whether the n-th call of the driver within an operation fails, for whatever reason: the disk, a
-- lock, or a context that is done.
abbrev pub Faults : Type 0
Faults = ℕ → Bool

-- `LIMIT n`; a negative number is no limit.
abbrev pub limited : {A : Type 0} → ℤ → List A → List A
limited (pos n) l = take n l
limited (negsuc n) l = l

-- A call that fails, or a statement.
abbrev pub exec : {A : Type 0} → Bool → Option A → Option A
exec fails a = if fails then none else a

abbrev pub then? : {A B : Type 0} → Option A → (A → Option B) → Option B
then? none f = none
then? (some a) f = f a

abbrev pub initial_row : Option StatsRow → Time → StatsRow
initial_row none now = record { start_time = now; total_requests = 0 }
initial_row (some row) now = row

-- `NewDatabase`: the opening, three pragmas, the schema, which leaves tables alone that are there, and
-- the row of `stats`, which is inserted or ignored.
unfoldable pub new_database : Faults → Time → Tables → Option Tables
new_database fails now t = then? (exec (fails 0) (some t)) (λ t.
    then? (exec (fails 1) (some t)) (λ t. then? (exec (fails 2) (some t)) (λ t.
      then? (exec (fails 3) (some t)) (λ t.
        then? (exec (fails 4) (some t))
          (λ t. exec (fails 5) (some (record t { stats = some (initial_row t.stats now) })))))))

abbrev pub committed : Option Tables → Tables → Bool × Tables
committed none t = (true, t)
committed (some t') t = (false, t')

-- The row of a key after one more request.
abbrev pub seen : Time → Option CountRow → CountRow
seen now none = record { count = 1; first_seen = now; last_seen = now }
seen now (some row) = record row { count = row.count + 1; last_seen = now }

abbrev pub incremented : Option StatsRow → Option StatsRow
incremented none = none
incremented (some row) = some (record row { total_requests = row.total_requests + 1 })

-- The keys of a table with their counts.
abbrev pub count_entries : List (Text × CountRow) → Counts
count_entries [] = []
count_entries ((key, row) ∷ rows) = (key, row.count) ∷ count_entries rows

module _ (engine : Engine) where
  open engine use {text_length, order_desc}

  -- `length(x) <= n AND length(x) > 0`
  abbrev pub is_key : ℕ → Text → Bool
  is_key n x = leb (text_length x) n && ltb 0 (text_length x)

  -- The checks of `request_log`.
  unfoldable pub insert_log : RequestInfo → Tables → Option Tables
  insert_log req t =
      if is_key 45 req.ip && leb (text_length req.user_agent) 512 && leb (text_length req.path) 2048
      then some (record t { request_log = t.request_log ++ (req ∷ []) })
      else none

  -- `INSERT ... ON CONFLICT ... DO UPDATE` into a table of counts, with the check of its key.
  unfoldable pub upsert : ℕ → Text → Time → List (Text × CountRow) → Option (List (Text × CountRow))
  upsert limit key now rows =
      if is_key limit key then some (insert key (seen now (lookup key rows)) rows) else none

  unfoldable pub upsert_ip : RequestInfo → Tables → Option Tables
  upsert_ip req t =
      then? (upsert 45 req.ip req.timestamp t.ip_counts)
        (λ rows. some (record t { ip_counts = rows }))

  unfoldable pub upsert_user_agent : RequestInfo → Tables → Option Tables
  upsert_user_agent req t =
      then? (upsert 512 req.user_agent req.timestamp t.user_agent_counts)
        (λ rows. some (record t { user_agent_counts = rows }))

  -- `UPDATE stats ... WHERE id = 1`, which changes nothing if the row is missing.
  unfoldable pub increment_total : Tables → Tables
  increment_total t = record t { stats = incremented t.stats }

  -- The transaction on its own copy of the tables; `none` for an error.
  unfoldable pub transaction : Faults → RequestInfo → Tables → Option Tables
  transaction fails req t = then? (exec (fails 0) (some t)) (λ t.
      then? (exec (fails 1) (insert_log req t)) (λ t. then? (exec (fails 2) (upsert_ip req t)) (λ t.
        then? (exec (fails 3) (upsert_user_agent req t))
          (λ t. then? (exec (fails 4) (some (increment_total t))) (λ t. exec (fails 5) (some t))))))

  -- Whether an error is returned, and the tables: those of the transaction if it was committed,
  -- and those before it if it was rolled back.
  unfoldable pub record_request : Faults → RequestInfo → Tables → Bool × Tables
  record_request fails req t = committed (transaction fails req t) t

  unfoldable pub get_recent_requests : Faults → ℤ → Tables → Option (List RequestInfo)
  get_recent_requests fails limit t =
      exec (fails 0)
        (exec (fails 1) (some (limited limit (order_desc (λ req. req.timestamp) t.request_log))))

  abbrev pub top_counts : ℤ → List (Text × CountRow) → Counts
  top_counts limit rows = limited limit (order_desc (λ e. e.1) (count_entries rows))

  unfoldable pub get_top_ips : Faults → ℤ → Tables → Option Counts
  get_top_ips fails limit t = exec (fails 0) (exec (fails 1) (some (top_counts limit t.ip_counts)))

  unfoldable pub get_top_user_agents : Faults → ℤ → Tables → Option Counts
  get_top_user_agents fails limit t =
      exec (fails 0) (exec (fails 1) (some (top_counts limit t.user_agent_counts)))

  -- The loops that fill the maps from the rows.
  unfoldable pub fill_counts : List (Text × CountRow) → Counts → Counts
  fill_counts [] m = m
  fill_counts ((key, row) ∷ rows) m = fill_counts rows (insert key row.count m)

  unfoldable pub get_stats : Faults → Tables → Option Stats
  get_stats fails t = then? (exec (fails 0) t.stats) (λ row.
      then? (exec (fails 1) (exec (fails 2) (some (fill_counts t.ip_counts [])))) (λ ips.
        then? (exec (fails 3) (exec (fails 4) (some (fill_counts t.user_agent_counts [])))) (λ uas.
          then? (get_recent_requests (λ n. fails (n + 5)) (pos 100) t) (λ recent. some (record {
            start_time = row.start_time;
            total_requests = row.total_requests;
            ip_counts = ips;
            ip_counts_nil = false;
            user_agents = uas;
            user_agents_nil = false;
            recent_requests = recent;
            max_recent_requests = 100;
          })))))
