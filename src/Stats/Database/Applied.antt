-- ===== src/Stats/Database/Applied.antt =====
-- internal/stats/database.go: the tables after a request that no failing call disturbs.
use gospidertrap.Common.{ℕ, ◌≡◌, true, false, [], ◌∷◌, ◌++◌, arith}
use gospidertrap.Stats.{RequestInfo}
use gospidertrap.Stats.Table.{lookup, insert}
use gospidertrap.Stats.Database.{
  Tables, Engine, Faults, seen, insert_log, upsert, upsert_ip, upsert_user_agent, incremented,
  increment_total, transaction, record_request,
}
use gospidertrap.Stats.Database.Accepted.{accepts}

-- The tables with one more request.
unfoldable pub with_request : RequestInfo → Tables → Tables
with_request req t = record {
  stats = incremented t.stats;
  ip_counts = insert req.ip (seen req.timestamp (lookup req.ip t.ip_counts)) t.ip_counts;
  user_agent_counts =
      insert req.user_agent (seen req.timestamp (lookup req.user_agent t.user_agent_counts))
        t.user_agent_counts;
  request_log = t.request_log ++ (req ∷ []);
}

module _ (engine : Engine) (fails : Faults) (h : (n : ℕ) → fails n ≡ false) where
  pub record_request_accepted :
      (req : RequestInfo) (t : Tables)
      → accepts engine req ≡ true
      → record_request engine fails req t ≡ (false, with_request req t)
  unfolding record_request transaction insert_log upsert_ip upsert_user_agent upsert increment_total
      with_request
  record_request_accepted req t a = rw (h 0, h 1, h 2, h 3, h 4, h 5) (ground (arith, a))

  pub record_request_refused :
      (req : RequestInfo) (t : Tables)
      → accepts engine req ≡ false
      → record_request engine fails req t ≡ (true, t)
  unfolding record_request transaction insert_log upsert_ip upsert_user_agent upsert
  record_request_refused req t a = rw (h 0, h 1, h 2, h 3, h 4, h 5) (ground (arith, a))
