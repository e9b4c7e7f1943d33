-- ===== src/Stats/Database/Accepted.antt =====
-- internal/stats/database.go: which requests the checks of the tables let through.
use gospidertrap.Common.{ℕ, ◌≡◌, Bool, false, not, ◌&&◌, arith, leb}
use gospidertrap.Stats.{RequestInfo}
use gospidertrap.Stats.Database.{
  Tables, Engine, Faults, is_key, insert_log, upsert, upsert_ip, upsert_user_agent, transaction,
  record_request,
}

-- An address of 1 to 45 characters, a user agent of 1 to 512 and a path of at most 2048.
abbrev pub accepts : Engine → RequestInfo → Bool
accepts engine req =
    is_key engine 45 req.ip
    && is_key engine 512 req.user_agent
    && leb (engine.text_length req.path) 2048

-- If no call of the driver fails, `RecordRequest` returns an error exactly for the requests that have an
-- address, a user agent or a path of a length that is not accepted.
pub record_request_error :
    (engine : Engine) (fails : Faults) (req : RequestInfo) (t : Tables)
    → ((n : ℕ) → fails n ≡ false)
    → (record_request engine fails req t).0 ≡ not (accepts engine req)
unfolding record_request transaction insert_log upsert_ip upsert_user_agent upsert
record_request_error engine fails req t h = rw (h 0, h 1, h 2, h 3, h 4, h 5) (ground arith)
