-- ===== src/Stats/Database/Tests.antt =====
-- Tests of the database.
use gospidertrap.Common.{◌≡◌, refl, false, true, some, List, [], ◌∷◌, Text, codes, length, ◌==◌}
use gospidertrap.Stats.{RequestInfo}
use gospidertrap.Stats.Table.{lookup, insert}
use gospidertrap.Stats.Database.{
  Tables, Engine, Faults, no_tables, new_database, record_request, transaction, insert_log, upsert,
  upsert_ip, upsert_user_agent,
}
use gospidertrap.Stats.Database.Consistent.{
  IsConsistent, Step, recorded, restarted, apply_steps, database-IsConsistent,
}

-- An engine that counts bytes; the order is of no concern here.
abbrev bytes_engine : Engine
bytes_engine = record { text_length = length; order_desc = λ key l. l }

abbrev no_fault : Faults
no_fault n = false

-- The fourth call fails.
abbrev third_fault : Faults
third_fault n = n == 3

abbrev visit : Text → RequestInfo
visit ip = record { ip = ip; user_agent = codes "curl"; path = codes "/a"; timestamp = 9 }

abbrev started : Tables
started = record no_tables { stats = some (record { start_time = 5; total_requests = 0 }) }

rolled_back :
    record_request bytes_engine third_fault (visit (codes "10.0.0.1")) started ≡ (true, started)
unfolding record_request transaction insert_log upsert_ip upsert_user_agent upsert insert lookup
rolled_back = refl

abbrev story : List Step
story =
    recorded no_fault (visit (codes "10.0.0.1"))
    ∷ recorded third_fault (visit (codes "10.0.0.2"))
    ∷ restarted no_fault 20
    ∷ recorded no_fault (visit (codes "10.0.0.1"))
    ∷ []

database-IsConsistent_example : IsConsistent (apply_steps bytes_engine story started)
database-IsConsistent_example =
    database-IsConsistent bytes_engine no_fault 5 story started (unfold new_database in refl)
