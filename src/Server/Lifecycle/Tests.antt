-- ===== src/Server/Lifecycle/Tests.antt =====
-- Tests of the server's life.
use gospidertrap.Common.{ℕ, suc, ◌≡◌, refl, none, some, codes}
use gospidertrap.Common.Int.{pos}
use gospidertrap.Server.{Config}
use gospidertrap.Server.Lifecycle.{
  new_server, register_handler, returned, Process, request_cleaning, request_shutting, signalled,
  cleans, cleaned, shutdown, shutdown_succeeds, Run, begun, went_on,
}

abbrev config : Config
config = record {
  port = codes "8000";
  read_timeout = pos 15000000000;
  write_timeout = pos 15000000000;
  idle_timeout = pos 60000000000;
  max_header_bytes = pos 1048576;
}

new_server_addr : (register_handler {H = ℕ} 3 (new_server config)).addr ≡ codes ":8000"
unfolding register_handler new_server
new_server_addr = refl

-- Requests and the cleanup count up.
abbrev IsNext : ℕ → ℕ → Type 0
IsNext n m = m ≡ suc n

abbrev ended : Process (some IsNext) IsNext
ended = record { phase = returned; world = 4 }

-- A request is handled within the cleanup, and one behind it.
Run-ended : Run (some IsNext) IsNext 0 ended
Run-ended =
    went_on
      (went_on
        (went_on
          (went_on
            (went_on (went_on (went_on begun signalled) (cleans refl)) (request_cleaning refl))
            (cleans refl))
          cleaned)
        (request_shutting refl))
      (shutdown_succeeds none (unfold shutdown in refl))
