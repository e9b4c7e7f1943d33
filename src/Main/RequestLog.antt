-- ===== src/Main/RequestLog.antt =====
-- main.go: `appendRequestToLog`, the log of the requests in file mode.
use gospidertrap.Common.{
  Bool, false, Option, none, some, List, [], ◌∷◌, ◌++◌, Text, codes, text_eq, if◌then◌else◌,
}
use gospidertrap.Stats.{RequestInfo}

-- The new content of the log file, if it is open. `encode` is `Encode` of encoding/json without the
-- newline that it appends; a write that fails is taken to write nothing.
unfoldable pub append_request_to_log :
    (RequestInfo → Option Text) → Bool → Text → Option Text → RequestInfo → Option Text
append_request_to_log encode write_fails data_dir none req = none
append_request_to_log encode write_fails data_dir (some log) req =
    if text_eq data_dir [] then some log else elim (encode req) [
      | none ↦ some log
      | some line ↦ if write_fails then some log else some (log ++ line ++ codes "\n")
    ]

-- `closeLogFile`: what is appended afterwards is dropped.
abbrev pub close_log_file : Option Text → Option Text
close_log_file log = none

-- One request after another.
unfoldable pub append_all :
    (RequestInfo → Option Text) → Text → Option Text → List RequestInfo → Option Text
append_all encode data_dir log [] = log
append_all encode data_dir log (req ∷ reqs) =
    append_all encode data_dir (append_request_to_log encode false data_dir log req) reqs
