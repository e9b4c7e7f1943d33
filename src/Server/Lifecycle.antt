-- ===== src/Server/Lifecycle.antt =====
-- internal/server/server.go: a server from `New` to the end of `GracefulShutdown`. What
-- `http.Server` does is an event with its outcome.
mod Tests
use gospidertrap.Common.{◌≡◌, Option, none, some, ◌++◌, Text, codes}
use gospidertrap.Common.Int.{ℤ}
use gospidertrap.Server.{Config}

-- The fields of `http.Server` that `New` sets, and its handler.
pub record HttpServer (H : Type 0) : Type 0 where
  pub addr : Text
  pub read_timeout : ℤ
  pub write_timeout : ℤ
  pub idle_timeout : ℤ
  pub max_header_bytes : ℤ
  pub handler : Option H

unfoldable pub new_server : {H : Type 0} → Config → HttpServer H
new_server c = record {
  addr = codes ":" ++ c.port;
  read_timeout = c.read_timeout;
  write_timeout = c.write_timeout;
  idle_timeout = c.idle_timeout;
  max_header_bytes = c.max_header_bytes;
  handler = none;
}

unfoldable pub register_handler : {H : Type 0} → H → HttpServer H → HttpServer H
register_handler handler s = record s { handler = some handler }

-- How `ListenAndServe` returns: with `ErrServerClosed`, or with another error.
pub data ListenEnd : Type 0 where
  server_closed : ListenEnd
  listen_error : Text → ListenEnd

-- The error that `Start` returns, or `none`.
unfoldable pub start : ListenEnd → Option Text
start server_closed = none
start (listen_error e) = some e

-- The error that `Shutdown` returns, by that of `http.Server`.
unfoldable pub shutdown : Option Text → Option Text
shutdown none = none
shutdown (some e) = some e

-- Where the goroutine of `GracefulShutdown`'s caller is: it waits for a signal, is in the cleanup, is
-- behind it and shuts the server down, or has returned; `exited` is `os.Exit(1)`.
pub data Phase : Type 0 where
  waiting : Phase
  cleaning : Phase
  shutting : Phase
  returned : Phase
  exited : Phase

-- `World` is what the requests and the cleanup change: `cleanup` are the steps of the cleanup, if there
-- is one, and `Handles` those of the requests.
module _ {World : Type 0} (cleanup : Option (World → World → Type 0))
    (Handles : World → World → Type 0) where
  pub record Process : Type 0 where
    pub phase : Phase
    pub world : World

  -- A step of the cleanup. If it is nil, there is nothing to do.
  abbrev pub Cleans : World → World → Type 0
  Cleans w w' = elim cleanup [ none ↦ ⊥ | some f ↦ f w w' ]

  -- A request is handled until the server is shut down, also while the cleanup runs and behind it: `Shutdown` waits for
  -- those under way.
  pub data Step : Process → Process → Type 0 where
    request_waiting :
        {w w' : World}
        → Handles w w'
        → Step (record { phase = waiting; world = w }) (record { phase = waiting; world = w' })
    request_cleaning :
        {w w' : World}
        → Handles w w'
        → Step (record { phase = cleaning; world = w }) (record { phase = cleaning; world = w' })
    request_shutting :
        {w w' : World}
        → Handles w w'
        → Step (record { phase = shutting; world = w }) (record { phase = shutting; world = w' })
    signalled :
        {w : World}
        → Step (record { phase = waiting; world = w }) (record { phase = cleaning; world = w })
    cleans :
        {w w' : World}
        → Cleans w w'
        → Step (record { phase = cleaning; world = w }) (record { phase = cleaning; world = w' })
    cleaned :
        {w : World}
        → Step (record { phase = cleaning; world = w }) (record { phase = shutting; world = w })
    start_fails_waiting :
        {w : World} (e : ListenEnd) (text : Text)
        → start e ≡ some text
        → Step (record { phase = waiting; world = w }) (record { phase = exited; world = w })
    start_fails_cleaning :
        {w : World} (e : ListenEnd) (text : Text)
        → start e ≡ some text
        → Step (record { phase = cleaning; world = w }) (record { phase = exited; world = w })
    start_fails_shutting :
        {w : World} (e : ListenEnd) (text : Text)
        → start e ≡ some text
        → Step (record { phase = shutting; world = w }) (record { phase = exited; world = w })
    shutdown_succeeds :
        {w : World} (e : Option Text)
        → shutdown e ≡ none
        → Step (record { phase = shutting; world = w }) (record { phase = returned; world = w })
    shutdown_fails :
        {w : World} (e : Option Text) (text : Text)
        → shutdown e ≡ some text
        → Step (record { phase = shutting; world = w }) (record { phase = exited; world = w })

  -- A run of `GracefulShutdown` that begins with the given world.
  pub data Run (w : World) : Process → Type 0 where
    begun : Run w (record { phase = waiting; world = w })
    went_on : {p q : Process} → Run w p → Step p q → Run w q
