-- ===== src/Lib.antt =====
-- gospidertrap: a web server that traps crawlers in pages of random links.
--
-- The program has a request path and an admin path. A request passes the middleware
-- (internal/middleware), of which the rate limiter (internal/ratelimit) may refuse it; it is then
-- recorded (internal/stats), in memory or in a database, and answered with a page of random links
-- (internal/content, internal/random). The admin handlers (internal/admin) show the statistics to
-- whoever presents the token. main.go reads the options and files and connects the parts.
--
-- Which file models what:
--   Common, Common/*     lists, texts and Go's `int` over the native numbers
--   Strings, Strings/*   the functions of packages strings and strconv that the program uses
--   Http, Http/Writer    a request as the handlers read it, and the response writer
--   Random, Random/*     internal/random/source.go
--   Content, Content/*   internal/content/generator.go, html.go and constants.go
--   RateLimit, RateLimit/*  internal/ratelimit/limiter.go; RateLimit/Shared with its pointers and locks
--   Stats                internal/stats/types.go
--   Stats/Table, Stats/Tracking  the maps of counts that internal/stats/manager.go keeps
--   Stats/Ip, Stats/Ip/*  internal/stats/ip.go
--   Stats/Memory, Stats/Memory/*, Stats/Charts, Stats/Charts/*  internal/stats/manager.go: the
--                        statistics in memory
--   Stats/Manager, Stats/Manager/*, Stats/Reports  internal/stats/manager.go as a whole
--   Stats/Database, Stats/Database/*  internal/stats/database.go
--   Stats/Migration, Stats/Migration/*  internal/stats/migration.go
--   Serve, Serve/*       internal/handler/request.go, internal/middleware, and their order in main.go
--   Main/Routes, Main/Routes/*  the routes of main.go, and the handler of all requests
--   Main/Concurrent, Main/Concurrent/*  the same requests, handled at the same time
--   Main/Startup, Main/Startup/*  the start of main.go
--   Main/Periodic, Main/Periodic/*  the periodic saving of main.go, and its cleanup
--   Server, Server/Port  internal/server/config.go
--   Server/Lifecycle, Server/Lifecycle/*  internal/server/server.go
--   Admin/Auth, Admin/Token  internal/admin/auth.go
--   Admin/Handler, Admin/Dashboard, Admin/Cookies, Admin/Access  internal/admin/handler.go
--   Logging, Logging/*   internal/logging/handler.go
--   Ui, Ui/*             internal/ui/banner.go
--   Paths, Paths/*       package path/filepath and the checks of paths in main.go
--   Main, Main/*         the rest of main.go
--   Admin/Page, Admin/Fixed, Admin/Markup, Admin/Sections, Admin/Inert  internal/admin/renderer.go
--
-- State and operations. A struct is a record and a method a function that returns the new record;
-- a method that holds a lock is one step. A Go string is a list of its bytes. A map is an
-- association list, whose order is the order in which a `range` loop happens to visit it, so that
-- the theorems, which hold for every list, hold for every order. A `time.Time` is a number of
-- nanoseconds. Panics are values: `panic` of Random, `none` of the chart functions, and `record_panics` for
-- the write to a nil map; a nil map is an empty list with a flag.
--
-- Parameters, for code outside the repository: the device of crypto/rand (`Device`: its bytes and
-- its failures), the library golang.org/x/time/rate (`RateLibrary`), the test of `net.ParseIP`,
-- SQLite (`Engine`: the length of a text and the order of rows; `Faults`: which calls of the driver
-- fail), and the texts that encoding/json and package time make of chart data, times and durations; the
-- decoding of the files of the legacy mode (`Decoder`, `Codec`), the file system and what else a start
-- finds (`Disk`, `Environment`, `Machine`), the redirects of `ServeMux` to clean paths,
-- and the readers of `http.MaxBytesReader` (`BodyLibrary`).
-- A write of a file may fail before it truncates the file or behind it (`WriteEnd`). A transaction whose
-- commit fails is taken to change nothing.
--
-- Bounds. The counters of the statistics are taken to stay below 2^63. The loops recur on the text,
-- on the list, or on the number of rounds left. Only the digits of `strconv.Itoa` need fuel: a number
-- has no more digits than its successor, which is the number of rounds given. The loop of FormatSize
-- is given seven rounds, which an `int` cannot exhaust.
--
-- Concurrency. `Stop` of the limiter, `GracefulShutdown` and the handlers of pages in file mode
-- (Main/Concurrent) are step relations, whose runs are all interleavings; Main/Concurrent leaves open
-- what the limiter answers. RateLimit/Shared splits `Allow` where it releases the lock. Elsewhere
-- requests come one after another, and `Allow` is one step.
--
-- Not modelled: the interleaving of handlers inside a method that holds its lock, the letters outside ASCII
-- in the `$name` references of a regular expression's replacement text, the calls of
-- the logger, and what the components of the manifest list as not modelled.
pub mod Common
pub mod Random
pub mod Content
pub mod Strings
pub mod Http
pub mod Stats
pub mod RateLimit
pub mod Admin
pub mod Server
pub mod Serve
pub mod Ui
pub mod Logging
pub mod Paths
pub mod Main
