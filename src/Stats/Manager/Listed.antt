-- ===== src/Stats/Manager/Listed.antt =====
-- internal/stats/manager.go: the recent requests of the two ways to keep the statistics.
use mathlib.Core.List.Perm
use gospidertrap.Common.{◌<◌, List, [], ◌∷◌, All}
use gospidertrap.Stats.{Stats, RequestInfo}
use gospidertrap.Stats.Memory

-- Each request is later than those before it.
abbrev pub IsRising : List RequestInfo → Type 0
IsRising [] = Unit
IsRising (req ∷ reqs) = All (λ later. req.timestamp < later.timestamp) reqs × IsRising reqs
