-- ===== src/Stats/Ip.antt =====
-- internal/stats/ip.go: the address that a request is counted under. `net.ParseIP` is a parameter:
-- whether it accepts a text. `getClientIP` of main.go is a second copy of the function.
pub mod Laws
mod Tests
use gospidertrap.Common.{
  ℕ, Bool, true, false, Option, none, some, List, [], ◌∷◌, Text, codes, text_eq, not, if◌then◌else◌,
  take,
}
use gospidertrap.Strings.{split, last_index, trim_space}
use gospidertrap.Http.{Request, header_get}

abbrev pub xff_header : Text
xff_header = codes "X-Forwarded-For"

abbrev pub xri_header : Text
xri_header = codes "X-Real-Ip"

-- `strings.Split` gives at least one part; the test `len(ips) > 0` is the pattern.
abbrev first_part : List Text → Option Text
first_part [] = none
first_part (p ∷ ps) = some p

-- `RemoteAddr` up to its last colon.
unfoldable pub without_port : Text → Text
without_port addr = elim (last_index b':' addr) [ none ↦ addr | some i ↦ take i addr ]

module _ (parse_ip : Text → Bool) where
  -- An address that is accepted, trimmed.
  abbrev pub accepted : Text → Option Text
  accepted t = let ip = trim_space t in if parse_ip ip then some ip else none

  -- The first address of the header, if the header is there and the address is accepted.
  unfoldable pub forwarded_for : Request → Option Text
  forwarded_for r =
      let xff = header_get r xff_header in
      if text_eq xff []
      then none
      else elim (first_part (split xff b',')) [ none ↦ none | some p ↦ accepted p ]

  unfoldable pub real_ip : Request → Option Text
  real_ip r = let xri = header_get r xri_header in if text_eq xri [] then none else accepted xri

  unfoldable pub get_client_ip : Bool → Request → Text
  get_client_ip trust_proxy r =
      let from_remote = without_port r.remote_addr in
      if trust_proxy
      then (elim (forwarded_for r) [
        | some ip ↦ ip
        | none ↦ elim (real_ip r) [ some ip ↦ ip | none ↦ from_remote ]
      ])
      else from_remote
