-- ===== src/Main/Client.antt =====
-- main.go: `getClientIP`, a second copy of the method of `IPResolver`, which nothing calls.
use gospidertrap.Common.{
  ◌≡◌, Bool, none, some, List, [], ◌∷◌, arith, Text, text_eq, if◌then◌else◌, take,
}
use gospidertrap.Strings.{split, last_index, trim_space}
use gospidertrap.Http.{Request, header_get}
use gospidertrap.Stats.Ip
use gospidertrap.Stats.Ip.{xff_header, xri_header, forwarded_for, real_ip, without_port, accepted}

module _ (parse_ip : Text → Bool) where
  -- The trimmed address, if it is a valid one, and else what comes after the test.
  abbrev return_if_valid : Text → Text → Text
  return_if_valid part otherwise = let ip = trim_space part in if parse_ip ip then ip else otherwise

  abbrev remote : Request → Text
  remote r = elim (last_index b':' r.remote_addr) [
    | none ↦ r.remote_addr
    | some colon ↦ take colon r.remote_addr
  ]

  abbrev from_xri : Request → Text
  from_xri r =
      let xri = header_get r xri_header in
      let valid = return_if_valid xri (remote r) in if text_eq xri [] then remote r else valid

  abbrev first_of : List Text → Text → Text
  first_of [] otherwise = otherwise
  first_of (ip ∷ ips) otherwise = return_if_valid ip otherwise

  unfoldable pub get_client_ip : Request → Bool → Text
  get_client_ip r trust_proxy =
      if trust_proxy
      then (let xff = header_get r xff_header in
          let first = first_of (split xff b',') (from_xri r) in
          if text_eq xff [] then from_xri r else first)
      else remote r

  -- Both copies find the same address.
  pub get_client_ip_same :
      (r : Request) (trust_proxy : Bool)
      → get_client_ip r trust_proxy ≡ Ip.get_client_ip parse_ip trust_proxy r
  unfolding get_client_ip Ip.get_client_ip forwarded_for real_ip without_port
  get_client_ip_same r trust_proxy = ground arith
