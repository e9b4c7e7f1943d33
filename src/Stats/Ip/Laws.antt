-- ===== src/Stats/Ip/Laws.antt =====
-- Where the client address comes from.
use gospidertrap.Common.{
  ℕ, ◌≡◌, ◌≢◌, ◌⊎◌, inl, inr, ap, Bool, true, false, some, List, [], ◌∷◌, ◌++◌, arith, Text,
  text_eq_iff, Lacks,
}
use gospidertrap.Strings.{split, trim_space}
use gospidertrap.Strings.Cut.{last_index_found, take-length-append, split_first, split_of_Lacks}
use gospidertrap.Http.{Request, header_get}
use gospidertrap.Stats.Ip.{
  xff_header, without_port, accepted, forwarded_for, real_ip, get_client_ip,
}

append_cons-ne-nil : (s : Text) (c : ℕ) (t : Text) → s ++ c ∷ t ≢ []
append_cons-ne-nil [] c t = cc
append_cons-ne-nil (b ∷ s) c t = cc

-- An address and a port: the port goes, and an address that holds colons keeps them.
pub without_port_lem :
    (host port : Text) → Lacks b':' port → without_port (host ++ b':' ∷ port) ≡ host
unfolding without_port
without_port_lem host port h =
    rw (last_index_found b':' host port h, without_port) (take-length-append host (b':' ∷ port))

module _ (parse_ip : Text → Bool) where
  -- Without `trustProxy` no header has any influence: requests from one remote address are counted
  -- under one client address, whatever else they hold.
  pub untrusted_ignores_headers :
      (r r' : Request)
      → r.remote_addr ≡ r'.remote_addr
      → get_client_ip parse_ip false r ≡ get_client_ip parse_ip false r'
  unfolding get_client_ip
  untrusted_ignores_headers r r' h = ap without_port h

  accepted-valid : (t ip : Text) → accepted parse_ip t ≡ some ip → parse_ip ip ≡ true
  accepted-valid t ip h = ground arith

  -- With or without `trustProxy`, the client address is one that `net.ParseIP` accepts, or the
  -- remote address without its port.
  pub client_ip_sound :
      (trust_proxy : Bool) (r : Request)
      → (parse_ip (get_client_ip parse_ip trust_proxy r) ≡ true)
        ⊎ (get_client_ip parse_ip trust_proxy r ≡ without_port r.remote_addr)
  unfolding get_client_ip forwarded_for real_ip
  client_ip_sound trust_proxy r = ground arith

  forwarded_first :
      (r : Request) (h ip : Text) (parts : List Text)
      → header_get r xff_header ≡ h
      → split h b',' ≡ ip ∷ parts
      → h ≢ []
      → trim_space ip ≡ ip
      → parse_ip ip ≡ true
      → get_client_ip parse_ip true r ≡ ip
  unfolding get_client_ip forwarded_for
  forwarded_first r h ip parts e cut filled trimmed valid =
      rw (e, cut) (ground (arith, text_eq_iff h []))

  -- With `trustProxy`, an accepted address that stands first in X-Forwarded-For, before a comma or
  -- alone, and with no white space around it, is the client address.
  pub trusted_takes_first :
      (r : Request) (ip rest : Text)
      → (header_get r xff_header ≡ ip) ⊎ (header_get r xff_header ≡ ip ++ b',' ∷ rest)
      → Lacks b',' ip
      → ip ≢ []
      → trim_space ip ≡ ip
      → parse_ip ip ≡ true
      → get_client_ip parse_ip true r ≡ ip
  trusted_takes_first r ip rest header no_comma filled trimmed valid = elim header [
    | inl alone ↦
        forwarded_first r ip ip [] alone (split_of_Lacks b',' ip no_comma) filled trimmed valid
    | inr more ↦
        forwarded_first r (ip ++ b',' ∷ rest) ip (split rest b',') more
          (split_first b',' ip rest no_comma) (append_cons-ne-nil ip b',' rest) trimmed valid
  ]
