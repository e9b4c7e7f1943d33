-- ===== src/Stats/Ip/Tests.antt =====
-- The theorems on client addresses at concrete inputs.
use gospidertrap.Common.{
  ◌≡◌, inr, refl, Bool, true, [], ◌∷◌, ◌++◌, arith, Text, codes, text_eq, leb, length,
}
use gospidertrap.Strings.{trim_space, space_one, space_two, space_three}
use gospidertrap.Http.{Request, first_value}
use gospidertrap.Stats.Ip.{xff_header, without_port, get_client_ip}
use gospidertrap.Stats.Ip.Laws.{without_port_lem, trusted_takes_first}

-- Stands for `net.ParseIP`: texts of at least seven bytes.
abbrev long_enough : Text → Bool
long_enough t = leb 7 (length t)

abbrev plain : Request
plain = record {
  method = codes "GET";
  path = codes "/";
  remote_addr = codes "[::1]:4711";
  headers = [];
  query = [];
  cookies = [];
}

abbrev proxied : Request
proxied = record plain {
  headers = (xff_header, codes "192.0.2.1" ++ (b',' ∷ codes " 10.0.0.1")) ∷ [];
}

without_port_lem_example : without_port (codes "[::1]" ++ b':' ∷ codes "4711") ≡ codes "[::1]"
without_port_lem_example = without_port_lem (codes "[::1]") (codes "4711") (omega arith)

trimmed : trim_space (codes "192.0.2.1") ≡ codes "192.0.2.1"
unfolding trim_space space_one space_two space_three
trimmed = refl

trusted_takes_first_example : get_client_ip long_enough true proxied ≡ codes "192.0.2.1"
unfolding first_value text_eq
trusted_takes_first_example =
    trusted_takes_first long_enough proxied (codes "192.0.2.1") (codes " 10.0.0.1") (inr refl)
      (omega arith) (cc) trimmed refl
