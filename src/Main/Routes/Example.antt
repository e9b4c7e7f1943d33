-- ===== src/Main/Routes/Example.antt =====
-- A small site, with its limiter and requests, for the tests.
use gospidertrap.Common.{ℕ, ◌-◌, true, false, none, some, [], Text, codes, length, leb, ltb}
use gospidertrap.Random.{Device}
use gospidertrap.Content.{Generator}
use gospidertrap.RateLimit.{RateLibrary, Limiter}
use gospidertrap.Stats.{new_stats}
use gospidertrap.Admin.Auth.{Authenticator}
use gospidertrap.Serve.{State}
use gospidertrap.Main.Routes.{Site, Visit}
use gospidertrap.Main.Routes.Accounting.{in_files}

-- Buckets that are never refilled.
abbrev pub dry : RateLibrary
dry = record {
  Bucket = ℕ;
  new = λ rate burst. burst;
  allow = λ now tokens. (ltb 0 tokens, tokens - 1);
  has_full_burst = λ now tokens burst. leb burst tokens;
}

abbrev pub two_each : Limiter dry
two_each = record { limiters = []; rate = 1; burst = 2 }

abbrev pub zeros : Device
zeros = record { byte_at = λ i. 0; fails_at = λ i. false }

abbrev pub plain : Generator
plain = record {
  random = record { chars = codes "ab" };
  webpages = [];
  endpoint = [];
  html_template = [];
}

abbrev pub keeper : Authenticator
keeper = record { path = codes "/k3-f"; token = codes "s3cret_-"; use_https = false }

abbrev pub site : Site
site = record {
  engine = record { text_length = length; order_desc = λ key l. l };
  parse_ip = λ s. true;
  device = zeros;
  generator = plain;
  auth = keeper;
  encode_json = λ c. codes "{}";
  duration_string = λ d. codes "7s";
  format_time = λ t. codes "noon";
  encode_line = λ req. some req.path;
  moved = λ r. none;
  data_dir = codes "data";
  use_files = true;
}

abbrev pub asking : Text → Visit
asking path = record {
  request = record {
    method = codes "GET";
    path = path;
    remote_addr = codes "10.0.0.1:999";
    headers = [];
    query = [];
    cookies = [];
  };
  context = record { done_first = false; done_second = false };
  allowed_at = 4;
  logged_at = 5;
  recorded_at = 6;
  shown_at = 7;
  record_faults = λ n. false;
  report_faults = λ n call. true;
  write_fails = false;
}

abbrev pub started : State
started = in_files (new_stats 3) false (some []) 0
