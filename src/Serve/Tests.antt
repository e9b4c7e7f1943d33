-- ===== src/Serve/Tests.antt =====
-- Tests of the request path.
use gospidertrap.Common.{
  ℕ, ◌-◌, refl, ◌≢◌, none, length, Bool, true, false, leb, ltb, [], arith, Text, codes,
}
use gospidertrap.Random.{Device}
use gospidertrap.Http.{Request}
use gospidertrap.Http.Writer.{fresh_writer}
use gospidertrap.Content.{Generator}
use gospidertrap.RateLimit.{RateLibrary, new_limiter, allow_ip}
use gospidertrap.Stats.{RequestInfo, new_stats}
use gospidertrap.Stats.Database.{Engine, Faults}
use gospidertrap.Stats.Manager.{new_manager, request_info}
use gospidertrap.Admin.Handler.{Context}
use gospidertrap.Serve.{State, serve, handle}
use gospidertrap.Serve.Answers.{IsAnswered, serve-IsAnswered}

-- Buckets that are never refilled.
abbrev dry : RateLibrary
dry = record {
  Bucket = ℕ;
  new = λ rate burst. burst;
  allow = λ now tokens. (ltb 0 tokens, tokens - 1);
  has_full_burst = λ now tokens burst. leb burst tokens;
}

abbrev zeros : Device
zeros = record { byte_at = λ i. 0; fails_at = λ i. false }

abbrev plain : Generator
plain = record {
  random = record { chars = codes "ab" };
  webpages = [];
  endpoint = [];
  html_template = [];
}

abbrev crawler : Request
crawler = record {
  method = codes "GET";
  path = codes "/x";
  remote_addr = codes "10.0.0.1:999";
  headers = [];
  query = [];
  cookies = [];
}

abbrev present : Context
present = record { done_first = false; done_second = false }

abbrev any_ip : Text → Bool
any_ip s = true

abbrev no_fault : Faults
no_fault n = false

abbrev bytes_engine : Engine
bytes_engine = record { text_length = length; order_desc = λ key l. l }

abbrev at_start : State
at_start = record { manager = new_manager none (new_stats 0) false; log = none; offset = 0 }

abbrev seen_crawler : RequestInfo
seen_crawler = request_info any_ip false crawler 4

serve-IsAnswered_example :
    IsAnswered
      (allow_ip dry (new_limiter dry 1 2) seen_crawler.ip 4).0
      bytes_engine
      no_fault
      present
      seen_crawler
      at_start
      (serve dry
        (new_limiter dry 1 2)
        seen_crawler.ip
        4
        (handle bytes_engine no_fault zeros plain present seen_crawler at_start)
        at_start
        fresh_writer).0
serve-IsAnswered_example =
    serve-IsAnswered bytes_engine no_fault zeros plain present dry (new_limiter dry 1 2)
      seen_crawler.ip 4 seen_crawler at_start
      (record { bytes = λ i. omega arith; never_fails = λ i. refl })
      (ab, (omega arith, (omega arith, tt)))
  where
    ab : codes "ab" ≢ []
    ab = ground arith
