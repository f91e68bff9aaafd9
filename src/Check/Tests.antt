-- ===== src/Check/Tests.antt =====
-- Runs of the check endpoint of middleware/routing/check.go, over a backend that counts the requests
-- that it has admitted.
use open_source.Common.{
  ℕ, ◌+◌, ◌≡◌, ◌↔◌, refl, true, false, [], ◌∷◌, none, some, if◌then◌else◌, Text, codes, is_empty,
  text_eq,
}
use open_source.Common.Int.{pos, ltb_ℤ}
use open_source.Common.GoTime.{Time, seconds}
use open_source.Common.Float.{whole}
use open_source.Address.Extractor.{Net}
use open_source.Configuration.Settings.{Config, detection_none, detection_medium}
use open_source.Configuration.Defaults.{default_config}
use open_source.Pipeline.Backends.{BackendOps, Request}
use open_source.Pipeline.Limits.{Limits, window_limit}
use open_source.Check.{
  Answer, CheckRequest, divided_by_zero, header_of, all_passed, check_limit_dry_run,
  check_rate_limit,
}
use open_source.Check.Reads.{check_limit_dry_run-panics_iff}

-- January 2 of 2026, 00:00 UTC.
abbrev pub midnight : Time
midnight = 63902908800000000000

abbrev pub counting : BackendOps whole
counting = record {
  State = ℕ;
  allow_sliding_window = λ key limit size s.
      (if ltb_ℤ (pos s) limit then s + 1 else s, some (ltb_ℤ (pos s) limit, pos 0));
  block = λ key d s. (s, some tt);
  is_key_blocked = λ key s. (s, some (false, 0));
  get_token_bucket = λ key s. (s, some (pos 0));
  get_sliding_window_count = λ key size s. (s, some s);
  get_violation_count = λ key s. (s, some (pos 0));
  increment_violation = λ key s. (s, some (pos 1));
}

abbrev pub plain_net : Net
plain_net = record {
  Ip = Text;
  Network = Text;
  parse_ip = λ s. if is_empty s then none else some s;
  parse_cidr = λ s. some s;
  covers = λ n ip. text_eq n ip;
  split_host_port = λ s. s;
  is_v4 = λ ip. true;
  show = λ ip. ip;
  show_subnet = λ ip n. ip;
  split_comma = λ s. s ∷ [];
  trim_space = λ s. s;
}

abbrev trusting_config : Config whole
trusting_config = record (default_config whole) {
  bot_detection = detection_none;
  max_request_body_size = pos 0;
}

abbrev asked : CheckRequest
asked = record {
  service_id = codes "shop";
  endpoint = codes "/";
  ip = codes "10.0.0.1";
  user_id = [];
  headers = (codes "User-Agent", codes "curl/8") ∷ [];
}

abbrev get_root : Request whole
get_root = record {
  path = codes "/";
  method = codes "POST";
  user_agent = codes "curl/8";
  header = header_of asked.headers;
  body = none;
  ip = codes "10.0.0.1";
  valid_proxy = true;
}

abbrev check : ℕ → ℕ × Answer
check s =
    check_rate_limit whole counting plain_net trusting_config none (codes "POST") midnight
      (some asked) s

consents : (check 0).1 ≡ all_passed whole
unfolding check_rate_limit
consents = refl

-- A path that allows less than one request in its window.
abbrev no_room : Limits whole
no_room = record { rps = pos 0; burst = pos 0; window_size = seconds 1; block_duration = pos 0 }

check_limit_dry_run-panics_iff_example :
    ((check_limit_dry_run whole counting (codes "k") no_room 0).1 ≡ divided_by_zero)
    ↔ (window_limit whole counting no_room.rps no_room.burst no_room.window_size ≡ pos 0)
check_limit_dry_run-panics_iff_example =
    check_limit_dry_run-panics_iff whole counting (codes "k") no_room 0 0 refl

abbrev wary_config : Config whole
wary_config = record trusting_config { bot_detection = detection_medium }
