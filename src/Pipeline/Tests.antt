-- ===== src/Pipeline/Tests.antt =====
-- Runs of the pipeline of middleware/routing/middleware.go, over a backend that counts its refusals.
use open_source.Common.{
  ℕ, ◌+◌, ◌≡◌, refl, true, false, List, [], ◌∷◌, none, some, arith, codes, ltb,
}
use open_source.Common.Int.{pos}
use open_source.Common.GoTime.{Time}
use open_source.Common.Float.{whole}
use open_source.Configuration.Settings.{Config, detection_none}
use open_source.Configuration.Defaults.{default_config}
use open_source.Pipeline.Backends.{BackendOps, Request}
use open_source.Pipeline.Detector.{new_distributed_attack_detector, record_request}
use open_source.Pipeline.Served.{Unblocked, Admitted, handle-served}
use open_source.Pipeline.Limits.{get_rate_limits, is_blocked, allow_request}
use open_source.Pipeline.Bots.{detect_bot}
use open_source.Pipeline.Handler.{
  served, check_body, check_global, check_attack, check_block, check_bot, check_rate, serve,
  limit_key, Limiter, Clock, handle,
}
use open_source.Pipeline.Verdicts.{counted, decides, handle-counted}
use open_source.Pipeline.Traffic.{count_since, cutoff_of, record_all, record_request-count_since}

-- January 2 of 2026, 00:00 UTC.
abbrev noon : Time
noon = 63902908800000000000

-- A backend that lets two requests through in all.
abbrev two_in_all : BackendOps whole
two_in_all = record {
  State = ℕ;
  allow_sliding_window = λ key limit size s. (s + 1, some (ltb s 2, pos 1000));
  block = λ key d s. (s, some tt);
  is_key_blocked = λ key s. (s, some (false, 0));
  get_token_bucket = λ key s. (s, some (pos 0));
  get_sliding_window_count = λ key size s. (s, some s);
  get_violation_count = λ key s. (s, some (pos 0));
  increment_violation = λ key s. (s, some (pos 1));
}

abbrev plain_config : Config whole
plain_config = record (default_config whole) {
  requests_per_second = pos 10;
  burst_size = pos 20;
  block_duration = pos 900000000000;
  max_block_duration = pos 1000000000000;
  bot_detection = detection_none;
  path_limits = [];
  user_id_header = [];
  trusted_user_id_header = false;
  max_request_body_size = pos 0;
  global_rate_limit = pos 0;
  global_window_size = pos 60000000000;
  sliding_window_size = pos 1000000000;
  enable_jitter = false;
  jitter_max_percent = pos 0;
  exponential_backoff_base = pos 2;
  strict_backend_errors = false;
  additional_bot_signatures = [];
}

abbrev strict_config : Config whole
strict_config = record plain_config { strict_backend_errors = true }

abbrev get_root : Request whole
get_root = record {
  path = codes "/";
  method = codes "GET";
  user_agent = codes "test";
  header = λ h. [];
  body = none;
  ip = codes "10.0.0.1";
  valid_proxy = true;
}

abbrev clock : Clock
clock = record { recorded = noon; checked = noon; punished = noon }

abbrev limiter : ℕ → Limiter whole two_in_all
limiter s = record {
  backend = s;
  detector = new_distributed_attack_detector whole (pos 60000000000) (pos 1000);
  allowed = 0;
  blocked = 0;
  bot_blocked = 0;
  request_count = 0;
}

handle-counted_example :
    counted whole two_in_all
      (handle whole two_in_all plain_config none clock get_root (limiter 2)).0
    ≡ counted whole two_in_all (limiter 2)
      + decides whole two_in_all
          (handle whole two_in_all plain_config none clock get_root (limiter 2)).1
handle-counted_example =
    handle-counted whole two_in_all plain_config none clock get_root (limiter 2)

abbrev earlier : List Time
earlier = 63902908799000000000 ∷ 63902908700000000000 ∷ []

record_request-count_since_example :
    (record_request whole noon (
      record_all whole earlier (new_distributed_attack_detector whole (pos 60000000000) (pos 1)))).1
    ≡ whole.greater
        (whole.of_int (pos (count_since (cutoff_of (pos 60000000000) noon) (noon ∷ earlier))))
        (pos 1)
record_request-count_since_example =
    record_request-count_since whole noon earlier (pos 60000000000) (pos 1)
      (ground arith, (ground arith, tt))

served_first :
    (handle whole two_in_all strict_config none clock get_root (limiter 0)).1 ≡ served (pos 19)
unfolding handle check_body check_global check_attack check_block check_bot check_rate serve
    limit_key is_blocked detect_bot allow_request get_rate_limits
served_first = refl

handle-served_example :
    let key = limit_key whole two_in_all strict_config get_root in
    let after_global =
      check_attack whole two_in_all noon
        (check_global whole two_in_all strict_config (limiter 0)).0 in
    let after_block = (check_block whole two_in_all strict_config key noon after_global).0 in
    Unblocked whole two_in_all key after_global.backend
    × Admitted whole two_in_all key
        (get_rate_limits whole strict_config none get_root)
        (check_bot whole two_in_all strict_config key get_root after_block).0.backend
handle-served_example =
    handle-served whole two_in_all strict_config none clock get_root (limiter 0) (pos 19) refl
      served_first
