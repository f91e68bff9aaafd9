-- ===== src/Configuration/Environment.antt =====
-- middleware/environment/defaults.go: a configuration from environment variables alone.
use open_source.Common.{true, false, if◌then◌else◌, ◌||◌, Text, codes, text_eq}
use open_source.Common.Int.{ℤ, pos, int32_of, mul_int64}
use open_source.Common.GoTime.{Duration, seconds, minutes, hours}
use open_source.Common.Float.{Float64}
use open_source.Configuration.Settings.{
  Config, detection_none, detection_medium, detection_high, backend_memory, backend_redis,
}
use open_source.Configuration.Validate.{one_tenth}
use open_source.Configuration.Defaults.{default_config}
use open_source.Configuration.Environ.{
  Environ, get_env, get_int_env, get_float_env, get_bool_env, get_duration_env,
}

module _ (fl : Float64) (os : Environ fl) where
  open fl use {Float, of_int, divide}

  -- `0.2`
  abbrev pub one_fifth : Float
  one_fifth = divide (of_int (pos 1)) (of_int (pos 5))

  -- A Duration from the environment, as a number of units: an int64 product.
  unfoldable pub units_env : Text → (default_val : ℤ) → (unit : Duration) → Duration
  units_env key default_val unit = mul_int64 (get_duration_env fl os key default_val) unit

  unfoldable pub base_config : Config fl
  unfolding units_env get_env
  base_config =
      let number : Text → ℤ → ℤ = get_int_env fl os in
      record (default_config fl) {
        admin_auth_token = get_env fl os (codes "ADMIN_AUTH_TOKEN") (codes "");
        max_tracked_ips = number (codes "MAX_TRACKED_IPS") (pos 10000);
        max_memory_mb = number (codes "MAX_MEMORY_MB") (pos 256);
        cleanup_interval = units_env (codes "CLEANUP_INTERVAL_MINUTES") (pos 5) (minutes 1);
        max_request_body_size =
            mul_int64 (mul_int64 (number (codes "MAX_REQUEST_BODY_SIZE_MB") (pos 1)) (pos 1024))
              (pos 1024);
        block_duration = units_env (codes "RATE_LIMIT_BLOCK_MINUTES") (pos 15) (minutes 1);
        max_block_duration = units_env (codes "RATE_LIMIT_MAX_BLOCK_HOURS") (pos 1) (hours 1);
        exponential_backoff_base =
            get_float_env fl os (codes "EXPONENTIAL_BACKOFF_BASE") (of_int (pos 2));
        enable_jitter = get_bool_env fl os (codes "ENABLE_JITTER") true;
        jitter_max_percent = get_float_env fl os (codes "JITTER_MAX_PERCENT") (one_tenth fl);
        decay_interval = units_env (codes "DECAY_INTERVAL_HOURS") (pos 1) (hours 1);
        requests_per_second = get_float_env fl os (codes "RATE_LIMIT_RPS") one_fifth;
        burst_size = number (codes "RATE_LIMIT_BURST") (pos 3);
        global_rate_limit = get_float_env fl os (codes "GLOBAL_RATE_LIMIT_RPS") (of_int (pos 10));
        global_burst = number (codes "GLOBAL_BURST") (pos 20);
        global_window_size = units_env (codes "GLOBAL_WINDOW_SIZE_MINUTES") (pos 1) (minutes 1);
        circuit_breaker_threshold = int32_of (number (codes "CIRCUIT_BREAKER_THRESHOLD") (pos 5));
        circuit_breaker_timeout =
            units_env (codes "CIRCUIT_BREAKER_TIMEOUT_SECONDS") (pos 30) (seconds 1);
        circuit_breaker_max_probes = int32_of (number (codes "CIRCUIT_BREAKER_MAX_PROBES") (pos 3));
        redis_addr = get_env fl os (codes "REDIS_ADDR") (codes "localhost:6379");
        redis_password = get_env fl os (codes "REDIS_PASSWORD") (codes "");
        redis_db = number (codes "REDIS_DB") (pos 0);
        redis_key_prefix = get_env fl os (codes "REDIS_KEY_PREFIX") (codes "ratelimit:");
        structured_logging = get_bool_env fl os (codes "STRUCTURED_LOGGING") false;
      }

  unfoldable pub development_config : Config fl
  unfolding base_config
  development_config = record base_config {
    bot_detection = detection_none;
    backend_type = backend_memory;
    structured_logging = false;
    strict_backend_errors = false;
    requests_per_second = of_int (pos 100);
    burst_size = pos 100;
    block_duration = minutes 1;
  }

  unfoldable pub staging_config : Config fl
  unfolding base_config
  staging_config = record base_config {
    bot_detection = detection_medium;
    backend_type = backend_redis;
    structured_logging = true;
    strict_backend_errors = false;
    requests_per_second = of_int (pos 1);
    burst_size = pos 5;
    block_duration = minutes 15;
  }

  unfoldable pub production_config : Config fl
  unfolding base_config
  production_config = record base_config {
    bot_detection = detection_high;
    backend_type = backend_redis;
    redis_key_prefix = codes "prod:ratelimit:";
    structured_logging = true;
    strict_backend_errors = true;
    enable_ipv6_subnet_block = true;
    ipv6_subnet_size = pos 56;
    trusted_user_id_header = true;
    user_id_header = codes "X-Authenticated-User-ID";
    requests_per_second = one_fifth;
    burst_size = pos 3;
    use_sliding_window = true;
    sliding_window_size = seconds 1;
    distributed_attack_threshold = of_int (pos 1000);
    distributed_attack_window = minutes 1;
    block_duration = minutes 15;
    max_block_duration = hours 24;
  }

  -- The argument is not read.
  unfoldable pub apply_environment_config : Config fl → Config fl
  unfolding development_config staging_config production_config
  apply_environment_config config =
      let name = get_env fl os (codes "ENV") (codes "development") in
      if text_eq name (codes "production") || text_eq name (codes "prod")
      then production_config
      else if text_eq name (codes "staging")
      then staging_config
      else development_config
