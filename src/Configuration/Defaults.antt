-- ===== src/Configuration/Defaults.antt =====
-- DefaultConfig of middleware/base/config.go.
use open_source.Common.{ℕ, ◌*◌, true, false, [], ◌∷◌, codes}
use open_source.Common.Int.{pos}
use open_source.Common.GoTime.{seconds, minutes, hours}
use open_source.Common.Float.{Float64}
use open_source.Address.Extractor.{direct}
use open_source.Configuration.Settings.{
  Config, Server, detection_medium, backend_memory, same_site_lax,
}
use open_source.Configuration.Validate.{one_tenth}

abbrev default_server : Server
default_server = record {
  port = codes "8080";
  host = codes "0.0.0.0";
  read_timeout = seconds 5;
  write_timeout = seconds 10;
  idle_timeout = seconds 120;
}

-- A field that the literal leaves out has the zero of its type.
abbrev pub default_config : (fl : Float64) → Config fl
default_config fl =
    let number = λ (n : ℕ). fl.of_int (pos n) in
    record {
      server = default_server;
      tls_cert_file = [];
      tls_key_file = [];
      requests_per_second = number 10;
      burst_size = pos 20;
      block_duration = minutes 15;
      max_block_duration = hours 24;
      bot_detection = detection_medium;
      ip_strategy = direct;
      trusted_proxies = [];
      trusted_header = [];
      max_memory_mb = pos 512;
      max_tracked_ips = pos 100000;
      cleanup_interval = minutes 5;
      backend_type = backend_memory;
      redis_addr = [];
      redis_password = [];
      redis_db = pos 0;
      redis_key_prefix = codes "ratelimit:";
      admin_auth_token = [];
      path_limits = [];
      user_id_header = [];
      trusted_user_id_header = false;
      enable_ipv6_subnet_block = false;
      ipv6_subnet_size = pos 56;
      circuit_breaker_threshold = pos 0;
      circuit_breaker_timeout = pos 0;
      circuit_breaker_max_probes = pos 1;
      decay_interval = hours 1;
      structured_logging = false;
      max_request_body_size = pos (10 * 1024 * 1024);
      global_rate_limit = number 0;
      global_burst = pos 0;
      global_window_size = minutes 1;
      use_sliding_window = false;
      sliding_window_size = seconds 1;
      enable_jitter = false;
      jitter_max_percent = one_tenth fl;
      exponential_backoff_base = number 2;
      strict_backend_errors = false;
      distributed_attack_threshold = number 1000;
      distributed_attack_window = minutes 1;
      block_status_cookie_name = codes "__block_status";
      block_status_cookie_enabled = true;
      cookie_secure = false;
      cookie_same_site = same_site_lax;
      cors_enabled = true;
      cors_allowed_origins = codes "*" ∷ [];
      cors_allowed_methods = codes "GET" ∷ codes "POST" ∷ codes "OPTIONS" ∷ [];
      cors_allowed_headers = codes "Content-Type" ∷ codes "Authorization" ∷ codes "X-API-Key" ∷ [];
      cors_max_age = pos 86400;
      health_enabled = true;
      health_path = codes "/health";
      shutdown_timeout = seconds 30;
      shutdown_drain_timeout = seconds 10;
      additional_bot_signatures = [];
    }
