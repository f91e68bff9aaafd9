-- ===== src/Configuration/Presets.antt =====
-- getDefaultConfig of middleware/config/loader.go: what an environment has where it has no file.
use open_source.Common.{true, false, [], none, if◌then◌else◌, Text, codes, text_eq}
use open_source.Common.Int.{ℤ, pos}
use open_source.Common.GoTime.{minutes, hours}
use open_source.Common.Float.{Float64}
use open_source.Configuration.Files.{EnvironmentConfig, GlobalPart}

module _ (fl : Float64) where
  open fl use {of_int}

  -- The zero of the struct.
  abbrev zero_config : Text → EnvironmentConfig fl
  zero_config env = record {
    environment = env;
    server = record {
      port = [];
      host = [];
      read_timeout = pos 0;
      write_timeout = pos 0;
      idle_timeout = pos 0;
      max_header_bytes = pos 0;
      structured_logging = false;
    };
    tls = record { enabled = false; cert_file = []; key_file = [] };
    storage = record {
      kind = [];
      redis = record {
        addr = [];
        password = [];
        db = pos 0;
        pool_size = pos 0;
        min_idle_conns = pos 0;
        max_retries = pos 0;
        dial_timeout = pos 0;
        read_timeout = pos 0;
        write_timeout = pos 0;
      };
      max_tracked_ips = pos 0;
      max_memory_mb = pos 0;
      cleanup_interval = pos 0;
    };
    global_limits = record {
      enabled = false;
      requests_per_second = of_int (pos 0);
      burst_size = pos 0;
      window_size = pos 0;
      distributed_attack_threshold = of_int (pos 0);
      distributed_attack_window = pos 0;
    };
    security = record {
      ip_strategy = [];
      trusted_proxies = [];
      trusted_header = [];
      enable_ipv6_subnet = false;
      ipv6_subnet_size = pos 0;
      trusted_user_id_header = false;
      user_id_header = [];
      admin_auth_token = [];
    };
    bot_level = [];
    additional_signatures = [];
    circuit_breaker = record { threshold = pos 0; timeout = pos 0; max_probes = pos 0 };
    violation_handling = record {
      base_block_duration = pos 0;
      max_block_duration = pos 0;
      exponential_backoff_base = of_int (pos 0);
      enable_jitter = false;
      jitter_max_percent = of_int (pos 0);
      decay_interval = pos 0;
      decay_rate = of_int (pos 0);
    };
    default_algorithm = [];
    sliding_window_size = pos 0;
    strict_backend_errors = false;
    log_level = [];
    log_structured = false;
    include_fields = [];
    metrics = record {
      enabled = false;
      prometheus_enabled = false;
      prometheus_path = [];
      prometheus_port = [];
    };
    client_cookies = record { enabled = false; name = []; secure = false; same_site = [] };
    cors = record {
      enabled = false;
      allowed_origins = [];
      allowed_methods = [];
      allowed_headers = [];
      max_age = pos 0;
    };
    health = record { enabled = false; path = []; interval = pos 0 };
    shutdown_timeout = pos 0;
    drain_timeout = pos 0;
    service_templates = none;
  }

  -- What the three cases set of the limits of all requests.
  abbrev limits_on : GlobalPart fl → ℤ → ℤ → GlobalPart fl
  limits_on g rps burst = record g {
    enabled = true;
    requests_per_second = of_int rps;
    burst_size = burst;
  }

  production_defaults : EnvironmentConfig fl → EnvironmentConfig fl
  production_defaults c = record c {
    server = record c.server { port = codes "8080"; structured_logging = true };
    storage = record c.storage { kind = codes "redis" };
    global_limits = limits_on c.global_limits (pos 10000) (pos 20000);
    security = record c.security { ip_strategy = codes "cloudflare" };
    bot_level = codes "high";
    circuit_breaker = record c.circuit_breaker { threshold = pos 3; max_probes = pos 1 };
    violation_handling = record c.violation_handling {
      base_block_duration = minutes 15;
      max_block_duration = hours 24;
    };
    log_level = codes "warn";
    log_structured = true;
    client_cookies = record c.client_cookies { enabled = true; secure = true };
  }

  staging_defaults : EnvironmentConfig fl → EnvironmentConfig fl
  staging_defaults c = record c {
    server = record c.server { port = codes "8080"; structured_logging = true };
    storage = record c.storage { kind = codes "redis" };
    global_limits = limits_on c.global_limits (pos 500) (pos 1000);
    security = record c.security { ip_strategy = codes "trusted_proxy" };
    bot_level = codes "medium";
    circuit_breaker = record c.circuit_breaker { threshold = pos 5; max_probes = pos 3 };
    violation_handling = record c.violation_handling {
      base_block_duration = minutes 15;
      max_block_duration = hours 2;
    };
    log_level = codes "info";
    log_structured = true;
    client_cookies = record c.client_cookies { enabled = true };
  }

  development_defaults : EnvironmentConfig fl → EnvironmentConfig fl
  development_defaults c = record c {
    server = record c.server { port = codes "8080"; structured_logging = false };
    storage = record c.storage { kind = codes "memory" };
    global_limits = record c.global_limits { enabled = false };
    security = record c.security { ip_strategy = codes "direct" };
    bot_level = codes "none";
    circuit_breaker = record c.circuit_breaker { threshold = pos 100; max_probes = pos 1 };
    violation_handling = record c.violation_handling {
      base_block_duration = minutes 1;
      max_block_duration = minutes 5;
    };
    log_level = codes "debug";
    log_structured = false;
    client_cookies = record c.client_cookies { enabled = false };
  }

  unfoldable pub get_default_config : Text → EnvironmentConfig fl
  unfolding production_defaults staging_defaults development_defaults
  get_default_config env =
      if text_eq env (codes "production")
      then production_defaults (zero_config env)
      else if text_eq env (codes "staging")
      then staging_defaults (zero_config env)
      else development_defaults (zero_config env)
