-- ===== src/Configuration/Convert.antt =====
-- ToBaseConfig of middleware/config/loader.go: from what a file holds to a configuration.
use open_source.Common.{if◌then◌else◌, Text, codes, text_eq, to_lower}
use open_source.Common.Int.{pos, ltb_ℤ}
use open_source.Common.Float.{Float64}
use open_source.Address.Extractor.{IpExtractorStrategy, direct, trusted_proxy, cloudflare, aws}
use open_source.Configuration.Settings.{
  BotDetectionLevel, detection_none, detection_low, detection_medium, detection_high,
  backend_memory, backend_redis, SameSite, same_site_lax, same_site_strict, same_site_none, Config,
}
use open_source.Configuration.Defaults.{default_config}
use open_source.Configuration.Files.{StoragePart, GlobalPart, EnvironmentConfig}

unfoldable pub parse_ip_strategy : Text → IpExtractorStrategy
parse_ip_strategy s =
    let l = to_lower s in
    if text_eq l (codes "cloudflare")
    then cloudflare
    else if text_eq l (codes "trusted_proxy")
    then trusted_proxy
    else if text_eq l (codes "aws")
    then aws
    else direct

unfoldable pub parse_bot_detection_level : Text → BotDetectionLevel
parse_bot_detection_level s =
    let l = to_lower s in
    if text_eq l (codes "none")
    then detection_none
    else if text_eq l (codes "low")
    then detection_low
    else if text_eq l (codes "medium")
    then detection_medium
    else if text_eq l (codes "high")
    then detection_high
    else detection_medium

unfoldable pub parse_same_site : Text → SameSite
parse_same_site s =
    let l = to_lower s in
    if text_eq l (codes "strict")
    then same_site_strict
    else if text_eq l (codes "lax")
    then same_site_lax
    else if text_eq l (codes "none")
    then same_site_none
    else same_site_lax

module _ (fl : Float64) where
  unfoldable pub storage_settings : StoragePart → Config fl → Config fl
  storage_settings s cfg =
      if text_eq s.kind (codes "redis")
      then record cfg {
        backend_type = backend_redis;
        redis_addr = s.redis.addr;
        redis_password = s.redis.password;
        redis_db = s.redis.db;
      }
      else if text_eq s.kind (codes "memory")
      then record cfg {
        backend_type = backend_memory;
        max_tracked_ips =
            if ltb_ℤ (pos 0) s.max_tracked_ips then s.max_tracked_ips else cfg.max_tracked_ips;
      }
      else cfg

  unfoldable pub global_settings : GlobalPart fl → Config fl → Config fl
  global_settings g cfg =
      if g.enabled
      then record cfg {
        global_rate_limit = g.requests_per_second;
        global_burst = g.burst_size;
        global_window_size = g.window_size;
        distributed_attack_threshold = g.distributed_attack_threshold;
        distributed_attack_window = g.distributed_attack_window;
      }
      else cfg

  -- The settings that are copied whatever they are.
  unfoldable pub copied_settings : EnvironmentConfig fl → Config fl → Config fl
  unfolding parse_ip_strategy parse_bot_detection_level parse_same_site
  copied_settings ec cfg = record cfg {
    structured_logging = ec.server.structured_logging;
    server = record {
      port = ec.server.port;
      host = ec.server.host;
      read_timeout = ec.server.read_timeout;
      write_timeout = ec.server.write_timeout;
      idle_timeout = ec.server.idle_timeout;
    };
    admin_auth_token = ec.security.admin_auth_token;
    ip_strategy = parse_ip_strategy ec.security.ip_strategy;
    trusted_proxies = ec.security.trusted_proxies;
    trusted_header = ec.security.trusted_header;
    enable_ipv6_subnet_block = ec.security.enable_ipv6_subnet;
    ipv6_subnet_size = ec.security.ipv6_subnet_size;
    trusted_user_id_header = ec.security.trusted_user_id_header;
    user_id_header = ec.security.user_id_header;
    bot_detection = parse_bot_detection_level ec.bot_level;
    additional_bot_signatures = ec.additional_signatures;
    circuit_breaker_threshold = ec.circuit_breaker.threshold;
    circuit_breaker_timeout = ec.circuit_breaker.timeout;
    circuit_breaker_max_probes = ec.circuit_breaker.max_probes;
    block_duration = ec.violation_handling.base_block_duration;
    max_block_duration = ec.violation_handling.max_block_duration;
    exponential_backoff_base = ec.violation_handling.exponential_backoff_base;
    enable_jitter = ec.violation_handling.enable_jitter;
    jitter_max_percent = ec.violation_handling.jitter_max_percent;
    decay_interval = ec.violation_handling.decay_interval;
    use_sliding_window = text_eq ec.default_algorithm (codes "sliding_window");
    sliding_window_size =
        if ltb_ℤ (pos 0) ec.sliding_window_size
        then ec.sliding_window_size
        else cfg.sliding_window_size;
    strict_backend_errors = ec.strict_backend_errors;
    block_status_cookie_enabled = ec.client_cookies.enabled;
    block_status_cookie_name = ec.client_cookies.name;
    cookie_secure = ec.client_cookies.secure;
    cookie_same_site = parse_same_site ec.client_cookies.same_site;
    cors_enabled = ec.cors.enabled;
    cors_allowed_origins = ec.cors.allowed_origins;
    cors_allowed_methods = ec.cors.allowed_methods;
    cors_allowed_headers = ec.cors.allowed_headers;
    cors_max_age = ec.cors.max_age;
    health_enabled = ec.health.enabled;
    health_path = ec.health.path;
    shutdown_timeout = ec.shutdown_timeout;
    shutdown_drain_timeout = ec.drain_timeout;
  }

  -- The call also sets the variable PORT of the process, which the loader does not read.
  unfoldable pub to_base_config : EnvironmentConfig fl → Config fl
  unfolding storage_settings global_settings copied_settings
  to_base_config ec =
      copied_settings ec
        (global_settings ec.global_limits (storage_settings ec.storage (default_config fl)))
