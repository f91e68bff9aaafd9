-- ===== src/Configuration/Settings.antt =====
-- The struct Config of middleware/base/config.go with the types of middleware/base/types.go that it
-- holds. Its Logger, its Metrics and its ProxyValidationFunc are functions and not kept here.
use open_source.Common.{Bool, true, false, List, Text}
use open_source.Common.Int.{ℤ}
use open_source.Common.GoTime.{Duration}
use open_source.Common.Float.{Float64}
use open_source.Address.Extractor.{IpExtractorStrategy}

pub data BotDetectionLevel : Type 0 where
  detection_none detection_low detection_medium detection_high : BotDetectionLevel

pub data BackendType : Type 0 where
  backend_memory backend_redis : BackendType

abbrev pub is_memory : BackendType → Bool
is_memory backend_memory = true
is_memory backend_redis = false

-- http.SameSite, as far as the program names its modes
pub data SameSite : Type 0 where
  same_site_lax same_site_strict same_site_none : SameSite

pub record Server : Type 0 where
  pub port : Text
  pub host : Text
  pub read_timeout : Duration
  pub write_timeout : Duration
  pub idle_timeout : Duration

module _ (fl : Float64) where
  open fl use {Float}

  pub record RateLimitConfig : Type 0 where
    pub requests_per_second : Float
    pub burst_size : ℤ
    pub window_size : Duration

  pub record PathLimit : Type 0 where
    pub prefix : Text
    pub config : RateLimitConfig
    pub priority : ℤ

  pub record Config : Type 0 where
    pub server : Server
    pub tls_cert_file : Text
    pub tls_key_file : Text
    pub requests_per_second : Float
    pub burst_size : ℤ
    pub block_duration : Duration
    pub max_block_duration : Duration
    pub bot_detection : BotDetectionLevel
    pub ip_strategy : IpExtractorStrategy
    pub trusted_proxies : List Text
    pub trusted_header : Text
    pub max_memory_mb : ℤ
    pub max_tracked_ips : ℤ
    pub cleanup_interval : Duration
    pub backend_type : BackendType
    pub redis_addr : Text
    pub redis_password : Text
    pub redis_db : ℤ
    pub redis_key_prefix : Text
    pub admin_auth_token : Text
    pub path_limits : List PathLimit
    pub user_id_header : Text
    pub trusted_user_id_header : Bool
    pub enable_ipv6_subnet_block : Bool
    pub ipv6_subnet_size : ℤ
    pub circuit_breaker_threshold : ℤ
    pub circuit_breaker_timeout : Duration
    pub circuit_breaker_max_probes : ℤ
    pub decay_interval : Duration
    pub structured_logging : Bool
    pub max_request_body_size : ℤ
    pub global_rate_limit : Float
    pub global_burst : ℤ
    pub global_window_size : Duration
    pub use_sliding_window : Bool
    pub sliding_window_size : Duration
    pub enable_jitter : Bool
    pub jitter_max_percent : Float
    pub exponential_backoff_base : Float
    pub strict_backend_errors : Bool
    pub distributed_attack_threshold : Float
    pub distributed_attack_window : Duration
    pub block_status_cookie_name : Text
    pub block_status_cookie_enabled : Bool
    pub cookie_secure : Bool
    pub cookie_same_site : SameSite
    pub cors_enabled : Bool
    pub cors_allowed_origins : List Text
    pub cors_allowed_methods : List Text
    pub cors_allowed_headers : List Text
    pub cors_max_age : ℤ
    pub health_enabled : Bool
    pub health_path : Text
    pub shutdown_timeout : Duration
    pub shutdown_drain_timeout : Duration
    pub additional_bot_signatures : List Text
