-- ===== src/Configuration/Files.antt =====
-- EnvironmentConfig of middleware/config/loader.go: what a file of middleware/config/environments
-- holds. A struct without a name that it nests is a record here, or fields of the outer one.
use open_source.Common.{Bool, List, Option, Text}
use open_source.Common.Int.{ℤ}
use open_source.Common.GoTime.{Duration}
use open_source.Common.Float.{Float64}

pub record ServerPart : Type 0 where
  pub port : Text
  pub host : Text
  pub read_timeout : Duration
  pub write_timeout : Duration
  pub idle_timeout : Duration
  pub max_header_bytes : ℤ
  pub structured_logging : Bool

pub record TlsPart : Type 0 where
  pub enabled : Bool
  pub cert_file : Text
  pub key_file : Text

pub record RedisPart : Type 0 where
  pub addr : Text
  pub password : Text
  pub db : ℤ
  pub pool_size : ℤ
  pub min_idle_conns : ℤ
  pub max_retries : ℤ
  pub dial_timeout : Duration
  pub read_timeout : Duration
  pub write_timeout : Duration

pub record StoragePart : Type 0 where
  pub kind : Text  -- Type
  pub redis : RedisPart
  pub max_tracked_ips : ℤ  -- of Memory, with the next two
  pub max_memory_mb : ℤ
  pub cleanup_interval : Duration

pub record SecurityPart : Type 0 where
  pub ip_strategy : Text
  pub trusted_proxies : List Text
  pub trusted_header : Text
  pub enable_ipv6_subnet : Bool
  pub ipv6_subnet_size : ℤ
  pub trusted_user_id_header : Bool
  pub user_id_header : Text
  pub admin_auth_token : Text

pub record BreakerPart : Type 0 where
  pub threshold : ℤ
  pub timeout : Duration
  pub max_probes : ℤ

pub record CookiePart : Type 0 where
  pub enabled : Bool
  pub name : Text
  pub secure : Bool
  pub same_site : Text

pub record CorsPart : Type 0 where
  pub enabled : Bool
  pub allowed_origins : List Text
  pub allowed_methods : List Text
  pub allowed_headers : List Text
  pub max_age : ℤ

pub record MetricsPart : Type 0 where
  pub enabled : Bool
  pub prometheus_enabled : Bool
  pub prometheus_path : Text
  pub prometheus_port : Text

pub record HealthPart : Type 0 where
  pub enabled : Bool
  pub path : Text
  pub interval : Duration

module _ (fl : Float64) where
  open fl use {Float}

  pub record GlobalPart : Type 0 where
    pub enabled : Bool
    pub requests_per_second : Float
    pub burst_size : ℤ
    pub window_size : Duration
    pub distributed_attack_threshold : Float
    pub distributed_attack_window : Duration

  pub record ViolationPart : Type 0 where
    pub base_block_duration : Duration
    pub max_block_duration : Duration
    pub exponential_backoff_base : Float
    pub enable_jitter : Bool
    pub jitter_max_percent : Float
    pub decay_interval : Duration
    pub decay_rate : Float

  pub record ServiceTemplate : Type 0 where
    pub requests_per_second : Float
    pub burst_size : ℤ
    pub window_size : Duration
    pub block_duration : Duration
    pub description : Text

  pub record EnvironmentConfig : Type 0 where
    pub environment : Text
    pub server : ServerPart
    pub tls : TlsPart
    pub storage : StoragePart
    pub global_limits : GlobalPart
    pub security : SecurityPart
    pub bot_level : Text  -- of BotDetection, with the next one
    pub additional_signatures : List Text
    pub circuit_breaker : BreakerPart
    pub violation_handling : ViolationPart
    pub default_algorithm : Text  -- of RateLimiting, with the next two
    pub sliding_window_size : Duration
    pub strict_backend_errors : Bool
    pub log_level : Text  -- of Logging, with the next two
    pub log_structured : Bool
    pub include_fields : List Text
    pub metrics : MetricsPart
    pub client_cookies : CookiePart
    pub cors : CorsPart
    pub health : HealthPart
    pub shutdown_timeout : Duration
    pub drain_timeout : Duration
    pub service_templates : Option (List (Text × ServiceTemplate))  -- a map, or nil
