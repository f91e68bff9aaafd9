-- ===== src/Registry/Api.antt =====
-- The types of middleware/base/admin.go and middleware/base/registery.go. A slice or a map that may be
-- nil is an Option, as a pointer is.
use open_source.Common.{ℕ, Bool, List, Option, Text}
use open_source.Common.Int.{ℤ}
use open_source.Common.GoTime.{Time, Duration}
use open_source.Common.Float.{Float64}

module _ (fl : Float64) where
  open fl use {Float}

  pub record RateLimits : Type 0 where
    pub requests_per_second : Float
    pub burst_size : ℤ
    pub window_size : Duration
    pub block_duration : Duration
    pub use_sliding_window : Bool

  pub record Endpoint : Type 0 where
    pub id : Text
    pub path : Text
    pub method : Text
    pub url_pattern : Text
    pub limits : RateLimits
    pub priority : ℤ
    pub enabled : Bool

  pub record ApiRegistration : Type 0 where
    pub id : Text
    pub service_id : Text
    pub name : Text
    pub description : Text
    pub upstream_url : Text
    pub base_path : Text
    pub endpoints : List Endpoint
    pub default_limits : RateLimits
    pub created_at : Time
    pub updated_at : Time
    pub created_by : Text
    pub status : Text
    pub tags : Option (List Text)
    pub metadata : Option (List (Text × Text))

  pub record ApiUpdateRequest : Type 0 where
    pub name : Text
    pub description : Text
    pub upstream_url : Text
    pub base_path : Text
    pub default_limits : Option RateLimits
    pub status : Text
    pub tags : Option (List Text)
    pub metadata : Option (List (Text × Text))

  pub record EndpointUpdateRequest : Type 0 where
    pub method : Text
    pub url_pattern : Text
    pub path : Text
    pub limits : Option RateLimits
    pub priority : ℤ
    pub enabled : Option Bool

  pub record ApiSummary : Type 0 where
    pub id : Text
    pub service_id : Text
    pub name : Text
    pub base_path : Text
    pub upstream_url : Text
    pub endpoint_count : ℕ
    pub status : Text
    pub created_at : Time

  pub record BulkImportRequest : Type 0 where
    pub apis : List ApiRegistration
    pub overwrite_existing : Bool

  -- What an event carries in its Data.
  pub data EventData : Type 0 where
    no_data : EventData
    of_api : ApiRegistration → EventData
    of_endpoint : Endpoint → EventData

  pub record RuleChangeEvent : Type 0 where
    pub kind : Text
    pub api_id : Text
    pub endpoint_id : Text
    pub timestamp : Time
    pub carried : EventData

  pub record ApiFilter : Type 0 where
    pub service_id : Text
    pub status : Text
    pub tags : List Text
    pub search : Text
    pub limit : ℤ
    pub offset : ℤ

  pub record CompiledRule : Type 0 where
    pub api_id : Text
    pub endpoint_id : Text
    pub service_id : Text
    pub path : Text
    pub method : Text
    pub requests_per_second : Float
    pub burst_size : ℤ
    pub window_size : Duration
    pub block_duration : Duration
    pub use_sliding_window : Bool
    pub priority : ℤ
    pub enabled : Bool
    pub upstream_url : Text
