-- ===== src/Pipeline/Backends.antt =====
-- The interface Backend of middleware/base/types.go, as far as the pipeline calls it, and what it reads
-- of a request.
use open_source.Common.{ℕ, Bool, Option, Text}
use open_source.Common.Int.{ℤ}
use open_source.Common.GoTime.{Time, Duration}
use open_source.Common.Float.{Float64}

module _ (fl : Float64) where
  open fl use {Float}

  -- An operation gives the next state, and `none` for an error. The readings of the clock that an
  -- implementation makes are in its state.
  pub record BackendOps : Type 1 where
    pub State : Type 0
    pub allow_sliding_window : Text → ℤ → Duration → State → State × Option (Bool × Duration)
    pub block : Text → Duration → State → State × Option (Unit {0})
    pub is_key_blocked : Text → State → State × Option (Bool × Time)
    pub get_token_bucket : Text → State → State × Option Float
    pub get_sliding_window_count : Text → Duration → State → State × Option ℕ
    pub get_violation_count : Text → State → State × Option ℤ
    pub increment_violation : Text → State → State × Option ℤ

  -- What the pipeline reads of a request. A header that is not there is "".
  pub record Request : Type 0 where
    pub path : Text
    pub method : Text
    pub user_agent : Text
    pub header : Text → Text
    pub body : Option (Option ℕ)  -- none for no body, some none for one that cannot be read
    pub ip : Text  -- what the extractor and NormalizeIP make of its addresses
    pub valid_proxy : Bool  -- ProxyValidationFunc is nil, or accepts the request
