-- ===== src/Check.antt =====
-- The check endpoint: middleware/routing/check.go. A client of the SDK asks whether a request would
-- pass, and the handler answers without a place in a window being taken. Of the JSON only the decoded
-- request and the answer are kept; a rule of the registry is an argument, as in the pipeline.
pub mod Agrees
pub mod Reads
pub mod Tests
use open_source.Common.{
  Bool, true, false, List, Option, none, some, if◌then◌else◌, ◌&&◌, ◌||◌, ◌++◌, Text, codes,
  is_empty, lookup, to_lower,
}
use open_source.Common.Int.{ℤ, pos, ltb_ℤ, leb_ℤ, quot}
use open_source.Common.GoTime.{Time, Duration, sub}
use open_source.Common.Float.{Float64}
use open_source.Address.Extractor.{Net, normalize_ip}
use open_source.Registry.Api.{CompiledRule}
use open_source.Configuration.Settings.{
  Config, BotDetectionLevel, detection_none, detection_low, detection_medium, detection_high,
}
use open_source.Pipeline.Backends.{BackendOps}
use open_source.Pipeline.Limits.{
  Limits, static_limit, method_matches, apply_rule, default_limits, window_limit,
}
use open_source.Pipeline.Bots.{bot_signatures, find_signature}

pub record CheckRequest : Type 0 where
  pub service_id : Text
  pub endpoint : Text
  pub ip : Text
  pub user_id : Text
  pub headers : List (Text × Text)

pub record CheckResponse : Type 0 where
  pub allowed : Bool
  pub blocked : Bool
  pub block_remaining : ℤ
  pub retry_after : ℤ
  pub reason : Text

pub data Answer : Type 0 where
  invalid_body fields_missing backend_error panicked : Answer
  checked : CheckResponse → Answer

-- `headers[name]`
unfoldable pub header_of : List (Text × Text) → Text → Text
header_of headers name = elim (lookup name headers) [ none ↦ codes "" | some v ↦ v ]

-- `level >= DetectionMedium`
abbrev pub at_least_medium : BotDetectionLevel → Bool
at_least_medium detection_none = false
at_least_medium detection_low = false
at_least_medium detection_medium = true
at_least_medium detection_high = true

abbrev pub is_none : BotDetectionLevel → Bool
is_none detection_none = true
is_none detection_low = false
is_none detection_medium = false
is_none detection_high = false

-- What the user agent tells, in lower case.
unfoldable pub signature_check : Text → Option Text
unfolding find_signature
signature_check ua =
    if is_empty ua then some (codes "missing_user_agent") else find_signature ua bot_signatures

unfoldable pub headers_missing : List (Text × Text) → Bool
unfolding header_of
headers_missing headers =
    is_empty (header_of headers (codes "Accept"))
    || is_empty (header_of headers (codes "Accept-Language"))

module _ (fl : Float64) where
  open fl use {Float, to_int, seconds}

  unfoldable pub detect_bot : Config fl → List (Text × Text) → Option Text
  unfolding header_of signature_check headers_missing
  detect_bot config headers =
      if is_none config.bot_detection
      then none
      else elim (signature_check (to_lower (header_of headers (codes "User-Agent")))) [
        | some reason ↦ some reason
        | none ↦
            if at_least_medium config.bot_detection && headers_missing headers
            then some (codes "missing_standard_headers")
            else none
      ]

  -- The method is that of the call of the endpoint.
  unfoldable pub get_rate_limits :
      Config fl → Option (CompiledRule fl) → (path method : Text) → Limits fl
  unfolding static_limit method_matches apply_rule default_limits
  get_rate_limits config rule path method =
      let defaults = default_limits fl config in
      elim (static_limit fl path config.path_limits) [
        | some limit ↦ record defaults {
          rps = limit.config.requests_per_second;
          burst = limit.config.burst_size;
          window_size =
              if ltb_ℤ (pos 0) limit.config.window_size
              then limit.config.window_size
              else defaults.window_size;
        }
        | none ↦ elim rule [
          | none ↦ defaults
          | some compiled ↦
              if method_matches fl method compiled.method
              then apply_rule fl compiled defaults
              else defaults
        ]
      ]

  unfoldable pub key_of : Net → Config fl → CheckRequest → Text
  unfolding normalize_ip
  key_of net config req =
      if is_empty req.user_id
      then normalize_ip net req.ip config.enable_ipv6_subnet_block config.ipv6_subnet_size
      else codes "user:" ++ req.user_id

  -- `int(d.Seconds())`
  abbrev pub whole_secs : Duration → ℤ
  whole_secs d = to_int (seconds d)

  abbrev pub refusal : (blocked : Bool) (remaining retry_after : ℤ) (reason : Text) → Answer
  refusal blocked remaining retry_after reason = checked (record {
    allowed = false;
    blocked = blocked;
    block_remaining = remaining;
    retry_after = retry_after;
    reason = reason;
  })

  abbrev pub all_passed : Answer
  all_passed = checked (record {
    allowed = true;
    blocked = false;
    block_remaining = pos 0;
    retry_after = pos 0;
    reason = codes "";
  })

-- What the dry run finds; `divided_by_zero` is the panic of the division by the limit.
pub data DryRun : Type 0 where
  unreachable divided_by_zero allows : DryRun
  denies : (retry_after : Duration) → DryRun

module _ (fl : Float64) (ops : BackendOps fl) where
  open ops use {State}

  unfoldable pub check_limit_dry_run : Text → Limits fl → State → State × DryRun
  unfolding window_limit
  check_limit_dry_run key l s =
      let limit = window_limit fl ops l.rps l.burst l.window_size in
      let (s', answer) = ops.get_sliding_window_count key l.window_size s in
      elim answer [
        | none ↦ (s', unreachable)
        | some count ↦ (
          s',
          if leb_ℤ limit (pos count)
              then (if leb_ℤ limit (pos 0) && leb_ℤ (pos 0) limit
                  then divided_by_zero
                  else denies (quot l.window_size limit))
              else allows,
        )
      ]

  answer_of : DryRun → Answer
  answer_of unreachable = backend_error
  answer_of divided_by_zero = panicked
  answer_of allows = all_passed fl
  answer_of (denies retry_after) =
      refusal fl false (pos 0) (whole_secs fl retry_after) (codes "rate_limit_exceeded")

  -- The part of CheckRateLimit after the check for a block.
  unfoldable pub check_unblocked :
      Config fl
      → Option (CompiledRule fl)
      → (method key : Text) → CheckRequest
      → State
      → State × Answer
  unfolding detect_bot get_rate_limits check_limit_dry_run answer_of
  check_unblocked config rule method key req s = elim (detect_bot fl config req.headers) [
    | some reason ↦
        let secs = whole_secs fl config.block_duration in
        (s, refusal fl true secs secs (codes "bot_detected:" ++ reason))
    | none ↦
        let (s', found) =
          check_limit_dry_run key (get_rate_limits fl config rule req.endpoint method) s in
        (s', answer_of found)
  ]

  -- `now` is the reading of the clock for the rest of a block.
  unfoldable pub check_rate_limit :
      Net
      → Config fl
      → Option (CompiledRule fl)
      → (method : Text) → Time
      → Option CheckRequest
      → State
      → State × Answer
  unfolding key_of check_unblocked
  check_rate_limit net config rule method now none s = (s, invalid_body)
  check_rate_limit net config rule method now (some req) s =
      let key = key_of fl net config req in
      let (s', answer) = ops.is_key_blocked key s in
      if is_empty req.service_id || (is_empty req.endpoint || is_empty req.ip)
      then (s, fields_missing)
      else elim answer [
        | none ↦ (s', backend_error)
        | some (blocked, blocked_until) ↦
            let secs = whole_secs fl (sub blocked_until now) in
            let remaining = if ltb_ℤ secs (pos 0) then pos 0 else secs in
            if blocked
            then (s', refusal fl true remaining remaining (codes "ip_blocked"))
            else check_unblocked config rule method key req s'
      ]
