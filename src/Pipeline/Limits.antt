-- ===== src/Pipeline/Limits.antt =====
-- The limits of a request and the length of a block: middleware/routing/middleware.go.
use open_source.Common.{
  ◌%◌, Bool, true, false, List, [], ◌∷◌, Option, none, some, if◌then◌else◌, ◌&&◌, ◌||◌, Text, codes,
  text_eq, is_empty, has_prefix,
}
use open_source.Common.Int.{ℤ, pos, ltb_ℤ, leb_ℤ, ◌+ℤ◌, sub_int32}
use open_source.Common.GoTime.{Time, Duration, unix_nano, until_or_zero}
use open_source.Common.Float.{Float64}
use open_source.Registry.Api.{CompiledRule}
use open_source.Configuration.Settings.{Config, PathLimit}
use open_source.Pipeline.Backends.{BackendOps, Request}

module _ (fl : Float64) where
  open fl use {Float, of_int, to_int, seconds, times, power, divide, greater}

  pub record Limits : Type 0 where
    pub rps : Float
    pub burst : ℤ
    pub window_size : Duration
    pub block_duration : Duration

  -- The first path limit whose prefix the path has.
  unfoldable pub static_limit : Text → List (PathLimit fl) → Option (PathLimit fl)
  static_limit path [] = none
  static_limit path (limit ∷ limits) =
      if has_prefix path limit.prefix then some limit else static_limit path limits

  abbrev if_positive : ℤ → ℤ → ℤ
  if_positive a b = if ltb_ℤ (pos 0) a then a else b

  unfoldable pub method_matches : Text → Text → Bool
  method_matches method rule_method =
      text_eq rule_method (codes "*") || (text_eq rule_method method || is_empty rule_method)

  unfoldable pub apply_rule : CompiledRule fl → Limits → Limits
  apply_rule rule l = record {
    rps =
        if greater rule.requests_per_second (of_int (pos 0))
        then rule.requests_per_second
        else l.rps;
    burst = if_positive rule.burst_size l.burst;
    window_size = if_positive rule.window_size l.window_size;
    block_duration = if_positive rule.block_duration l.block_duration;
  }

  -- The limits of the configuration, where no path limit and no rule has others.
  unfoldable pub default_limits : Config fl → Limits
  default_limits config = record {
    rps = config.requests_per_second;
    burst = config.burst_size;
    window_size = config.sliding_window_size;
    block_duration = config.block_duration;
  }

  -- `rule` is the rule of the registry for the path: none where there is no registry, an error, or
  -- the path is excluded.
  unfoldable pub get_rate_limits : Config fl → Option (CompiledRule fl) → Request fl → Limits
  unfolding static_limit method_matches apply_rule default_limits
  get_rate_limits config rule r =
      let defaults = default_limits config in
      elim (static_limit r.path config.path_limits) [
        | some limit ↦ record {
          rps = limit.config.requests_per_second;
          burst = limit.config.burst_size;
          window_size = if_positive limit.config.window_size defaults.window_size;
          block_duration = defaults.block_duration;
        }
        | none ↦ elim rule [
          | none ↦ defaults
          | some compiled ↦
              if method_matches r.method compiled.method
              then apply_rule compiled defaults
              else defaults
        ]
      ]

  -- The block that a count of violations earns, before the bound and the jitter.
  unfoldable pub backed_off : Config fl → (violations : ℤ) → Duration → Duration
  backed_off config violations base =
      let base' =
        if leb_ℤ base (pos 0) && leb_ℤ (pos 0) base then config.block_duration else base in
      let multiplier =
        power config.exponential_backoff_base (of_int (sub_int32 violations (pos 1))) in
      if ltb_ℤ (pos 1) violations then to_int (times (of_int base') multiplier) else base'

  unfoldable pub bounded : Config fl → Duration → Duration
  bounded config d =
      if ltb_ℤ (pos 0) config.max_block_duration && ltb_ℤ config.max_block_duration d
      then config.max_block_duration
      else d

  unfoldable pub jitter : Config fl → Time → Duration → Duration
  jitter config now d = to_int (
      times (times (of_int d) config.jitter_max_percent)
        (divide (of_int (pos (unix_nano now % 100))) (of_int (pos 100))))

  -- The int64 sums are taken not to overflow.
  unfoldable pub calculate_block_duration :
      Config fl → (violations : ℤ) → Duration → Time → Duration
  unfolding backed_off bounded jitter
  calculate_block_duration config violations base now =
      let d = bounded config (backed_off config violations base) in
      if config.enable_jitter then d +ℤ jitter config now d else d

module _ (fl : Float64) (ops : BackendOps fl) where
  open fl use {Float, to_int, seconds, times}
  open ops use {State}

  -- The limit that `allowRequest` hands to the backend.
  unfoldable pub window_limit : Float → ℤ → Duration → ℤ
  window_limit rps burst window_size =
      let limit = to_int (times rps (seconds window_size)) in
      if ltb_ℤ limit burst then burst else limit

  -- A refusal with no time to wait: the violation is counted, and the key blocked.
  unfoldable pub punish :
      Config fl → Text → Duration → Time → State → State × Option (Bool × Duration)
  unfolding calculate_block_duration
  punish config key block_duration now s =
      let (s', violations) = ops.increment_violation key s in
      let count : ℤ = elim violations [ none ↦ pos 0 | some n ↦ n ] in
      let duration = calculate_block_duration fl config count block_duration now in
      ((ops.block key duration s').0, some (false, duration))

  unfoldable pub allow_request :
      Config fl → Text → Limits fl → Time → State → State × Option (Bool × Duration)
  unfolding window_limit punish
  allow_request config key l now s =
      let (s', answer) =
        ops.allow_sliding_window key (window_limit l.rps l.burst l.window_size) l.window_size s in
      elim answer [
        | none ↦ (s', none)
        | some (allowed, retry_after) ↦
            if allowed
            then (s', some (true, retry_after))
            else if ltb_ℤ retry_after (pos 0) || ltb_ℤ (pos 0) retry_after
            then (s', some (false, retry_after))
            else punish config key l.block_duration now s'
      ]

  -- The time that a block still lasts, or none; an error counts as no block.
  unfoldable pub is_blocked : Text → Time → State → State × (Option Duration × Bool)
  is_blocked key now s =
      let (s', answer) = ops.is_key_blocked key s in
      elim answer [
        | none ↦ (s', (none, true))
        | some (blocked, blocked_until) ↦
            (s', (if blocked then some (until_or_zero now blocked_until) else none, false))
      ]

  unfoldable pub get_remaining_tokens : Text → State → State × Float
  get_remaining_tokens key s =
      let (s', answer) = ops.get_token_bucket key s in
      (s', elim answer [ none ↦ fl.of_int (pos 0) | some tokens ↦ tokens ])
