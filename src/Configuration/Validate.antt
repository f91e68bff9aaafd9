-- ===== src/Configuration/Validate.antt =====
-- Validate of middleware/base/config.go. sort.Slice is an argument, since it is no stable sort.
use open_source.Common.{
  ◌*◌, Bool, false, ◌==◌, List, Option, none, some, if◌then◌else◌, ◌&&◌, not, Text, codes, is_empty,
}
use open_source.Common.Int.{ℤ, pos, negsuc, ltb_ℤ, leb_ℤ}
use open_source.Common.GoTime.{seconds, minutes, hours}
use open_source.Common.Float.{Float64}
use open_source.Configuration.Settings.{Config, PathLimit, is_memory}

-- The errors that wrap ErrInvalidConfig.
pub data Refusal : Type 0 where
  rate_not_positive burst_below_one block_not_positive max_block_below_block : Refusal
  redis_addr_missing : Refusal

abbrev pub is_zero : ℤ → Bool
is_zero (pos n) = n == 0
is_zero (negsuc n) = false

abbrev pub or_int : ℤ → ℤ → ℤ
or_int v d = if is_zero v then d else v

abbrev pub or_text : Text → Text → Text
or_text v d = if is_empty v then d else v

module _ (fl : Float64) where
  open fl use {Float, of_int, at_least, same, divide}

  abbrev pub or_float : Float → Float → Float
  or_float v d = if same v (of_int (pos 0)) then d else v

  -- `0.1`
  abbrev pub one_tenth : Float
  one_tenth = divide (of_int (pos 1)) (of_int (pos 10))

  -- The checks before the first default is filled in.
  unfoldable pub first_refusal : Config fl → Option Refusal
  first_refusal c =
      if at_least (of_int (pos 0)) c.requests_per_second
      then some rate_not_positive
      else if ltb_ℤ c.burst_size (pos 1)
      then some burst_below_one
      else if leb_ℤ c.block_duration (pos 0)
      then some block_not_positive
      else if ltb_ℤ (pos 0) c.max_block_duration && ltb_ℤ c.max_block_duration c.block_duration
      then some max_block_below_block
      else none

  unfoldable pub memory_defaults : Config fl → Config fl
  memory_defaults c = record c {
    cleanup_interval = if leb_ℤ c.cleanup_interval (pos 0) then minutes 5 else c.cleanup_interval;
    max_memory_mb = or_int c.max_memory_mb (pos 512);
    max_tracked_ips = or_int c.max_tracked_ips (pos 100000);
  }

  -- The defaults that follow the check of the Redis address.
  unfoldable pub other_defaults : Config fl → Config fl
  other_defaults c = record c {
    circuit_breaker_threshold = or_int c.circuit_breaker_threshold (pos 5);
    circuit_breaker_timeout = or_int c.circuit_breaker_timeout (seconds 30);
    circuit_breaker_max_probes = or_int c.circuit_breaker_max_probes (pos 1);
    decay_interval = or_int c.decay_interval (hours 1);
    redis_key_prefix = or_text c.redis_key_prefix (codes "ratelimit:");
    max_request_body_size = or_int c.max_request_body_size (pos (10 * 1024 * 1024));
    global_window_size = or_int c.global_window_size (minutes 1);
    sliding_window_size =
        if c.use_sliding_window && is_zero c.sliding_window_size
        then seconds 1
        else c.sliding_window_size;
    jitter_max_percent = or_float c.jitter_max_percent one_tenth;
    exponential_backoff_base = or_float c.exponential_backoff_base (of_int (pos 2));
    ipv6_subnet_size = or_int c.ipv6_subnet_size (pos 56);
    distributed_attack_threshold = or_float c.distributed_attack_threshold (of_int (pos 1000));
    distributed_attack_window = or_int c.distributed_attack_window (minutes 1);
    shutdown_timeout = or_int c.shutdown_timeout (seconds 30);
    shutdown_drain_timeout = or_int c.shutdown_drain_timeout (seconds 10);
    health_path = or_text c.health_path (codes "/health");
  }

-- sort.Slice with the given less.
abbrev pub SortSlice : Float64 → Type 0
SortSlice fl = (PathLimit fl → PathLimit fl → Bool) → List (PathLimit fl) → List (PathLimit fl)

module _ (fl : Float64) (sort_slice : SortSlice fl) where
  unfoldable pub by_priority : Config fl → Config fl
  by_priority c = record c {
    path_limits = sort_slice (λ a b. ltb_ℤ b.priority a.priority) c.path_limits;
  }

  -- The configuration is changed in place, also by a call that refuses it.
  unfoldable pub validate : Config fl → Config fl × Option Refusal
  unfolding first_refusal memory_defaults other_defaults by_priority
  validate c = elim (first_refusal fl c) [
    | some refusal ↦ (c, some refusal)
    | none ↦
        let c₁ = memory_defaults fl c in
        if not (is_memory c₁.backend_type) && is_empty c₁.redis_addr
        then (c₁, some redis_addr_missing)
        else (by_priority (other_defaults fl c₁), none)
  ]
