-- ===== src/Configuration/Variables.antt =====
-- What middleware/environment/defaults.go makes of the environment variables.
use open_source.Common.{
  ◌≡◌, refl, ◌<◌, ◌≢◌, ℕ, false, none, some, arith, Text, codes, is_empty, Bool-cases, inl, inr,
}
use open_source.Common.Int.{pos, wrap_int64, mul_int64}
use open_source.Common.GoTime.{minutes}
use open_source.Common.Float.{Float64}
use open_source.Configuration.Validate.{SortSlice, validate}
use open_source.Configuration.Accepted.{validate-accepts_iff}
use open_source.Configuration.Environ.{Environ, get_env, parsed_env}
use open_source.Configuration.Environment.{production_config, base_config, one_fifth}

module _ (fl : Float64) (os : Environ fl) (sort_slice : SortSlice fl) where
  get_env-nonempty :
      (key default_val : Text)
      → is_empty default_val ≡ false
      → is_empty (get_env fl os key default_val) ≡ false
  unfolding get_env
  get_env-nonempty key default_val h = elim (Bool-cases (is_empty (os.getenv key))) [
    | inl e ↦ ground (arith, e)
    | inr e ↦ ground (arith, e)
  ]

  -- `ProductionConfig` is a configuration that `Validate` accepts, whatever the environment variables
  -- are; a float64 of a fifth is taken to be above 0.
  production_config-accepted :
      fl.at_least (fl.of_int (pos 0)) (one_fifth fl os) ≡ false
      → (validate fl sort_slice (production_config fl os)).1 ≡ none
  unfolding production_config
  production_config-accepted h = (validate-accepts_iff fl sort_slice (production_config fl os)).1 (
    h,
    omega arith,
    omega arith,
    inr (omega arith),
    inr (get_env-nonempty (codes "REDIS_ADDR") (codes "localhost:6379") refl),
  )

-- The product of a Duration of minutes by a minute is an int64, and not that number of minutes.
minutes-wrapped : (k : ℕ) → 0 < k → k < 100000000 → mul_int64 (minutes k) (minutes 1) ≢ minutes k
unfolding wrap_int64
minutes-wrapped k p q h = ground arith

module _ (fl : Float64) (os : Environ fl) where
  -- A variable of the environment that gives a number of minutes as a Duration, such as "15m", makes
  -- another block than of these minutes, and so for every positive number of minutes below 10^8.
  pub base_config-block_minutes :
      (k : ℕ)
      → 0 < k
      → k < 100000000
      → is_empty (os.getenv (codes "RATE_LIMIT_BLOCK_MINUTES")) ≡ false
      → os.parse_duration (os.getenv (codes "RATE_LIMIT_BLOCK_MINUTES")) ≡ some (minutes k)
      → (base_config fl os).block_duration ≢ minutes k
  unfolding base_config parsed_env
  base_config-block_minutes k p q set parses h =
      minutes-wrapped k p q (ground (arith, set, parses, h))
