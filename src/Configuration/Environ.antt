-- ===== src/Configuration/Environ.antt =====
-- The environment variables of the process: middleware/helper/env.go. Packages os and strconv are an
-- argument.
use open_source.Common.{Bool, Option, none, some, if◌then◌else◌, Text, is_empty}
use open_source.Common.Int.{ℤ}
use open_source.Common.GoTime.{Duration}
use open_source.Common.Float.{Float64}

-- A variable that is not set is "". The functions of strconv and time.ParseDuration give none for
-- an error.
pub record Environ (fl : Float64) : Type 0 where
  pub getenv : Text → Text
  pub atoi : Text → Option ℤ
  pub parse_float : Text → Option fl.Float
  pub parse_bool : Text → Option Bool
  pub parse_duration : Text → Option Duration

module _ (fl : Float64) (os : Environ fl) where
  unfoldable pub get_env : Text → Text → Text
  get_env key default_val = let val = os.getenv key in if is_empty val then default_val else val

  -- What the other four have in common.
  unfoldable pub parsed_env : {A : Type 0} → (Text → Option A) → Text → A → A
  parsed_env parse key default_val =
      let val = os.getenv key in
      if is_empty val
      then default_val
      else elim (parse val) [ none ↦ default_val | some parsed ↦ parsed ]

  abbrev pub get_int_env : Text → ℤ → ℤ
  get_int_env = parsed_env os.atoi

  abbrev pub get_float_env : Text → fl.Float → fl.Float
  get_float_env = parsed_env os.parse_float

  abbrev pub get_bool_env : Text → Bool → Bool
  get_bool_env = parsed_env os.parse_bool

  abbrev pub get_duration_env : Text → Duration → Duration
  get_duration_env = parsed_env os.parse_duration
