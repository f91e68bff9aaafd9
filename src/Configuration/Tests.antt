-- ===== src/Configuration/Tests.antt =====
-- Runs of the configuration of middleware/base/config.go and middleware/config/loader.go, with an
-- environment of no variables and no files.
use open_source.Common.{
  ◌≡◌, ◌↔◌, ◌≢◌, ◌*◌, ◌/◌, not, ◌||◌, to_lower, refl, Bool, false, List, [], ◌∷◌, none, some, arith,
  inl, inr, if◌then◌else◌, Text, codes, ◌++◌, is_empty, text_eq,
}
use open_source.Common.Int.{ℤ, pos, pos_part, mul_ℤ}
use open_source.Common.GoTime.{minutes, seconds}
use open_source.Common.Float.{Float64, whole}
use open_source.Configuration.Settings.{Config, PathLimit, backend_redis}
use open_source.Configuration.Validate.{SortSlice, validate}
use open_source.Configuration.Defaults.{default_config}
use open_source.Configuration.Accepted.{Acceptable, validate-accepts_iff}
use open_source.Configuration.Environ.{Environ, get_env}
use open_source.Configuration.Environment.{base_config}
use open_source.Configuration.Loader.{Files, not_exist, load_config, environment_name}
use open_source.Configuration.Loading.{on_redis, is_accepted, load_config-no_file}
use open_source.Configuration.Variables.{base_config-block_minutes}

module _ {fl : Float64} where
  abbrev insert_limit :
      (PathLimit fl → PathLimit fl → Bool)
      → PathLimit fl
      → List (PathLimit fl)
      → List (PathLimit fl)
  insert_limit less a [] = a ∷ []
  insert_limit less a (b ∷ l) =
      let rest = insert_limit less a l in if less a b then a ∷ b ∷ l else b ∷ rest

  abbrev insertion_sort : SortSlice fl
  insertion_sort less [] = []
  insertion_sort less (a ∷ l) = insert_limit less a (insertion_sort less l)

-- Numbers of tenths, where a fifth is above 0.
abbrev tenths : Float64
tenths = record {
  Float = ℤ;
  of_int = λ n. mul_ℤ n (pos 10);
  seconds = λ d. mul_ℤ (whole.seconds d) (pos 10);
  plus = whole.plus;
  minus = whole.minus;
  times = λ a b. pos (pos_part a * pos_part b / 10);
  fmin = whole.fmin;
  to_int = λ a. pos (pos_part a / 10);
  at_least = whole.at_least;
  greater = whole.greater;
  same = whole.same;
  power = whole.power;
  divide = λ a b. pos (10 * pos_part a / pos_part b);
}

abbrev no_variables : {fl : Float64} → Environ fl
no_variables = record {
  getenv = λ key. [];
  atoi = λ s. none;
  parse_float = λ s. none;
  parse_bool = λ s. none;
  parse_duration = λ s. none;
}

-- One variable, RATE_LIMIT_BLOCK_MINUTES, that reads as 15 minutes.
abbrev fifteen_minutes : Environ whole
fifteen_minutes = record (no_variables {fl = whole}) {
  getenv = λ key. if text_eq key (codes "RATE_LIMIT_BLOCK_MINUTES") then codes "15m" else [];
  parse_duration = λ s. some (minutes 15);
}

abbrev in_environment : Text → Files whole
in_environment name = record {
  environ = record (no_variables {fl = whole}) {
    getenv = λ key. if text_eq key (codes "ENV") then name else [];
  };
  read_file = λ path. not_exist;
  unmarshal = λ text. none;
  expand_env = λ s. s;
  trim_space = λ s. s;
  join = λ a b c. a ++ (b ++ c);
}

-- The defaults, with no interval to clean up in.
abbrev sloppy : Config whole
sloppy = record (default_config whole) { cleanup_interval = pos 0; shutdown_timeout = pos 0 }

validate_fills : ((validate whole insertion_sort sloppy).0).shutdown_timeout ≡ seconds 30
unfolding validate
validate_fills = refl

validate_refuses_redis :
    (validate whole insertion_sort (record sloppy { backend_type = backend_redis })).1 ≢ none
unfolding validate
validate_refuses_redis = ground arith

production_refused :
    is_accepted (load_config whole (in_environment (codes "production")) insertion_sort) ≡ false
unfolding load_config text_eq to_lower
production_refused = refl

validate-accepts_iff_example :
    ((validate whole insertion_sort sloppy).1 ≡ none) ↔ Acceptable whole sloppy
validate-accepts_iff_example = validate-accepts_iff whole insertion_sort sloppy

sloppy-Acceptable : Acceptable whole sloppy
sloppy-Acceptable = (refl, omega arith, omega arith, inr (omega arith), inl refl)

base_config-block_minutes_example : (base_config whole fifteen_minutes).block_duration ≢ minutes 15
unfolding text_eq
base_config-block_minutes_example =
    base_config-block_minutes whole fifteen_minutes 15 (omega arith) (omega arith) (ground arith)
      refl

load_config-no_file_example :
    is_accepted (load_config whole (in_environment (codes "staging")) insertion_sort) ≡ (
      not (
        on_redis whole (in_environment (codes "staging")) (
          environment_name whole (in_environment (codes "staging")) (
            get_env whole
              (in_environment (codes "staging")).environ
              (codes "ENV")
              (codes "development"))))
      || not (is_empty ((in_environment (codes "staging")).environ.getenv (codes "REDIS_ADDR"))))
load_config-no_file_example =
    load_config-no_file whole (in_environment (codes "staging")) insertion_sort refl refl
