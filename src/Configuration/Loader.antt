-- ===== src/Configuration/Loader.antt =====
-- middleware/config/loader.go: from a file, or the defaults of an environment, to a configuration.
use open_source.Common.{
  ◌≡◌, ap, Option, none, some, if◌then◌else◌, ◌++◌, Text, codes, is_empty, to_lower,
}
use open_source.Common.Float.{Float64}
use open_source.Configuration.Settings.{Config}
use open_source.Configuration.Validate.{Refusal, SortSlice, validate}
use open_source.Configuration.Environ.{Environ, get_env}
use open_source.Configuration.Presets.{get_default_config}
use open_source.Configuration.Convert.{to_base_config}
use open_source.Configuration.Files.{EnvironmentConfig}

pub data FileRead : Type 0 where
  not_exist unreadable : FileRead
  contents : Text → FileRead

-- Packages os, filepath, strings and yaml, as far as the loader calls them.
pub record Files (fl : Float64) : Type 0 where
  pub environ : Environ fl
  pub read_file : Text → FileRead
  pub unmarshal : Text → Option (EnvironmentConfig fl)
  pub expand_env : Text → Text  -- os.ExpandEnv
  pub trim_space : Text → Text  -- strings.TrimSpace
  pub join : Text → Text → Text → Text  -- filepath.Join of three parts

pub data Loaded (fl : Float64) : Type 0 where
  read_failed parse_failed : Loaded fl
  loaded : EnvironmentConfig fl → Loaded fl

pub data Outcome (fl : Float64) : Type 0 where
  load_failed : Outcome fl
  refused : Refusal → Outcome fl
  accepted : Config fl → EnvironmentConfig fl → Outcome fl

module _ (fl : Float64) (fs : Files fl) where
  unfoldable pub expand_env_vars : EnvironmentConfig fl → EnvironmentConfig fl
  expand_env_vars c = record c {
    security = record c.security { admin_auth_token = fs.expand_env c.security.admin_auth_token };
    storage = record c.storage {
      redis = record c.storage.redis {
        addr = fs.expand_env c.storage.redis.addr;
        password = fs.expand_env c.storage.redis.password;
      };
    };
  }

  -- The name of an environment as it is looked up.
  unfoldable pub environment_name : Text → Text
  environment_name env =
      to_lower (fs.trim_space (if is_empty env then codes "development" else env))

  unfoldable pub config_path : Text → Text
  unfolding get_env
  config_path name =
      fs.join (get_env fl fs.environ (codes "CONFIG_DIR") (codes "config")) (codes "environments")
        (name ++ codes ".yaml")

  -- What the reading of the file of the environment leads to.
  from_file : Text → FileRead → Loaded fl
  unfolding expand_env_vars get_default_config
  from_file name not_exist = loaded (get_default_config fl name)
  from_file name unreadable = read_failed
  from_file name (contents text) = elim (fs.unmarshal text) [
    | none ↦ parse_failed
    | some c ↦ loaded (record (expand_env_vars c) { environment = name })
  ]

  unfoldable pub load_environment_config : Text → Loaded fl
  unfolding environment_name config_path from_file
  load_environment_config env =
      let name = environment_name env in from_file name (fs.read_file (config_path name))

  unfoldable pub apply_env_overrides : Config fl → Config fl
  unfolding get_env
  apply_env_overrides cfg =
      let override = λ (key : Text) (v : Text).
        let found = get_env fl fs.environ key (codes "") in if is_empty found then v else found in
      record cfg {
        admin_auth_token = override (codes "ADMIN_AUTH_TOKEN") cfg.admin_auth_token;
        redis_addr = override (codes "REDIS_ADDR") cfg.redis_addr;
        redis_password = override (codes "REDIS_PASSWORD") cfg.redis_password;
      }

  unfoldable pub judged : EnvironmentConfig fl → Config fl × Option Refusal → Outcome fl
  judged ec (cfg, some why) = refused why
  judged ec (cfg, none) = accepted cfg ec

  -- The steps of LoadConfig after the file.
  unfoldable pub finish : SortSlice fl → EnvironmentConfig fl → Outcome fl
  unfolding to_base_config apply_env_overrides validate judged
  finish sort_slice ec =
      judged ec (validate fl sort_slice (apply_env_overrides (to_base_config fl ec)))

  unfoldable pub go_on : SortSlice fl → Loaded fl → Outcome fl
  unfolding finish
  go_on sort_slice read_failed = load_failed
  go_on sort_slice parse_failed = load_failed
  go_on sort_slice (loaded ec) = finish sort_slice ec

  unfoldable pub load_config : SortSlice fl → Outcome fl
  unfolding load_environment_config go_on
  load_config sort_slice =
      go_on sort_slice
        (load_environment_config (get_env fl fs.environ (codes "ENV") (codes "development")))

  -- Without a file, the defaults of the environment go on.
  pub load_environment_config-no_file :
      (env : Text)
      → fs.read_file (config_path (environment_name env)) ≡ not_exist
      → load_environment_config env ≡ loaded (get_default_config fl (environment_name env))
  unfolding load_environment_config
  load_environment_config-no_file env missing = ap (from_file (environment_name env)) missing
