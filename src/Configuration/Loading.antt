-- ===== src/Configuration/Loading.antt =====
-- Which configurations LoadConfig of middleware/config/loader.go accepts.
use open_source.Common.{
  ◌≡◌, refl, ap, sym, ◌∙◌, Option, Bool, true, false, [], ◌∷◌, none, some, arith, ◌||◌, not,
  if◌then◌else◌, Text, codes, text_eq, is_empty, Bool-cases, inl, inr,
}
use open_source.Common.Int.{◌≤ℤ◌, pos}
use open_source.Common.Float.{Float64}
use open_source.Configuration.Settings.{Config, is_memory}
use open_source.Configuration.Validate.{Refusal, SortSlice, validate, first_refusal}
use open_source.Configuration.Accepted.{has_backend, validate-no_backend, validate-passes}
use open_source.Configuration.Environ.{get_env}
use open_source.Configuration.Defaults.{default_config}
use open_source.Configuration.Files.{StoragePart, GlobalPart, EnvironmentConfig}
use open_source.Configuration.Presets.{get_default_config}
use open_source.Configuration.Convert.{
  to_base_config, storage_settings, global_settings, copied_settings,
}
use open_source.Configuration.Loader.{
  Files, not_exist, Outcome, load_failed, refused, accepted, environment_name, config_path,
  apply_env_overrides, judged, finish, go_on, load_config, load_environment_config-no_file,
}

abbrev pub is_accepted : {fl : Float64} → Outcome fl → Bool
is_accepted load_failed = false
is_accepted (refused why) = false
is_accepted (accepted c ec) = true

no_addr_or : (a b : Bool) → (a || not true || b) ≡ (a || b)
no_addr_or true b = refl
no_addr_or false b = refl

-- An address of Redis from the file, unless the environment has another.
backend_known :
    (on : Bool) (addr found : Text)
    → let v = if on then addr else [] in
      let found' = if is_empty found then [] else found in
      (not on || not (is_empty (if is_empty found' then v else found')))
      ≡ (not on || not (is_empty addr) || not (is_empty found))
backend_known on addr [] = ground arith
backend_known on addr (x ∷ found) = ground arith

module _ (fl : Float64) where
  -- The settings of the storage and of all requests leave the limits of a client as they are.
  storage_settings-limits :
      (s : StoragePart) (c : Config fl)
      → ((storage_settings fl s c).requests_per_second ≡ c.requests_per_second)
        × ((storage_settings fl s c).burst_size ≡ c.burst_size)
  unfolding storage_settings
  storage_settings-limits s c = ground arith

  storage_settings-backend :
      (s : StoragePart)
      → (is_memory (storage_settings fl s (default_config fl)).backend_type
          ≡ not (text_eq s.kind (codes "redis")))
        × ((storage_settings fl s (default_config fl)).redis_addr
            ≡ (if text_eq s.kind (codes "redis") then s.redis.addr else []))
  unfolding storage_settings
  storage_settings-backend s = elim (Bool-cases (text_eq s.kind (codes "redis"))) [
    | inl e ↦ rw e (refl, refl)
    | inr e ↦ rw e (ground arith)
  ]

  global_settings-kept :
      (g : GlobalPart fl) (c : Config fl)
      → ((global_settings fl g c).requests_per_second ≡ c.requests_per_second)
        × ((global_settings fl g c).burst_size ≡ c.burst_size)
        × ((global_settings fl g c).backend_type ≡ c.backend_type)
        × ((global_settings fl g c).redis_addr ≡ c.redis_addr)
  unfolding global_settings
  global_settings-kept g c = ground arith

module _ (fl : Float64) (fs : Files fl) where
  passes_of :
      (c : Config fl)
      → fl.at_least (fl.of_int (pos 0)) c.requests_per_second ≡ false
      → pos 1 ≤ℤ c.burst_size
      → pos 1 ≤ℤ c.block_duration
      → c.block_duration ≤ℤ c.max_block_duration
      → first_refusal fl c ≡ none
  unfolding first_refusal
  passes_of c r u b m = ground (arith, r)

  -- What the loader validates.
  abbrev final : EnvironmentConfig fl → Config fl
  final ec = apply_env_overrides fl fs (to_base_config fl ec)

  converted-passes :
      (ec : EnvironmentConfig fl)
      → fl.at_least (fl.of_int (pos 0)) (fl.of_int (pos 10)) ≡ false
      → pos 1 ≤ℤ ec.violation_handling.base_block_duration
      → ec.violation_handling.base_block_duration ≤ℤ ec.violation_handling.max_block_duration
      → first_refusal fl (final ec) ≡ none
  unfolding to_base_config copied_settings apply_env_overrides
  converted-passes ec h b m =
      let s = storage_settings fl ec.storage (default_config fl) in
      let (rate, burst) = storage_settings-limits fl ec.storage (default_config fl) in
      let kept = global_settings-kept fl ec.global_limits s in
      let rate' = kept.0 ∙ rate in
      let burst' = kept.1 ∙ burst in
      passes_of (final ec) (ap (fl.at_least (fl.of_int (pos 0))) rate' ∙ h)
        (rw burst' (omega arith)) b m

  -- Whether there is a place for the state: memory, or an address of Redis.
  converted-has_backend :
      (ec : EnvironmentConfig fl)
      → has_backend fl (final ec) ≡ (
          not (text_eq ec.storage.kind (codes "redis"))
          || not (is_empty ec.storage.redis.addr)
          || not (is_empty (fs.environ.getenv (codes "REDIS_ADDR"))))
  unfolding has_backend to_base_config copied_settings apply_env_overrides get_env
  converted-has_backend ec =
      let s = storage_settings fl ec.storage (default_config fl) in
      let (memory, addr) = storage_settings-backend fl ec.storage in
      let kept = global_settings-kept fl ec.global_limits s in
      rw (kept.2, kept.3, memory, addr)
        (backend_known (text_eq ec.storage.kind (codes "redis")) ec.storage.redis.addr
          (fs.environ.getenv (codes "REDIS_ADDR")))

  preset-passes :
      (name : Text)
      → fl.at_least (fl.of_int (pos 0)) (fl.of_int (pos 10)) ≡ false
      → first_refusal fl (final (get_default_config fl name)) ≡ none
  unfolding get_default_config
  preset-passes name h =
      converted-passes (get_default_config fl name) h (ground arith) (ground arith)

  abbrev pub on_redis : Text → Bool
  on_redis name = text_eq name (codes "production") || text_eq name (codes "staging")

  preset-storage :
      (name : Text)
      → (text_eq (get_default_config fl name).storage.kind (codes "redis") ≡ on_redis name)
        × (is_empty (get_default_config fl name).storage.redis.addr ≡ true)
  unfolding get_default_config text_eq
  preset-storage name = elim (Bool-cases (text_eq name (codes "production"))) [
    | inl e ↦ rw e (refl, refl)
    | inr e ↦ elim (Bool-cases (text_eq name (codes "staging"))) [
      | inl f ↦ rw (e, f) (refl, refl)
      | inr f ↦ rw (e, f) (refl, refl)
    ]
  ]

  judged-refused :
      (ec : EnvironmentConfig fl) (r : Config fl × Option Refusal) {why : Refusal}
      → r.1 ≡ some why
      → is_accepted (judged fl fs ec r) ≡ false
  unfolding judged
  judged-refused ec (c, none) e = absurd (ground (arith, e))
  judged-refused ec (c, some why) e = refl

  finish-accepted :
      (sort_slice : SortSlice fl) (ec : EnvironmentConfig fl)
      → first_refusal fl (final ec) ≡ none
      → is_accepted (finish fl fs sort_slice ec) ≡ has_backend fl (final ec)
  unfolding finish judged
  finish-accepted sort_slice ec h = elim (Bool-cases (has_backend fl (final ec))) [
    | inl b ↦
        ap (λ r. is_accepted (judged fl fs ec r)) (validate-passes fl sort_slice (final ec) h b)
        ∙ sym b
    | inr b ↦
        judged-refused ec (validate fl sort_slice (final ec))
          (validate-no_backend fl sort_slice (final ec) h b)
        ∙ sym b
  ]

  -- For an environment without a file, `LoadConfig` accepts the defaults of the environment exactly
  -- if they are not those of production or staging, or the variable REDIS_ADDR is set: those two
  -- want Redis and have no address of it. A float64 of 10 is taken to be above 0.
  pub load_config-no_file :
      (sort_slice : SortSlice fl)
      → fl.at_least (fl.of_int (pos 0)) (fl.of_int (pos 10)) ≡ false
      → let name =
          environment_name fl fs (get_env fl fs.environ (codes "ENV") (codes "development")) in
        fs.read_file (config_path fl fs name) ≡ not_exist
        → is_accepted (load_config fl fs sort_slice)
          ≡ (not (on_redis name) || not (is_empty (fs.environ.getenv (codes "REDIS_ADDR"))))
  unfolding load_config
  load_config-no_file sort_slice h missing =
      let name =
        environment_name fl fs (get_env fl fs.environ (codes "ENV") (codes "development")) in
      let ec = get_default_config fl name in
      let (kind, no_addr) = preset-storage name in
      ap (λ l. is_accepted (go_on fl fs sort_slice l))
        (load_environment_config-no_file fl fs
          (get_env fl fs.environ (codes "ENV") (codes "development")) missing)
      ∙ (finish-accepted sort_slice ec (preset-passes name h)
          ∙ converted-has_backend ec
          ∙ rw (kind, no_addr)
              (no_addr_or (not (on_redis name))
                (not (is_empty (fs.environ.getenv (codes "REDIS_ADDR"))))))
