-- ===== src/Redis/Values.antt =====
-- The other methods of middleware/storage/redis/store.go: the token bucket, the count of a window and
-- the violations of a key.
use open_source.Common.{List, [], ◌∷◌, ◌++◌, Option, none, some, Text, codes}
use open_source.Common.Int.{ℤ, pos, int32_of, neg}
use open_source.Common.GoTime.{Time, Duration, add, unix}
use open_source.Common.Float.{Float64}
use open_source.Redis.Commands.{Command, Server}
use open_source.Redis.Scripts.{window_key, decay_script}
use open_source.Redis.Store.{
  Record, success, failure, failure_and_success, nothing, Clock, Error, backend_unavailable,
  server_error, Result, unix_milli, from_unix, Backend, guarded, recorded, run,
}

module _ (fl : Float64) (srv : Server fl) where
  open fl use {Float, of_int, seconds}
  open srv use {State}

  -- `toInt64` and `toFloat64` of a text; a text that does not parse is 0.
  unfoldable pub to_int64 : Text → ℤ
  to_int64 t = elim (srv.parse_int t) [ none ↦ pos 0 | some n ↦ n ]

  unfoldable pub to_float64 : Text → Float
  to_float64 t = elim (srv.parse_float t) [ none ↦ of_int (pos 0) | some x ↦ x ]

  bucket_values : List (Option Text) → Result (Float × Time)
  unfolding to_int64 to_float64
  bucket_values (some tokens ∷ some last_update ∷ rest) =
      ((to_float64 tokens, from_unix (to_int64 last_update)), none)
  bucket_values _ = ((of_int (pos 0), 0), none)

  unfoldable pub get_token_bucket :
      Clock → Text → Backend fl srv → Backend fl srv × Result (Float × Time)
  unfolding bucket_values
  get_token_bucket clock key b =
      guarded fl srv clock ((of_int (pos 0), 0), some backend_unavailable)
        (recorded fl srv
          (srv.hmget (b.key_prefix ++ key) (codes "tokens" ∷ codes "last_update" ∷ []))
          ((of_int (pos 0), 0), some server_error) bucket_values)
        b

  -- An error is recorded as a failure and then, as no error is, as a success.
  unfoldable pub recorded_twice : Command State (Unit {0}) → State → State × (Record × Option Error)
  recorded_twice m s =
      let (s', r) = m s in
      elim r [
        | none ↦ (s', (failure_and_success, some server_error))
        | some _ ↦ (s', (success, none))
      ]

  unfoldable pub set_token_bucket :
      Clock
      → Text
      → (tokens : Float) → (last_update : Time) → Backend fl srv
      → Backend fl srv × Option Error
  set_token_bucket clock key tokens last_update b =
      guarded fl srv clock (some backend_unavailable)
        (recorded_twice (
          srv.hset (b.key_prefix ++ key) (
            (codes "tokens", srv.show tokens)
            ∷ (codes "last_update", srv.format_int (pos (unix last_update)))
            ∷ [])))
        b

  -- A pipeline sends both commands, and its error is that of the first one that fails.
  unfoldable pub both : {A B : Type 0} → Command State A → Command State B → Command State (A × B)
  both m k s =
      let (s₁, a) = m s in
      let (s₂, b) = k s₁ in
      (s₂, elim a [ none ↦ none | some x ↦ elim b [ none ↦ none | some y ↦ some (x, y) ] ])

  unfoldable pub get_sliding_window_count :
      Clock → Text → Duration → Backend fl srv → Backend fl srv × Result ℤ
  unfolding both
  get_sliding_window_count clock key window_size b =
      let set = window_key fl srv (b.key_prefix ++ key) in
      let cutoff = unix_milli (add clock.called (neg window_size)) in
      guarded fl srv clock (pos 0, some backend_unavailable)
        (recorded fl srv
          (both (srv.zrem_range set (of_int (pos 0)) (of_int (pos cutoff))) (srv.zcard set))
          (pos 0, some server_error) (λ r. (r.1, none)))
        b

  -- Where the breaker refuses, the count is 0 and no error.
  unfoldable pub get_violation_count : Clock → Text → Backend fl srv → Backend fl srv × Result ℤ
  unfolding to_int64
  get_violation_count clock key b =
      guarded fl srv clock (pos 0, none)
        (λ s.
          let (s', r) = srv.hget (b.key_prefix ++ key) (codes "violations") s in
          elim r [
            | none ↦ (s', (failure, (pos 0, some server_error)))
            | some none ↦ (s', (nothing, (pos 0, none)))
            | some (some val) ↦ (s', (success, (int32_of (to_int64 val), none)))
          ])
        b

  unfoldable pub increment_violation : Clock → Text → Backend fl srv → Backend fl srv × Result ℤ
  unfolding both
  increment_violation clock key b =
      let hash = b.key_prefix ++ key in
      guarded fl srv clock (pos 0, some backend_unavailable)
        (recorded fl srv
          (both (srv.hincr_by hash (codes "violations") (pos 1)) (
            srv.hset hash
              ((codes "last_violation", srv.format_int (pos (unix clock.called))) ∷ [])))
          (pos 0, some server_error) (λ r. (int32_of r.0, none)))
        b

  -- The scripts are run one by one, and their errors are dropped.
  unfoldable pub decay_all : Text → (decay_secs now : Float) → List Text → State → State
  decay_all prefix decay_secs now [] s = s
  decay_all prefix decay_secs now (key ∷ keys) s =
      decay_all prefix decay_secs now keys
        (run fl srv (decay_script fl srv (prefix ++ key) decay_secs now) s).0

  unfoldable pub decay_violations :
      Clock
      → List Text
      → (decay_interval : Duration) → Backend fl srv
      → Backend fl srv × Option Error
  unfolding decay_all
  decay_violations clock keys decay_interval b =
      guarded fl srv clock none
        (λ s. recorded_twice srv.exec_empty (
          decay_all b.key_prefix (seconds decay_interval) (of_int (pos (unix clock.called))) keys
            s))
        b
