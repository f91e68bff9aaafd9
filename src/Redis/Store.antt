-- ===== src/Redis/Store.antt =====
-- Backend of middleware/storage/redis/store.go. Each method asks the circuit breaker, calls the server,
-- records how the call ended and releases its probe. The readings of the clock are arguments.
use open_source.Common.{
  ℕ, ◌*◌, ◌-◌, ◌/◌, Bool, true, false, List, [], ◌∷◌, ◌++◌, Option, none, some, if◌then◌else◌, Text,
  codes,
}
use open_source.Common.Int.{ℤ, pos, negsuc, leb_ℤ, mul_ℤ, mul_int64, quot}
use open_source.Common.GoTime.{Time, Duration, add, unix, second, unix_epoch, before, minutes}
use open_source.Common.Float.{Float64}
use open_source.Breaker.{CircuitBreaker, allow, record_success, record_failure, release_probe}
use open_source.Redis.Commands.{Command, ◌>>◌, Server}
use open_source.Redis.Scripts.{allow_script, allow_sliding_script, block_script}

-- What a method records of a call. SetTokenBucket and DecayViolations record a success after the
-- failure, too.
pub data Record : Type 0 where
  success failure failure_and_success nothing : Record

unfoldable pub note : Record → Time → CircuitBreaker → CircuitBreaker
note success now cb = record_success cb
note failure now cb = record_failure now cb
note failure_and_success now cb = record_success (record_failure now cb)
note nothing now cb = cb

-- The readings of the clock in a call: in `Allow`, in the method and in `RecordFailure`.
pub record Clock : Type 0 where
  pub admitted : Time
  pub called : Time
  pub failed : Time

pub data Error : Type 0 where
  backend_unavailable server_error invalid_response invalid_timestamp : Error

-- The values of a call beside its error.
abbrev pub Result : Type 0 → Type 0
Result A = A × Option Error

-- `t.Unix()` and `t.UnixMilli()`, for an instant since 1970
abbrev pub unix_milli : Time → ℕ
unix_milli t = t / 1000000 - unix_epoch * 1000

-- `time.Unix(n, 0)`
abbrev pub from_unix : ℤ → Time
from_unix n = add (unix_epoch * second) (mul_ℤ n (pos second))

module _ (fl : Float64) (srv : Server fl) where
  open fl use {Float, of_int, to_int, seconds, at_least}
  open srv use {State}

  pub record Backend : Type 0 where
    pub server : State
    pub circuit_breaker : CircuitBreaker
    pub key_prefix : Text
    pub default_window_secs : ℤ

  -- The call of NewBackend is given a client; NewBackend itself pings its server first.
  unfoldable pub new_backend_with_client : State → CircuitBreaker → Text → Duration → Backend
  new_backend_with_client server cb key_prefix default_window = record {
    server = server;
    circuit_breaker = cb;
    key_prefix = key_prefix;
    default_window_secs = to_int (seconds default_window);
  }

  -- The frame of each method: `refused` is its answer where the breaker does not admit the call.
  unfoldable pub guarded :
      {A : Type 0} → Clock → A → (State → State × (Record × A)) → Backend → Backend × A
  unfolding note
  guarded clock refused call b =
      let (cb, admitted) = allow clock.admitted b.circuit_breaker in
      let (server, (end, answer)) = call b.server in
      if admitted
      then (
        record b { server = server; circuit_breaker = release_probe (note end clock.failed cb) },
        answer,
      )
      else (record b { circuit_breaker = cb }, refused)

  -- A call of the server that records a success, or a failure with the answer `failed`.
  unfoldable pub recorded :
      {A B : Type 0} → Command State A → B → (A → B) → State → State × (Record × B)
  recorded m failed answer s =
      let (s', r) = m s in
      elim r [ none ↦ (s', (failure, failed)) | some a ↦ (s', (success, answer a)) ]

  -- A script, called with `Run`.
  abbrev pub run : {A : Type 0} → Command State A → Command State A
  run script = srv.deliver >> script

  -- The two numbers of an answer: the status and the time to wait.
  unfoldable pub two_numbers : List ℤ → Option (ℤ × ℤ)
  two_numbers [] = none
  two_numbers (status ∷ []) = none
  two_numbers (status ∷ retry_after ∷ rest) = some (status, retry_after)

  abbrev pub is_int : ℤ → ℤ → Bool
  is_int a b = if leb_ℤ a b then leb_ℤ b a else false

  abbrev pub secs : ℤ → Duration
  secs n = mul_int64 n (pos second)

  unfoldable pub bucket_answer : List ℤ → Result (Bool × Duration)
  unfolding two_numbers
  bucket_answer values = elim (two_numbers values) [
    | none ↦ ((false, pos 0), some invalid_response)
    | some (status, retry_after) ↦
        if is_int status (negsuc 0)
        then ((false, secs retry_after), none)
        else ((is_int status (pos 1), pos 0), none)
  ]

  unfoldable pub allow_bucket :
      Clock
      → Text
      → (rps : Float) → (burst : ℤ) → Duration
      → Backend
      → Backend × Result (Bool × Duration)
  unfolding bucket_answer
  allow_bucket clock key rps burst window_size b =
      let asked = seconds window_size in
      let window =
        if at_least (of_int (pos 0)) asked then of_int b.default_window_secs else asked in
      guarded clock ((false, pos 0), some backend_unavailable)
        (recorded
          (run (
            allow_script fl srv (b.key_prefix ++ key) rps (of_int burst)
              (of_int (pos (unix clock.called))) window))
          ((false, pos 0), some server_error) bucket_answer)
        b

  unfoldable pub sliding_answer : List ℤ → Result (Bool × Duration)
  unfolding two_numbers
  sliding_answer values = elim (two_numbers values) [
    | none ↦ ((false, pos 0), some invalid_response)
    | some (status, retry_after) ↦ ((is_int status (pos 1), secs retry_after), none)
  ]

  unfoldable pub allow_sliding_window :
      Clock → Text → (limit : ℤ) → Duration → Backend → Backend × Result (Bool × Duration)
  unfolding sliding_answer
  allow_sliding_window clock key limit window_size b =
      guarded clock ((false, pos 0), some backend_unavailable)
        (recorded
          (run (
            allow_sliding_script fl srv (b.key_prefix ++ key) (of_int limit)
              (of_int (quot window_size (pos 1000000))) (of_int (pos (unix_milli clock.called)))))
          ((false, pos 0), some server_error) sliding_answer)
        b

  unfoldable pub block : Clock → Text → Duration → Backend → Backend × Option Error
  block clock key duration b =
      guarded clock (some backend_unavailable)
        (recorded
          (run (
            block_script fl srv (b.key_prefix ++ key) (seconds duration)
              (of_int (pos (unix clock.called))) (of_int b.default_window_secs)))
          (some server_error) (λ _. none))
        b

  -- The answer of IsBlocked for a value of the server. A missing value records nothing.
  unfoldable pub blocked_answer : Time → Option Text → Record × Result (Bool × Time)
  blocked_answer now none = (nothing, ((false, 0), none))
  blocked_answer now (some val) = elim (srv.parse_int val) [
    | none ↦ (success, ((true, 0), some invalid_timestamp))
    | some n ↦ (success, ((before now (from_unix n), from_unix n), none))
  ]

  unfoldable pub blocked_read :
      Time → State × Option (Option Text) → State × (Record × Result (Bool × Time))
  unfolding blocked_answer
  blocked_read now (s, none) = (s, (failure, ((true, 0), some server_error)))
  blocked_read now (s, some val) = (s, blocked_answer now val)

  unfoldable pub is_key_blocked : Clock → Text → Backend → Backend × Result (Bool × Time)
  unfolding blocked_read
  is_key_blocked clock key b =
      guarded clock ((true, add clock.called (minutes 1)), some backend_unavailable)
        (λ s. blocked_read clock.called (srv.hget (b.key_prefix ++ key) (codes "blocked_until") s))
        b
