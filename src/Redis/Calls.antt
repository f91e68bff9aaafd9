-- ===== src/Redis/Calls.antt =====
-- Any sequence of calls of the backend of middleware/storage/redis/store.go, and its circuit breaker.
use open_source.Common.{
  ◌≡◌, refl, ap, ◌⊎◌, true, false, List, [], ◌∷◌, Option, none, some, arith, Text, Bool-cases, inl,
  inr,
}
use open_source.Common.Int.{ℤ, pos, ◌≤ℤ◌}
use open_source.Common.GoTime.{Time, Duration}
use open_source.Common.Float.{Float64}
use open_source.Breaker.{
  CircuitBreaker, state_closed, state_open, state_half_open, timed_out, allow, record_success,
  record_failure, release_probe,
}
use open_source.Breaker.Probes.{Idle}
use open_source.Redis.Commands.{Server}
use open_source.Redis.Store.{
  Record, success, failure, failure_and_success, nothing, note, Clock, Error, backend_unavailable,
  Result, Backend, guarded, allow_bucket, allow_sliding_window, block, is_key_blocked,
}
use open_source.Redis.Values.{
  get_token_bucket, set_token_bucket, get_sliding_window_count, get_violation_count,
  increment_violation, decay_violations,
}

-- The breaker after an admitted call.
abbrev ended : Record → Clock → CircuitBreaker → CircuitBreaker
ended end clock cb = release_probe (note end clock.failed (allow clock.admitted cb).0)

-- One probe is out while the breaker is half open, and none while it is not.
record Settled (cb : CircuitBreaker) : Type 0 where
  out :
      ((cb.state ≡ state_half_open) × (cb.half_open_reqs ≡ pos 1))
      ⊎ (((cb.state ≡ state_closed) ⊎ (cb.state ≡ state_open)) × (cb.half_open_reqs ≡ pos 0))
  some_allowed : pos 1 ≤ℤ cb.max_probes

allow-Settled :
    (now : Time) (cb : CircuitBreaker)
    → Idle cb
    → (allow now cb).1 ≡ true
    → Settled (allow now cb).0
unfolding allow
allow-Settled now cb h admitted = ground arith

record_failure-Settled :
    (now : Time) (cb : CircuitBreaker) → Settled cb → Settled (record_failure now cb)
unfolding record_failure
record_failure-Settled now cb h = ground arith

record_success-Settled : (cb : CircuitBreaker) → Settled cb → Settled (record_success cb)
unfolding record_success
record_success-Settled cb h = ground arith

release_probe-Idle : (cb : CircuitBreaker) → Settled cb → Idle (release_probe cb)
unfolding release_probe
release_probe-Idle cb h = ground arith

note-Settled :
    (end : Record) (now : Time) (cb : CircuitBreaker) → Settled cb → Settled (note end now cb)
unfolding note
note-Settled success now cb h = record_success-Settled cb h
note-Settled failure now cb h = record_failure-Settled now cb h
note-Settled failure_and_success now cb h =
    record_success-Settled (record_failure now cb) (record_failure-Settled now cb h)
note-Settled nothing now cb h = h

ended-Idle :
    (end : Record) (clock : Clock) (cb : CircuitBreaker)
    → Idle cb
    → (allow clock.admitted cb).1 ≡ true
    → Idle (ended end clock cb)
ended-Idle end clock cb h admitted =
    let admitted_cb = (allow clock.admitted cb).0 in
    release_probe-Idle (note end clock.failed admitted_cb)
      (note-Settled end clock.failed admitted_cb (allow-Settled clock.admitted cb h admitted))

refused-Idle :
    (now : Time) (cb : CircuitBreaker) → Idle cb → (allow now cb).1 ≡ false → Idle (allow now cb).0
unfolding allow
refused-Idle now cb h refused = ground arith

allow-open_shut :
    (now : Time) (cb : CircuitBreaker)
    → cb.state ≡ state_open
    → timed_out now cb ≡ false
    → allow now cb ≡ (cb, false)
unfolding allow
allow-open_shut now cb o t = ground (arith, o, t)

module _ (fl : Float64) (srv : Server fl) where
  open fl use {Float}

  module _ {A : Type 0} where
    guarded-Idle :
        (clock : Clock) (refused : A) (call : srv.State → srv.State × (Record × A))
        (b : Backend fl srv)
        → Idle b.circuit_breaker
        → Idle (guarded fl srv clock refused call b).0.circuit_breaker
    unfolding guarded
    guarded-Idle clock refused call b h =
        elim (Bool-cases (allow clock.admitted b.circuit_breaker).1) [
          | inl let_in ↦ rw let_in (ended-Idle (call b.server).1.0 clock b.circuit_breaker h let_in)
          | inr shut ↦ rw shut (refused-Idle clock.admitted b.circuit_breaker h shut)
        ]

    guarded-open :
        (clock : Clock) (refused : A) (call : srv.State → srv.State × (Record × A))
        (b : Backend fl srv)
        → b.circuit_breaker.state ≡ state_open
        → timed_out clock.admitted b.circuit_breaker ≡ false
        → guarded fl srv clock refused call b ≡ (b, refused)
    unfolding guarded
    guarded-open clock refused call b o t =
        rw (allow-open_shut clock.admitted b.circuit_breaker o t) refl

  -- The methods with their arguments.
  pub data Call : Type 0 where
    allow_call : Text → Float → ℤ → Duration → Call
    allow_sliding_window_call : Text → ℤ → Duration → Call
    block_call : Text → Duration → Call
    is_blocked_call get_token_bucket_call get_violation_count_call : Text → Call
    increment_violation_call : Text → Call
    set_token_bucket_call : Text → Float → Time → Call
    get_sliding_window_count_call : Text → Duration → Call
    decay_violations_call : List Text → Duration → Call

  abbrev error_of : {A : Type 0} → Backend fl srv × Result A → Backend fl srv × Option Error
  error_of (b, (a, e)) = (b, e)

  -- The backend after a call, and the error that the call returns.
  unfoldable pub perform : Clock → Call → Backend fl srv → Backend fl srv × Option Error
  perform clock (allow_call key rps burst size) b =
      error_of (allow_bucket fl srv clock key rps burst size b)
  perform clock (allow_sliding_window_call key limit size) b =
      error_of (allow_sliding_window fl srv clock key limit size b)
  perform clock (block_call key duration) b = block fl srv clock key duration b
  perform clock (is_blocked_call key) b = error_of (is_key_blocked fl srv clock key b)
  perform clock (get_token_bucket_call key) b = error_of (get_token_bucket fl srv clock key b)
  perform clock (get_violation_count_call key) b = error_of (get_violation_count fl srv clock key b)
  perform clock (increment_violation_call key) b = error_of (increment_violation fl srv clock key b)
  perform clock (set_token_bucket_call key tokens last_update) b =
      set_token_bucket fl srv clock key tokens last_update b
  perform clock (get_sliding_window_count_call key size) b =
      error_of (get_sliding_window_count fl srv clock key size b)
  perform clock (decay_violations_call keys interval) b =
      decay_violations fl srv clock keys interval b

  unfoldable pub perform_all : List (Clock × Call) → Backend fl srv → Backend fl srv
  perform_all [] b = b
  perform_all ((clock, call) ∷ calls) b = perform_all calls (perform clock call b).0

  perform-Idle :
      (clock : Clock) (call : Call) (b : Backend fl srv)
      → Idle b.circuit_breaker
      → Idle (perform clock call b).0.circuit_breaker
  unfolding perform allow_bucket allow_sliding_window block is_key_blocked get_token_bucket
      get_violation_count increment_violation set_token_bucket get_sliding_window_count
      decay_violations
  perform-Idle clock (allow_call key rps burst size) b h = guarded-Idle clock _ _ b h
  perform-Idle clock (allow_sliding_window_call key limit size) b h = guarded-Idle clock _ _ b h
  perform-Idle clock (block_call key duration) b h = guarded-Idle clock _ _ b h
  perform-Idle clock (is_blocked_call key) b h = guarded-Idle clock _ _ b h
  perform-Idle clock (get_token_bucket_call key) b h = guarded-Idle clock _ _ b h
  perform-Idle clock (get_violation_count_call key) b h = guarded-Idle clock _ _ b h
  perform-Idle clock (increment_violation_call key) b h = guarded-Idle clock _ _ b h
  perform-Idle clock (set_token_bucket_call key tokens last_update) b h = guarded-Idle clock _ _ b h
  perform-Idle clock (get_sliding_window_count_call key size) b h = guarded-Idle clock _ _ b h
  perform-Idle clock (decay_violations_call keys interval) b h = guarded-Idle clock _ _ b h

  -- From a breaker with no probe out and at least one allowed, calls of the methods that do not overlap
  -- leak no probe, whatever the server answers: after any number of them none is out again.
  pub perform_all-Idle :
      (calls : List (Clock × Call)) (b : Backend fl srv)
      → Idle b.circuit_breaker
      → Idle (perform_all calls b).circuit_breaker
  unfolding perform_all
  perform_all-Idle [] b h = h
  perform_all-Idle ((clock, call) ∷ calls) b h =
      perform_all-Idle calls (perform clock call b).0 (perform-Idle clock call b h)

  -- The error of a call that the breaker refuses. Two methods hide it.
  abbrev pub refusal_of : Call → Option Error
  refusal_of (get_violation_count_call key) = none
  refusal_of (decay_violations_call keys interval) = none
  refusal_of call = some backend_unavailable

  -- While the breaker is open and its timeout not over, no method reaches the server: each leaves the
  -- server and the breaker as they are, and returns the error that the backend is unavailable. But
  -- `GetViolationCount` and `DecayViolations` return no error.
  pub perform-open :
      (clock : Clock) (call : Call) (b : Backend fl srv)
      → b.circuit_breaker.state ≡ state_open
      → timed_out clock.admitted b.circuit_breaker ≡ false
      → perform clock call b ≡ (b, refusal_of call)
  unfolding perform allow_bucket allow_sliding_window block is_key_blocked get_token_bucket
      get_violation_count increment_violation set_token_bucket get_sliding_window_count
      decay_violations
  perform-open clock (allow_call key rps burst size) b o t =
      ap error_of (guarded-open clock _ _ b o t)
  perform-open clock (allow_sliding_window_call key limit size) b o t =
      ap error_of (guarded-open clock _ _ b o t)
  perform-open clock (block_call key duration) b o t = guarded-open clock _ _ b o t
  perform-open clock (is_blocked_call key) b o t = ap error_of (guarded-open clock _ _ b o t)
  perform-open clock (get_token_bucket_call key) b o t = ap error_of (guarded-open clock _ _ b o t)
  perform-open clock (get_violation_count_call key) b o t =
      ap error_of (guarded-open clock _ _ b o t)
  perform-open clock (increment_violation_call key) b o t =
      ap error_of (guarded-open clock _ _ b o t)
  perform-open clock (set_token_bucket_call key tokens last_update) b o t =
      guarded-open clock _ _ b o t
  perform-open clock (get_sliding_window_count_call key size) b o t =
      ap error_of (guarded-open clock _ _ b o t)
  perform-open clock (decay_violations_call keys interval) b o t = guarded-open clock _ _ b o t
