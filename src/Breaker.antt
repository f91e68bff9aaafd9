-- ===== src/Breaker.antt =====
-- The circuit breaker of middleware/base/cicuit_breaker.go. Each method is one function here, which
-- runs alone; Breaker/Machine.antt cuts `Allow` into its atomic steps. The names that the breaker
-- reports to its Metrics are the last part of a result.
pub mod Trips
pub mod Probes
pub mod Machine
mod Tests
use open_source.Common.{ℕ, Bool, true, false, List, [], ◌∷◌, if◌then◌else◌, not}
use open_source.Common.Int.{ℤ, pos, negsuc, leb_ℤ, ltb_ℤ, add_int32, ◌+ℤ◌, ◌-ℤ◌}
use open_source.Common.GoTime.{Time, Duration, sub, unix_nano, from_unix_nano}

pub data BreakerState : Type 0 where
  state_closed state_open state_half_open : BreakerState

pub record CircuitBreaker : Type 0 where
  pub failures : ℤ  -- int32
  pub last_failure : ℕ  -- int64, nanoseconds since 1970
  pub threshold : ℤ  -- int32
  pub timeout : Duration
  pub state : BreakerState
  pub half_open_reqs : ℤ  -- int32
  pub max_probes : ℤ  -- int32

unfoldable pub new_circuit_breaker : ℤ → Duration → ℤ → CircuitBreaker
new_circuit_breaker threshold timeout max_probes = record {
  failures = pos 0;
  last_failure = 0;
  threshold = threshold;
  timeout = timeout;
  state = state_closed;
  half_open_reqs = pos 0;
  max_probes = if leb_ℤ max_probes (pos 0) then pos 1 else max_probes;
}

-- `time.Since(time.Unix(0, lastFail)) > cb.timeout`
unfoldable pub timed_out : Time → CircuitBreaker → Bool
timed_out now cb = ltb_ℤ cb.timeout (sub now (from_unix_nano cb.last_failure))

-- The loop at the end of `Allow`: alone, its first swap succeeds.
unfoldable pub take_probe : CircuitBreaker → CircuitBreaker × Bool
take_probe cb =
    if leb_ℤ cb.max_probes cb.half_open_reqs
    then (cb, false)
    else (record cb { half_open_reqs = add_int32 cb.half_open_reqs (pos 1) }, true)

allow_in : BreakerState → Time → CircuitBreaker → CircuitBreaker × Bool
unfolding timed_out take_probe
allow_in state_closed now cb = (cb, true)
allow_in state_open now cb =
    if timed_out now cb
    then take_probe (record cb { state = state_half_open; half_open_reqs = pos 0 })
    else (cb, false)
allow_in state_half_open now cb = take_probe cb

unfoldable pub allow : Time → CircuitBreaker → CircuitBreaker × Bool
unfolding allow_in
allow now cb = allow_in cb.state now cb

success_in : BreakerState → CircuitBreaker → CircuitBreaker
success_in state_half_open cb = record cb { state = state_closed; half_open_reqs = pos 0 }
success_in state_closed cb = cb
success_in state_open cb = cb

unfoldable pub record_success : CircuitBreaker → CircuitBreaker
unfolding success_in
record_success cb = success_in cb.state (record cb { failures = pos 0 })

unfoldable pub record_failure : Time → CircuitBreaker → CircuitBreaker
record_failure now cb =
    let count = add_int32 cb.failures (pos 1) in
    let noted = record cb { last_failure = unix_nano now; failures = count } in
    if leb_ℤ cb.threshold count
    then record noted { state = state_open; half_open_reqs = pos 0 }
    else noted

release_in : BreakerState → CircuitBreaker → CircuitBreaker
release_in state_half_open cb = record cb {
  half_open_reqs = add_int32 cb.half_open_reqs (negsuc 0);
}
release_in state_closed cb = cb
release_in state_open cb = cb

unfoldable pub release_probe : CircuitBreaker → CircuitBreaker
unfolding release_in
release_probe cb = release_in cb.state cb
