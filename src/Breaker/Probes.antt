-- ===== src/Breaker/Probes.antt =====
-- The count of probes in flight, between whole calls of the methods.
use open_source.Common.{◌≡◌, ap, ◌∙◌, true, arith}
use open_source.Common.Int.{pos, ◌≤ℤ◌, add_int32}
use open_source.Common.GoTime.{Time}
use open_source.Breaker.{
  state_closed, state_open, state_half_open, CircuitBreaker, timed_out, allow, record_failure,
  release_probe,
}

-- No probe is out, and at least one may be.
pub record Idle (cb : CircuitBreaker) : Type 0 where
  pub none_out : cb.half_open_reqs ≡ pos 0
  pub some_allowed : pos 1 ≤ℤ cb.max_probes

record_failure-trips :
    (now : Time) (cb : CircuitBreaker)
    → cb.threshold ≤ℤ add_int32 cb.failures (pos 1)
    → ((record_failure now cb).state ≡ state_open)
      × ((record_failure now cb).max_probes ≡ cb.max_probes)
unfolding record_failure
record_failure-trips now cb h = ground arith

allow-probe :
    (now : Time) (cb : CircuitBreaker)
    → cb.state ≡ state_open
    → timed_out now cb ≡ true
    → cb.max_probes ≡ pos 1
    → allow now cb ≡ (record cb { state = state_half_open; half_open_reqs = pos 1 }, true)
unfolding allow
allow-probe now cb s out one = ground arith

allow-after_release :
    (now : Time) (cb : CircuitBreaker)
    → cb.max_probes ≡ pos 1
    → let third = record cb { state = state_half_open; half_open_reqs = pos 1 } in
      (allow now (release_probe third)).1 ≡ true
unfolding allow release_probe
allow-after_release now cb one = ground arith

-- Calls that overlap let more probes out than the maximum. With one probe allowed, let a call be
-- admitted while the breaker is closed and no probe is out, and let the failure of a second call
-- trip it. After the timeout a third call is admitted as the only probe; the deferred release of
-- the first call then takes that probe off the count, and a fourth call is admitted beside the
-- third.
pub two_probes_of_one :
    (failed_at now : Time) (cb : CircuitBreaker)
    → Idle cb
    → cb.max_probes ≡ pos 1
    → cb.state ≡ state_closed
    → cb.threshold ≤ℤ add_int32 cb.failures (pos 1)
    → timed_out now (record_failure failed_at cb) ≡ true
    → let third = allow now (record_failure failed_at cb) in
      let fourth = allow now (release_probe third.0) in
      ((allow failed_at cb).1 ≡ true) × (third.1 ≡ true) × (fourth.1 ≡ true)
unfolding allow
two_probes_of_one failed_at now cb h one s t out =
    let (opened, same) = record_failure-trips failed_at cb t in
    let limit : (record_failure failed_at cb).max_probes ≡ pos 1 = same ∙ one in
    let probe = allow-probe now (record_failure failed_at cb) opened out limit in
    (
      ground arith,
      ap (λ r. r.1) probe,
      rw probe (allow-after_release now (record_failure failed_at cb) limit),
    )
