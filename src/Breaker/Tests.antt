-- ===== src/Breaker/Tests.antt =====
-- Runs of the breaker of middleware/base/cicuit_breaker.go, and the theorems on them.
use open_source.Common.{ℕ, ◌+◌, ◌≡◌, refl, true, List, [], ◌∷◌, arith, length}
use open_source.Common.Int.{pos}
use open_source.Common.GoTime.{Time}
use open_source.Breaker.{
  state_closed, state_open, state_half_open, CircuitBreaker, new_circuit_breaker, timed_out, allow,
  record_failure, release_probe,
}
use open_source.Breaker.Trips.{fail_at, Failed, fail_at-Failed}
use open_source.Breaker.Probes.{Idle, two_probes_of_one}
use open_source.Breaker.Machine.{
  Pc, load_state, run, admitted, all_probing, Probing, overtaking, run-Probing, both_admitted,
}

-- January 2 of 2026, 00:00 UTC.
abbrev noon : Time
noon = 63902908800000000000

abbrev small_breaker : CircuitBreaker
small_breaker = record {
  failures = pos 0;
  last_failure = 0;
  threshold = pos 2;
  timeout = pos 1000;
  state = state_closed;
  half_open_reqs = pos 0;
  max_probes = pos 1;
}

abbrev open_breaker : CircuitBreaker
open_breaker = record small_breaker { failures = pos 2; state = state_open }

test_new : new_circuit_breaker (pos 2) (pos 1000) (pos 0) ≡ small_breaker
unfolding new_circuit_breaker
test_new = refl

test_trips : (record_failure noon (record_failure noon small_breaker)).state ≡ state_open
unfolding record_failure
test_trips = refl

fail_at-Failed_example :
    Failed 2
      (0 + length (noon ∷ noon ∷ noon ∷ []))
      small_breaker
      (fail_at (noon ∷ noon ∷ noon ∷ []) small_breaker)
fail_at-Failed_example =
    fail_at-Failed 2 0 (noon ∷ noon ∷ noon ∷ []) small_breaker refl refl (ground arith) refl

small-Idle : Idle small_breaker
small-Idle = record { none_out = refl; some_allowed = ground arith }

-- One failure before the threshold.
abbrev failing_breaker : CircuitBreaker
failing_breaker = record small_breaker { failures = pos 1 }

failing_timed_out : timed_out (noon + 2000) (record_failure noon failing_breaker) ≡ true
unfolding timed_out record_failure
failing_timed_out = refl

two_probes_of_one_example :
    let third = allow (noon + 2000) (record_failure noon failing_breaker) in
    let fourth = allow (noon + 2000) (release_probe third.0) in
    ((allow noon failing_breaker).1 ≡ true) × (third.1 ≡ true) × (fourth.1 ≡ true)
two_probes_of_one_example =
    two_probes_of_one noon (noon + 2000) failing_breaker
      (record { none_out = refl; some_allowed = ground arith }) refl refl (ground arith)
      failing_timed_out

abbrev three_callers : List Pc
three_callers = load_state ∷ load_state ∷ load_state ∷ []

abbrev half_open_breaker : CircuitBreaker
half_open_breaker = record small_breaker { state = state_half_open; max_probes = pos 2 }

abbrev some_schedule : List (ℕ × Time)
some_schedule =
    (0, noon)
    ∷ (1, noon)
    ∷ (2, noon)
    ∷ (0, noon)
    ∷ (1, noon)
    ∷ (1, noon)
    ∷ (0, noon)
    ∷ (2, noon)
    ∷ []

callers-Probing : Probing 2 0 three_callers half_open_breaker
unfolding admitted all_probing
callers-Probing = record {
  half = refl;
  limit = refl;
  counted = refl;
  within = ground arith;
  places = refl;
}

run-Probing_example :
    Probing 2 0
      (run some_schedule three_callers half_open_breaker).0
      (run some_schedule three_callers half_open_breaker).1
run-Probing_example =
    run-Probing 2 0 some_schedule three_callers half_open_breaker (ground arith) (callers-Probing)

open_timed_out : timed_out noon open_breaker ≡ true
unfolding timed_out
open_timed_out = refl

both_admitted_example :
    let (pcs, cb) = run (overtaking noon) (load_state ∷ load_state ∷ []) open_breaker in
    (admitted pcs ≡ 2) × (cb.half_open_reqs ≡ pos 1)
both_admitted_example = both_admitted noon open_breaker refl refl refl open_timed_out
