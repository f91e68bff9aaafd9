-- ===== src/Breaker/Trips.antt =====
-- When the breaker of middleware/base/cicuit_breaker.go admits, opens and recovers.
use open_source.Common.{
  ℕ, ◌+◌, ◌<◌, ◌≡◌, ◌⊎◌, ◌↔◌, true, false, List, [], ◌∷◌, arith, leb, length, if◌then◌else◌,
}
use open_source.Common.Int.{pos, ◌≤ℤ◌, ◌<ℤ◌}
use open_source.Common.GoTime.{Time}
use open_source.Breaker.{
  state_closed, state_open, state_half_open, CircuitBreaker, timed_out, allow, record_success,
  record_failure,
}

-- Closed, or open for longer than the timeout, or half open with a probe to spare.
abbrev pub Admissible : Time → CircuitBreaker → Type 0
Admissible now cb =
    (cb.state ≡ state_closed)
    ⊎ (((cb.state ≡ state_open) × (timed_out now cb ≡ true))
        ⊎ ((cb.state ≡ state_half_open) × (cb.half_open_reqs <ℤ cb.max_probes)))

Admissible-of_allow :
    (now : Time) (cb : CircuitBreaker) → (allow now cb).1 ≡ true → Admissible now cb
unfolding allow
Admissible-of_allow now cb h = ground arith

-- Where at least one probe is allowed, `Allow` admits a call exactly when the breaker is closed,
-- or has been open for longer than its timeout, or is half open with fewer probes out than the
-- maximum.
allow-iff-Admissible :
    (now : Time) (cb : CircuitBreaker)
    → pos 1 ≤ℤ cb.max_probes
    → ((allow now cb).1 ≡ true) ↔ Admissible now cb
unfolding allow
allow-iff-Admissible now cb h = (Admissible-of_allow now cb, ground arith)

-- Failures one after the other, at the instants of a list.
unfoldable pub fail_at : List Time → CircuitBreaker → CircuitBreaker
fail_at [] cb = cb
fail_at (now ∷ later) cb = fail_at later (record_failure now cb)

-- What a breaker is after some failures in a row.
pub record Failed (th n : ℕ) (before after : CircuitBreaker) : Type 0 where
  pub counted : after.failures ≡ pos n
  pub tripped : after.state ≡ (if leb th n then state_open else state_closed)
  pub threshold : after.threshold ≡ before.threshold
  pub timeout : after.timeout ≡ before.timeout
  pub max_probes : after.max_probes ≡ before.max_probes

record_failure-Failed :
    (th f : ℕ) (now : Time) (cb : CircuitBreaker)
    → cb.threshold ≡ pos th
    → cb.failures ≡ pos f
    → f + 1 < 2147483648
    → cb.state ≡ (if leb th f then state_open else state_closed)
    → Failed th (f + 1) cb (record_failure now cb)
unfolding record_failure
record_failure-Failed th f now cb t e bound s = ground arith

-- From a breaker with `f` failures that is open if they have reached its threshold and closed if
-- they have not, a run of failures with no success between them is counted exactly, and the
-- breaker is open when the count has reached the threshold and closed before. The count is to
-- stay below 2^31, where no int32 overflows.
pub fail_at-Failed :
    (th f : ℕ) (ts : List Time) (cb : CircuitBreaker)
    → cb.threshold ≡ pos th
    → cb.failures ≡ pos f
    → f + length ts < 2147483648
    → cb.state ≡ (if leb th f then state_open else state_closed)
    → Failed th (f + length ts) cb (fail_at ts cb)
unfolding fail_at
fail_at-Failed th f [] cb t e bound s = ground arith
fail_at-Failed th f (now ∷ later) cb t e bound s =
    let step = record_failure-Failed th f now cb t e (omega arith) s in
    ground (arith, fail_at-Failed th (f + 1) later (record_failure now cb))

-- An open breaker that allows at least one probe refuses every call up to its timeout, and is
-- left as it is. After it, the first call is let through, as the only probe out; a success
-- recorded in that state closes the breaker, with no failure and no probe left on its counts.
allow-open :
    (now : Time) (cb : CircuitBreaker)
    → cb.state ≡ state_open
    → pos 1 ≤ℤ cb.max_probes
    → let probing = record cb { state = state_half_open; half_open_reqs = pos 1 } in
      (allow now cb ≡ (if timed_out now cb then (probing, true) else (cb, false)))
      × (record_success probing
          ≡ record cb { failures = pos 0; state = state_closed; half_open_reqs = pos 0 })
unfolding allow record_success
allow-open now cb s h = (ground arith, ground arith)
