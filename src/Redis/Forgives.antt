-- ===== src/Redis/Forgives.antt =====
-- The methods of middleware/storage/redis/store.go that record a success after a failure.
use open_source.Common.{◌≡◌, Bool, true, false, List, [], ◌∷◌, arith, Text}
use open_source.Common.Int.{pos, ◌≤ℤ◌}
use open_source.Common.GoTime.{Time, Duration}
use open_source.Common.Float.{Float64}
use open_source.Breaker.{
  CircuitBreaker, state_closed, allow, record_success, record_failure, release_probe,
}
use open_source.Redis.Commands.{Command, Server}
use open_source.Redis.Store.{
  Record, success, failure, failure_and_success, nothing, note, Clock, Backend, guarded,
}
use open_source.Redis.Values.{recorded_twice, set_token_bucket, decay_violations}

-- A closed breaker with no failure counted, and a threshold of 2 or more.
pub record Untroubled (cb : CircuitBreaker) : Type 0 where
  pub closed : cb.state ≡ state_closed
  pub no_failures : cb.failures ≡ pos 0
  pub threshold_above_one : pos 2 ≤ℤ cb.threshold

-- The record is a success, or a failure and a success.
abbrev forgiving : Record → Bool
forgiving success = true
forgiving failure = false
forgiving failure_and_success = true
forgiving nothing = false

forgiven :
    (end : Record) (clock : Clock) (cb : CircuitBreaker)
    → forgiving end ≡ true
    → Untroubled cb
    → ((allow clock.admitted cb).1 ≡ true)
      × Untroubled (release_probe (note end clock.failed (allow clock.admitted cb).0))
unfolding note allow record_success record_failure release_probe
forgiven success clock cb f h = (ground arith, ground arith)
forgiven failure clock cb f h = absurd (ground (arith, f))
forgiven failure_and_success clock cb f h = (ground arith, ground arith)
forgiven nothing clock cb f h = absurd (ground (arith, f))

module _ (fl : Float64) (srv : Server fl) where
  open fl use {Float}

  recorded_twice-forgiving :
      (m : Command srv.State (Unit {0})) (s : srv.State)
      → forgiving (recorded_twice fl srv m s).1.0 ≡ true
  unfolding recorded_twice
  recorded_twice-forgiving m s = ground arith

  guarded-Untroubled :
      {A : Type 0} (clock : Clock) (refused : A) (call : srv.State → srv.State × (Record × A))
      (b : Backend fl srv)
      → forgiving (call b.server).1.0 ≡ true
      → Untroubled b.circuit_breaker
      → Untroubled (guarded fl srv clock refused call b).0.circuit_breaker
  unfolding guarded
  guarded-Untroubled clock refused call b f h =
      let (admitted, still) = forgiven (call b.server).1.0 clock b.circuit_breaker f h in
      rw admitted still

  pub data Write : Type 0 where
    tokens_write : Text → Float → Time → Write
    decay_write : List Text → Duration → Write

  unfoldable pub write : Clock → Write → Backend fl srv → Backend fl srv
  write clock (tokens_write key tokens last_update) b =
      (set_token_bucket fl srv clock key tokens last_update b).0
  write clock (decay_write keys interval) b = (decay_violations fl srv clock keys interval b).0

  unfoldable pub write_all : List (Clock × Write) → Backend fl srv → Backend fl srv
  write_all [] b = b
  write_all ((clock, w) ∷ rest) b = write_all rest (write clock w b)

  write-Untroubled :
      (clock : Clock) (w : Write) (b : Backend fl srv)
      → Untroubled b.circuit_breaker
      → Untroubled (write clock w b).circuit_breaker
  unfolding write set_token_bucket decay_violations
  write-Untroubled clock (tokens_write key tokens last_update) b h =
      guarded-Untroubled clock _ _ b (recorded_twice-forgiving _ b.server) h
  write-Untroubled clock (decay_write keys interval) b h =
      guarded-Untroubled clock _ _ b (recorded_twice-forgiving _ _) h

  -- Calls of `SetTokenBucket` and `DecayViolations` never trip the breaker, though each of them fails: a
  -- breaker that is closed with no failure counted, and with a threshold of 2 or more, is so after any
  -- number of them, whatever the server answers.
  pub write_all-Untroubled :
      (writes : List (Clock × Write)) (b : Backend fl srv)
      → Untroubled b.circuit_breaker
      → Untroubled (write_all writes b).circuit_breaker
  unfolding write_all
  write_all-Untroubled [] b h = h
  write_all-Untroubled ((clock, w) ∷ rest) b h =
      write_all-Untroubled rest (write clock w b) (write-Untroubled clock w b h)
