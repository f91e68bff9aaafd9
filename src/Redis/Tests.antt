-- ===== src/Redis/Tests.antt =====
-- Runs of the backend of middleware/storage/redis/store.go over a server that keeps its hashes and sets
-- in memory.
mod Toy
use open_source.Common.{
  ℕ, ◌+◌, ◌≡◌, refl, true, false, List, [], ◌∷◌, ◌++◌, none, some, arith, Text, codes,
}
use open_source.Common.Int.{ℤ, pos, quot}
use open_source.Common.GoTime.{Time, seconds, before, unix}
use open_source.Common.Float.{whole}
use open_source.Breaker.{
  CircuitBreaker, release_probe, record_success, state_closed, state_open, new_circuit_breaker,
  timed_out, allow, record_failure,
}
use open_source.Breaker.Probes.{Idle}
use open_source.Redis.Scripts.{still_blocked, block_script}
use open_source.Redis.Store.{
  Clock, Backend, guarded, recorded, from_unix, block, is_key_blocked, allow_sliding_window,
}
use open_source.Redis.Calls.{
  Call, block_call, is_blocked_call, set_token_bucket_call, allow_sliding_window_call, perform,
  perform_all, refusal_of, perform-open, perform_all-Idle,
}
use open_source.Redis.Forgives.{Untroubled, tokens_write, write_all, write_all-Untroubled}
use open_source.Redis.Window.{allow_sliding_window-admits, fresh, millis, now_of}
use open_source.Redis.Blocks.{answer_after, block-until}
use open_source.Redis.Tests.Toy.{toy, wait, empty, toy-Answers, toy-Hashes, whole-WholeSeconds}

-- January 2 of 2026, 00:00 UTC, and one second later.
abbrev midnight : Time
midnight = 63902908800000000000

abbrev at_midnight : Clock
at_midnight = record { admitted = midnight; called = midnight; failed = midnight }

abbrev later : Clock
later = record {
  admitted = midnight + 1000000000;
  called = midnight + 1000000000;
  failed = midnight + 1000000000;
}

abbrev closed : CircuitBreaker
closed = record {
  failures = pos 0;
  last_failure = 0;
  threshold = pos 5;
  timeout = seconds 30;
  state = state_closed;
  half_open_reqs = pos 0;
  max_probes = pos 1;
}

abbrev fresh_backend : Backend whole toy
fresh_backend = record {
  server = empty;
  circuit_breaker = closed;
  key_prefix = codes "ratelimit:";
  default_window_secs = pos 60;
}

perform_all-Idle_example :
    Idle
      (perform_all whole toy
        ((at_midnight, is_blocked_call (codes "k"))
          ∷ (later, block_call (codes "k") (seconds 5))
          ∷ [])
        fresh_backend).circuit_breaker
perform_all-Idle_example =
    perform_all-Idle whole toy
      ((at_midnight, is_blocked_call (codes "k"))
        ∷ (later, block_call (codes "k") (seconds 5))
        ∷ [])
      fresh_backend (record { none_out = refl; some_allowed = omega arith })

abbrev tripped : Backend whole toy
tripped = record fresh_backend {
  circuit_breaker = record closed { state = state_open; last_failure = 1767312000000000000 };
}

perform-open_example :
    perform whole toy later (block_call (codes "k") (seconds 5)) tripped
    ≡ (tripped, refusal_of whole toy (block_call (codes "k") (seconds 5)))
unfolding timed_out
perform-open_example =
    perform-open whole toy later (block_call (codes "k") (seconds 5)) tripped refl refl

write_all-Untroubled_example :
    Untroubled
      (write_all whole toy
        ((at_midnight, tokens_write (codes "k") (pos 3) midnight) ∷ [])
        fresh_backend).circuit_breaker
write_all-Untroubled_example =
    write_all-Untroubled whole toy ((at_midnight, tokens_write (codes "k") (pos 3) midnight) ∷ [])
      fresh_backend
      (record { closed = refl; no_failures = refl; threshold_above_one = omega arith })

allow_sliding_window-admits_example :
    let answer =
      (allow_sliding_window whole toy at_midnight
        (codes "k")
        (pos 2)
        (seconds 1)
        fresh_backend).1 in
    (answer.1 ≡ none)
    × (answer.0.0
        ≡ whole.greater (pos 2) (
            fresh whole toy toy-Answers
              (codes "ratelimit:k")
              (pos 1000)
              (now_of whole toy toy-Answers at_midnight)
              empty))
unfolding allow still_blocked quot
allow_sliding_window-admits_example =
    allow_sliding_window-admits whole toy toy-Answers at_midnight (codes "k") (pos 2) (seconds 1)
      fresh_backend (λ key s. refl) refl refl (none, refl, refl)

block-until_example :
    let (b', error) = block whole toy at_midnight (codes "k") (seconds 5) fresh_backend in
    let b'' = record b' { server = wait 61 b'.server } in
    (error ≡ none)
    × ((is_key_blocked whole toy later (codes "k") b'').1
        ≡ answer_after later.called (unix midnight) 5 60 61)
unfolding allow block guarded release_probe recorded block_script record_success
block-until_example =
    block-until whole toy wait toy-Hashes whole-WholeSeconds at_midnight later (codes "k") 5 60 61
      fresh_backend refl (ground arith) (ground arith) (omega arith) refl refl
