-- ===== src/Breaker/Machine.antt =====
-- `Allow` of middleware/base/cicuit_breaker.go cut at its atomic loads, stores and swaps, for any
-- number of goroutines that run it at once.
use open_source.Common.{
  ℕ, zero, suc, ◌+◌, ◌≤◌, ◌<◌, ◌≡◌, refl, ap, ◌∙◌, Bool, true, false, none, some, List, [], ◌∷◌,
  arith, if◌then◌else◌, get_elem?, set, ◌&&◌, ◌-◌, Option-cases, inl, inr,
}
use open_source.Common.Int.{ℤ, pos, leb_ℤ, add_int32, ltb_ℤ}
use open_source.Common.GoTime.{Time}
use open_source.Breaker.{
  BreakerState, state_closed, state_open, state_half_open, CircuitBreaker, timed_out, allow,
}

-- Where a goroutine stands in `Allow`.
pub data Pc : Type 0 where
  load_state load_failure swap_state reset_reqs load_reqs : Pc
  swap_reqs : ℤ → Pc
  returned : Bool → Pc

branch : BreakerState → Pc
branch state_closed = returned true
branch state_open = load_failure
branch state_half_open = load_reqs

abbrev is_open : BreakerState → Bool
is_open state_open = true
is_open state_closed = false
is_open state_half_open = false

-- `atomic.CompareAndSwapInt32(&cb.halfOpenReqs, current, current+1)`
swap : ℤ → CircuitBreaker → Pc × CircuitBreaker
swap current cb =
    if leb_ℤ current cb.half_open_reqs && leb_ℤ cb.half_open_reqs current
    then (returned true, record cb { half_open_reqs = add_int32 current (pos 1) })
    else (load_reqs, cb)

-- One atomic step of a goroutine, at the instant `now`.
unfoldable pub step : Time → Pc → CircuitBreaker → Pc × CircuitBreaker
unfolding branch swap
step now load_state cb = (branch cb.state, cb)
step now load_failure cb = (if timed_out now cb then swap_state else returned false, cb)
step now swap_state cb =
    if is_open cb.state
    then (reset_reqs, record cb { state = state_half_open })
    else (load_reqs, cb)
step now reset_reqs cb = (load_reqs, record cb { half_open_reqs = pos 0 })
step now load_reqs cb = (
  if leb_ℤ cb.max_probes cb.half_open_reqs then returned false else swap_reqs cb.half_open_reqs,
  cb,
)
step now (swap_reqs current) cb = swap current cb
step now (returned b) cb = (returned b, cb)

-- The goroutine that a schedule names makes a step.
unfoldable pub step_at : ℕ → Time → List Pc → CircuitBreaker → List Pc × CircuitBreaker
step_at i now pcs cb = elim (get_elem? pcs i) [
  | none ↦ (pcs, cb)
  | some pc ↦ (set pcs i (step now pc cb).0, (step now pc cb).1)
]

unfoldable pub run : List (ℕ × Time) → List Pc → CircuitBreaker → List Pc × CircuitBreaker
run [] pcs cb = (pcs, cb)
run ((i, now) ∷ rest) pcs cb = let (pcs', cb') = step_at i now pcs cb in run rest pcs' cb'

unfoldable pub run_alone : ℕ → Time → Pc → CircuitBreaker → Pc × CircuitBreaker
run_alone zero now pc cb = (pc, cb)
run_alone (suc n) now pc cb = let (pc', cb') = step now pc cb in run_alone n now pc' cb'

-- A goroutine that runs alone is through `Allow` after six steps, with the answer and the breaker
-- that the function `allow` gives.
run_alone-allow :
    (now : Time) (cb : CircuitBreaker)
    → run_alone 6 now load_state cb ≡ (returned (allow now cb).1, (allow now cb).0)
unfolding run_alone step allow
run_alone-allow now cb = ground arith

-- How many goroutines have been admitted.
abbrev is_admitted : Pc → ℕ
is_admitted (returned true) = 1
is_admitted _ = 0

unfoldable pub admitted : List Pc → ℕ
admitted [] = 0
admitted (pc ∷ pcs) = is_admitted pc + admitted pcs

-- The places that a goroutine can reach while the breaker is half open; a count that it has loaded
-- is below the maximum `m`.
abbrev is_probing : ℕ → Pc → Bool
is_probing m load_state = true
is_probing m load_reqs = true
is_probing m (swap_reqs c) = ltb_ℤ c (pos m)
is_probing m (returned b) = true
is_probing m _ = false

unfoldable pub all_probing : ℕ → List Pc → Bool
all_probing m [] = true
all_probing m (pc ∷ pcs) = is_probing m pc && all_probing m pcs

admitted-set :
    (pcs : List Pc) (i : ℕ) (pc pc' : Pc)
    → get_elem? pcs i ≡ some pc
    → admitted (set pcs i pc') + is_admitted pc ≡ admitted pcs + is_admitted pc'
unfolding admitted
admitted-set [] i pc pc' h = ground arith
admitted-set (x ∷ xs) zero pc pc' h = ground arith
admitted-set (x ∷ xs) (suc i) pc pc' h = omega (arith, admitted-set xs i pc pc' h)

all_probing-set :
    (m : ℕ) (pcs : List Pc) (i : ℕ) (pc' : Pc)
    → all_probing m pcs ≡ true
    → is_probing m pc' ≡ true
    → all_probing m (set pcs i pc') ≡ true
unfolding all_probing
all_probing-set m [] i pc' h p = refl
all_probing-set m (x ∷ xs) zero pc' h p = ground arith
all_probing-set m (x ∷ xs) (suc i) pc' h p = ground (arith, all_probing-set m xs i pc')

probing_of_all :
    (m : ℕ) (pcs : List Pc) (i : ℕ) (pc : Pc)
    → all_probing m pcs ≡ true
    → get_elem? pcs i ≡ some pc
    → is_probing m pc ≡ true
unfolding all_probing
probing_of_all m [] i pc h e = ground arith
probing_of_all m (x ∷ xs) zero pc h e = ground arith
probing_of_all m (x ∷ xs) (suc i) pc h e = ground (arith, probing_of_all m xs i pc)

-- Half open, with `r` probes out before the goroutines `pcs` came, of at most `m`.
pub record Probing (m r : ℕ) (pcs : List Pc) (cb : CircuitBreaker) : Type 0 where
  pub half : cb.state ≡ state_half_open
  pub limit : cb.max_probes ≡ pos m
  pub counted : cb.half_open_reqs ≡ pos (r + admitted pcs)
  pub within : r + admitted pcs ≤ m
  pub places : all_probing m pcs ≡ true

-- What one step does, for a count of `k` probes.
record Stepped (m k : ℕ) (pc pc' : Pc) (cb' : CircuitBreaker) : Type 0 where
  half : cb'.state ≡ state_half_open
  limit : cb'.max_probes ≡ pos m
  counted : cb'.half_open_reqs ≡ pos (k + is_admitted pc' - is_admitted pc)
  kept : is_admitted pc ≤ is_admitted pc'
  within : k + is_admitted pc' - is_admitted pc ≤ m
  place : is_probing m pc' ≡ true

step-Stepped :
    (m k : ℕ) (now : Time) (pc : Pc) (cb : CircuitBreaker)
    → m < 2147483648
    → is_probing m pc ≡ true
    → cb.state ≡ state_half_open
    → cb.max_probes ≡ pos m
    → cb.half_open_reqs ≡ pos k
    → k ≤ m
    → Stepped m k pc (step now pc cb).0 (step now pc cb).1
unfolding step
step-Stepped m k now (swap_reqs c) cb b p s l e h = ground arith
step-Stepped m k now (returned true) cb b p s l e h = ground arith
step-Stepped m k now pc cb b p s l e h = ground arith

step_at-Probing :
    (m r : ℕ) (i : ℕ) (now : Time) (pcs : List Pc) (cb : CircuitBreaker)
    → m < 2147483648
    → Probing m r pcs cb
    → Probing m r (step_at i now pcs cb).0 (step_at i now pcs cb).1
unfolding step_at
step_at-Probing m r i now pcs cb b h = elim (Option-cases (get_elem? pcs i)) [
  | inl out ↦ rw (out, step_at) h
  | inr (pc, e) ↦
      let place = probing_of_all m pcs i pc h.places e in
      let stepped =
        step-Stepped m (r + admitted pcs) now pc cb b place h.half h.limit h.counted h.within in
      let moved = admitted-set pcs i pc (step now pc cb).0 e in
      rw (e, step_at)
        (record {
          half = stepped.half;
          limit = stepped.limit;
          counted = stepped.counted ∙ ap pos (omega arith);
          within = omega arith;
          places = all_probing-set m pcs i (step now pc cb).0 h.places stepped.place;
        })
]

-- While the breaker is half open, with a maximum below 2^31, any number of goroutines in `Allow`,
-- in any interleaving of their atomic steps and at any instants, are admitted at most up to the
-- maximum: the count of probes stays the number out before plus the number admitted since, and
-- does not pass the maximum.
pub run-Probing :
    (m r : ℕ) (schedule : List (ℕ × Time)) (pcs : List Pc) (cb : CircuitBreaker)
    → m < 2147483648
    → Probing m r pcs cb
    → Probing m r (run schedule pcs cb).0 (run schedule pcs cb).1
unfolding run
run-Probing m r [] pcs cb b h = h
run-Probing m r ((i, now) ∷ rest) pcs cb b h =
    run-Probing m r rest (step_at i now pcs cb).0 (step_at i now pcs cb).1 b
      (step_at-Probing m r i now pcs cb b h)

-- The first goroutine opens the way, and is overtaken before it resets the count.
abbrev pub overtaking : Time → List (ℕ × Time)
overtaking now =
    (0, now)
    ∷ (0, now)
    ∷ (0, now)
    ∷ (1, now)
    ∷ (1, now)
    ∷ (1, now)
    ∷ (0, now)
    ∷ (0, now)
    ∷ (0, now)
    ∷ []

-- On the way from open to half open the bound fails: of two goroutines in `Allow`, with one probe
-- allowed, none out and the timeout over, both are admitted if the second takes its probe between
-- the first one's swap of the state and its reset of the count.
pub both_admitted :
    (now : Time) (cb : CircuitBreaker)
    → cb.state ≡ state_open
    → cb.max_probes ≡ pos 1
    → cb.half_open_reqs ≡ pos 0
    → timed_out now cb ≡ true
    → let (pcs, cb') = run (overtaking now) (load_state ∷ load_state ∷ []) cb in
      (admitted pcs ≡ 2) × (cb'.half_open_reqs ≡ pos 1)
unfolding run step_at step admitted
both_admitted now cb s one z out = ground arith
