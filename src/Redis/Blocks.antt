-- ===== src/Redis/Blocks.antt =====
-- Block and IsBlocked of middleware/storage/redis/store.go, one after the other.
use open_source.Common.{
  ℕ, ◌+◌, ◌≤◌, ltb, ltb→lt, if◌then◌else◌, Bool-cases, inl, inr, ◌≡◌, refl, ap, ◌∙◌, Bool, true,
  false, List, [], ◌∷◌, ◌++◌, Option, none, some, arith, Text, codes,
}
use mathlib.Core.Option.{some_inj}
use open_source.Common.Int.{ℤ, pos}
use open_source.Common.GoTime.{Time, add, before, unix, seconds, minutes}
use open_source.Common.Float.{Float64}
use open_source.Breaker.{allow}
use open_source.Redis.Commands.{◌>>◌, pure, >>=-some, Server}
use open_source.Redis.Scripts.{block_script}
use open_source.Redis.Store.{
  Record, Error, backend_unavailable, server_error, Clock, Result, Backend, recorded, run,
  from_unix, blocked_answer, blocked_read, block, is_key_blocked,
}
use open_source.Redis.Hashes.{max_of, exact_max, Hashes, WholeSeconds}
use open_source.Redis.Admitted.{guarded_admitted, recorded_ok}

-- What IsBlocked answers at `called`, `t` seconds after a block of `n` seconds at `now`.
abbrev pub answer_after : Time → (now n w t : ℕ) → Result (Bool × Time)
answer_after called now n w t =
    if ltb t (max_of n w)
    then ((before called (from_unix (pos (now + n))), from_unix (pos (now + n))), none)
    else ((false, 0), none)

module _ (fl : Float64) (srv : Server fl) where
  open fl use {Float, of_int, plus, greater}
  open srv use {State}

  -- The block as it is on the server after `t` seconds.
  abbrev left_of : (now n w t : ℕ) → Option Text
  left_of now n w t = if ltb t (max_of n w) then some (srv.show (of_int (pos (now + n)))) else none

  module _ (pass : ℕ → State → State) (hashes : Hashes fl srv pass)
      (whole : WholeSeconds fl srv) where
    expire-left :
        (key field value : Text) (n t : ℕ) (s : State)
        → 1 ≤ n
        → n ≤ exact_max
        → (srv.hget key field s).1 ≡ some (some value)
        → (srv.hget key field (pass t (srv.expire key (of_int (pos n)) s).0)).1
          ≡ some (if ltb t n then some value else none)
    expire-left key field value n t s positive small held = elim (Bool-cases (ltb t n)) [
      | inl early ↦ rw early (hashes.lives key field n t s small (ltb→lt t n early) ∙ held)
      | inr late ↦ rw late (hashes.expires key field n t s positive (ground arith) small)
    ]

    block_script-stores :
        (key : Text) (now n w t : ℕ) (s : State)
        → now + n ≤ exact_max
        → w ≤ exact_max
        → 1 ≤ n + w
        → let after =
            block_script fl srv key (of_int (pos n)) (of_int (pos now)) (of_int (pos w)) s in
          ((values : List ℤ) × (after.1 ≡ some values))
          × ((srv.hget key (codes "blocked_until") (pass t after.0)).1 ≡ some (left_of now n w t))
    unfolding block_script
    block_script-stores key now n w t s small small_w positive =
        let field = codes "blocked_until" in
        let sum = plus (of_int (pos now)) (of_int (pos n)) in
        let pairs : List (Text × Text) = (field, srv.show sum) ∷ [] in
        let s₁ : State = (srv.hset key pairs s).0 in
        let ttl = srv.fmax (of_int (pos n)) (of_int (pos w)) in
        let life = max_of n w in
        let ttl_exact : ttl ≡ of_int (pos life) = whole.max_exact n w (omega arith) small_w in
        let life_positive : 1 ≤ life = ground arith in
        let life_small : life ≤ exact_max = ground arith in
        let answer : List ℤ = fl.to_int sum ∷ [] in
        let expire_answers : (srv.expire key ttl s₁).1 ≡ some tt =
          ap (λ (x : Float). (srv.expire key x s₁).1) ttl_exact
          ∙ hashes.expire_answers key life s₁ life_positive life_small in
        let ran : block_script fl srv key (of_int (pos n)) (of_int (pos now)) (of_int (pos w)) s
            ≡ ((srv.expire key ttl s₁).0, some answer) =
          rw (whole.not_below_zero n (omega arith)) (
            >>=-some (srv.hset key pairs) (λ _. srv.expire key ttl >> pure answer) s
              (hashes.hset_answers key pairs s)
            ∙ >>=-some (srv.expire key ttl) (λ _. pure answer) s₁ expire_answers) in
        let written : (srv.hget key field s₁).1 ≡ some (some (srv.show (of_int (pos (now + n))))) =
          hashes.hset_stores key field (srv.show sum) s
          ∙ ap (λ x. some (some (srv.show x))) (whole.plus_exact now n small) in
        (
          (answer, ap (λ r. r.1) ran),
          ap (λ r. (srv.hget key field (pass t r.0)).1) ran
              ∙ ap (λ (x : Float). (srv.hget key field (pass t (srv.expire key x s₁).0)).1)
                  ttl_exact
              ∙ expire-left key field (srv.show (of_int (pos (now + n)))) life t s₁ life_positive
                  life_small written,
        )

    blocked_answer-left :
        (called : Time) (now n w t : ℕ)
        → now + n ≤ exact_max
        → (blocked_answer fl srv called (left_of now n w t)).1 ≡ answer_after called now n w t
    unfolding blocked_answer
    blocked_answer-left called now n w t small = elim (Bool-cases (ltb t (max_of n w))) [
      | inl early ↦ rw early (rw (whole.reads_back (now + n) small, blocked_answer) refl)
      | inr late ↦ rw late refl
    ]

    blocked_read-left :
        (called : Time) (now n w t : ℕ) (r : State × Option (Option Text))
        → now + n ≤ exact_max
        → r.1 ≡ some (left_of now n w t)
        → (blocked_read fl srv called r).1.1 ≡ answer_after called now n w t
    unfolding blocked_read
    blocked_read-left called now n w t (s, none) small e = absurd (ground (arith, e))
    blocked_read-left called now n w t (s, some val) small e =
        let same : val ≡ left_of now n w t = some_inj.0 e in
        ap (λ v. (blocked_answer fl srv called v).1) same
        ∙ blocked_answer-left called now n w t small

    block-stores :
        (clock : Clock) (key : Text) (n w t : ℕ) (b : Backend fl srv)
        → b.default_window_secs ≡ pos w
        → unix clock.called + n ≤ exact_max
        → w ≤ exact_max
        → 1 ≤ n + w
        → (allow clock.admitted b.circuit_breaker).1 ≡ true
        → let (b', error) = block fl srv clock key (seconds n) b in
          (error ≡ none)
          × ((srv.hget (b'.key_prefix ++ key) (codes "blocked_until") (pass t b'.server)).1
              ≡ some (left_of (unix clock.called) n w t))
    unfolding block
    block-stores clock key n w t b window_is small small_w positive admitted =
        let name = b.key_prefix ++ key in
        let field = codes "blocked_until" in
        let now = unix clock.called in
        let ask = λ (d x : Float). block_script fl srv name d (of_int (pos now)) x in
        let script = ask (fl.seconds (seconds n)) (of_int b.default_window_secs) in
        let s₁ = (srv.deliver b.server).0 in
        let stored = block_script-stores name now n w t s₁ small small_w positive in
        let exact =
          ap (λ (d : Float). ask d (of_int b.default_window_secs) s₁)
            (whole.seconds_exact n (omega arith))
          ∙ ap (λ (x : ℤ). ask (of_int (pos n)) (of_int x) s₁) window_is in
        let delivered = >>=-some srv.deliver (λ _. script) b.server (hashes.delivers b.server) in
        let ran = delivered ∙ exact in
        let answered = ap (λ r. r.1) ran ∙ stored.0.1 in
        let answer : List ℤ → Option Error = λ _. none in
        let call : State → State × (Record × Option Error) =
          recorded fl srv (run fl srv script) (some server_error) answer in
        let (ended, server, prefix) =
          guarded_admitted fl srv clock (some backend_unavailable) call b admitted in
        let (no_error, left) =
          recorded_ok fl srv (run fl srv script) (some server_error) answer b.server answered in
        (
          ended ∙ no_error,
          rw (prefix, server, left) (ap (λ r. (srv.hget name field (pass t r.0)).1) ran ∙ stored.1),
        )

    -- Over a server that answers, whose keys expire as EXPIRE tells, and with whole numbers up to 2^53
    -- exact: `Block` of a key for `n` seconds, on a backend with a window of `w` seconds and not with
    -- both 0, and `IsBlocked` of the key when `t` seconds have passed on the server. Before the longer
    -- of `n` and `w` has passed, `IsBlocked` answers that the block lasts until `n` seconds after the
    -- second of the clock at which `Block` was called, and whether its own instant is before that; from
    -- then on it answers that there is no block, with the zero time. Neither call returns an error,
    -- where the breaker admits both.
    pub block-until :
        (clock clock' : Clock) (key : Text) (n w t : ℕ) (b : Backend fl srv)
        → b.default_window_secs ≡ pos w
        → unix clock.called + n ≤ exact_max
        → w ≤ exact_max
        → 1 ≤ n + w
        → (allow clock.admitted b.circuit_breaker).1 ≡ true
        → let (b', error) = block fl srv clock key (seconds n) b in
          (allow clock'.admitted b'.circuit_breaker).1 ≡ true
          → let b'' = record b' { server = pass t b'.server } in
            (error ≡ none)
            × ((is_key_blocked fl srv clock' key b'').1
                ≡ answer_after clock'.called (unix clock.called) n w t)
    unfolding is_key_blocked
    block-until clock clock' key n w t b window_is small small_w positive admitted admitted' =
        let (no_error, stored) =
          block-stores clock key n w t b window_is small small_w positive admitted in
        let b' = (block fl srv clock key (seconds n) b).0 in
        let b'' = record b' { server = pass t b'.server } in
        let call : State → State × (Record × Result (Bool × Time)) = λ s.
          blocked_read fl srv clock'.called
            (srv.hget (b'.key_prefix ++ key) (codes "blocked_until") s) in
        let refused : Result (Bool × Time) =
          ((true, add clock'.called (minutes 1)), some backend_unavailable) in
        let (answered, server, prefix) =
          guarded_admitted fl srv clock' refused call b'' admitted' in
        (
          no_error,
          answered
              ∙ blocked_read-left clock'.called (unix clock.called) n w t
                  (srv.hget (b'.key_prefix ++ key) (codes "blocked_until") (pass t b'.server)) small
                  stored,
        )
