-- ===== src/Redis/Scripts.antt =====
-- The four Lua scripts of middleware/storage/redis/store.go. Their arguments are numbers, so that the
-- test for arguments that are none never fires and is left out. A script that returns numbers gives
-- them cut off to integers.
use open_source.Common.{
  ℕ, List, [], ◌∷◌, ◌++◌, Option, none, some, if◌then◌else◌, get_elem?, Text, codes,
}
use open_source.Common.Int.{ℤ, pos, negsuc}
use open_source.Common.Float.{Float64}
use open_source.Redis.Commands.{Command, ◌>>=◌, ◌>>◌, pure, or_fail, Server}

module _ (fl : Float64) (srv : Server fl) where
  open fl use {Float, of_int, plus, minus, times, fmin, to_int, at_least, greater, divide}
  open srv use {State, to_number, show}

  -- `tonumber` of a value that may be missing
  abbrev pub number_of : Option Text → Option Float
  number_of none = none
  number_of (some t) = to_number t

  abbrev nth : List (Option Text) → ℕ → Option Float
  nth values i = elim (get_elem? values i) [ none ↦ none | some v ↦ number_of v ]

  -- `blockedUntil and now < blockedUntil`
  unfoldable pub still_blocked : Option Float → Float → Option Float
  still_blocked none now = none
  still_blocked (some until) now = if greater until now then some until else none

  -- The tokens of a bucket at `now`, after `elapsed` at a rate of `rps`.
  refilled : (rps burst now : Float) → Option Float → Option Float → Option Float
  refilled rps burst now none last = some (fmin burst (plus burst (times (minus now now) rps)))
  refilled rps burst now (some tokens) none = none
  refilled rps burst now (some tokens) (some last) =
      some (fmin burst (plus tokens (times (minus now last) rps)))

  abbrev store_tokens : Text → Float → Float → Float → Command State (Unit {0})
  store_tokens key tokens now window = do
    srv.hset key ((codes "tokens", show tokens) ∷ (codes "last_update", show now) ∷ [])
    srv.expire key window

  take_token : Text → Float → Float → Float → Command State (List ℤ)
  take_token key tokens now window =
      if at_least tokens (of_int (pos 1))
      then (do
        store_tokens key (minus tokens (of_int (pos 1))) now window
        pure (pos 1 ∷ to_int (srv.floor (minus tokens (of_int (pos 1)))) ∷ []))
      else (do store_tokens key tokens now window; pure (pos 0 ∷ pos 0 ∷ []))

  unfoldable pub allow_script : Text → (rps burst now window : Float) → Command State (List ℤ)
  unfolding still_blocked refilled take_token
  allow_script key rps burst now window = do
    values ← srv.hmget key (codes "tokens" ∷ codes "last_update" ∷ codes "blocked_until" ∷ [])
    elim (still_blocked (nth values 2) now) [
      | some until ↦ pure (negsuc 0 ∷ to_int (minus until now) ∷ [])
      | none ↦ (do
        tokens ← or_fail (refilled rps burst now (nth values 0) (nth values 1))
        take_token key tokens now window)
    ]

  abbrev pub window_key : Text → Text
  window_key key = key ++ codes ":sw"

  -- A request within the limit.
  unfoldable pub admit : Text → (limit window now current : Float) → Command State (List ℤ)
  admit key limit window now current = do
    n ← srv.incr (key ++ codes ":seq")
    srv.zadd (window_key key) now (show now ++ (codes ":" ++ show (of_int n)))
    srv.expire (window_key key) window
    pure (pos 1 ∷ to_int (minus (minus limit current) (of_int (pos 1))) ∷ [])

  -- A request above it. Without a request in the window there is no oldest score, and the sum fails.
  unfoldable pub deny : Text → (window now : Float) → Command State (List ℤ)
  deny key window now = do
    oldest ← srv.zrange_first (window_key key)
    score ← or_fail (number_of (get_elem? oldest 1))
    pure (
        pos 0 ∷ to_int (srv.ceil (divide (minus (plus score window) now) (of_int (pos 1000)))) ∷ [])

  -- The part of the script behind the check for a block.
  unfoldable pub slide : Text → (limit window now : Float) → Command State (List ℤ)
  unfolding admit deny
  slide key limit window now = do
    srv.zrem_range (window_key key) (of_int (pos 0)) (minus now window)
    current ← srv.zcard (window_key key)
    if greater limit (of_int current)
        then admit key limit window now (of_int current)
        else deny key window now

  unfoldable pub allow_sliding_script : Text → (limit window now : Float) → Command State (List ℤ)
  unfolding still_blocked slide
  allow_sliding_script key limit window now = do
    value ← srv.hget key (codes "blocked_until")
    elim (still_blocked (number_of value) now) [
      | some until ↦ pure (negsuc 0 ∷ to_int (minus until now) ∷ [])
      | none ↦ slide key limit window now
    ]

  unfoldable pub block_script : Text → (duration now window : Float) → Command State (List ℤ)
  block_script key duration now window =
      if greater (of_int (pos 0)) duration
      then (do
        srv.hdel key (codes "blocked_until" ∷ codes "violations" ∷ codes "last_violation" ∷ [])
        srv.del (window_key key)
        pure (pos 1 ∷ []))
      else (do
        srv.hset key ((codes "blocked_until", show (plus now duration)) ∷ [])
        srv.expire key (srv.fmax duration window)
        pure (to_int (plus now duration) ∷ []))

  -- `tonumber(redis.call('HGET', key, 'violations') or 0)`
  abbrev violations_of : Option Text → Option Float
  violations_of none = some (of_int (pos 0))
  violations_of (some t) = to_number t

  -- The new count after `hours` idle intervals, stored with the time.
  decayed : Text → (hours now : Float) → Command State ℤ
  decayed key hours now = do
    value ← srv.hget key (codes "violations")
    current ← or_fail (violations_of value)
    let count =
        srv.fmax (of_int (pos 0)) (minus current (srv.floor (divide hours (of_int (pos 2)))))
    srv.hset key ((codes "violations", show count) ∷ [])
    srv.hset key ((codes "last_violation", show now) ∷ [])
    pure (to_int count)

  unfoldable pub decay_script : Text → (decay_interval now : Float) → Command State ℤ
  unfolding decayed
  decay_script key decay_interval now = do
    last ← srv.hget key (codes "last_violation")
    elim (number_of last) [
      | none ↦ pure (pos 0)
      | some last_vio ↦
          let hours = srv.floor (divide (minus now last_vio) decay_interval) in
          if greater hours (of_int (pos 0)) then decayed key hours now else (do
            value ← srv.hget key (codes "violations")
            count ← or_fail (violations_of value)
            pure (to_int count))
    ]
