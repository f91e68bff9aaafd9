-- ===== src/Memory/Entry.antt =====
-- TokenBucket and ipEntry of middleware/storage/memory/store.go. An atomic field is a field. int64
-- counts of requests and of seconds are numbers.
use open_source.Common.{
  ℕ, ◌+◌, ◌*◌, Bool, true, false, Option, none, some, if◌then◌else◌, ◌&&◌, not,
}
use open_source.Common.Int.{ℤ, pos, ltb_ℤ}
use open_source.Common.GoTime.{Time, Duration, sub, before, unix, second, unix_epoch}
use open_source.Common.Float.{Float64}
use open_source.Memory.Window.{SlidingWindow, new_sliding_window}

module _ (fl : Float64) where
  open fl use {Float, of_int, seconds, plus, minus, times, fmin, to_int, at_least}

  pub record TokenBucket : Type 0 where
    pub tokens : Float
    pub last_update : Time

  unfoldable pub bucket_allow : Float → ℤ → Time → TokenBucket → TokenBucket × Bool
  bucket_allow rps burst now tb =
      let elapsed = seconds (sub now tb.last_update) in
      let tokens = fmin (of_int burst) (plus tb.tokens (times elapsed rps)) in
      if at_least tokens (of_int (pos 1))
      then (record { tokens = minus tokens (of_int (pos 1)); last_update = now }, true)
      else (record { tokens = tokens; last_update = now }, false)

  pub record IpEntry : Type 0 where
    pub bucket : TokenBucket
    pub sliding_window : Option SlidingWindow
    pub blocked_until : Time
    pub violation_count : ℤ  -- int32
    pub last_seen : ℕ  -- seconds since 1970
    pub first_seen : Time
    pub request_count : ℕ
    pub last_violation : ℕ  -- seconds since 1970

  -- The limit of the window of a new entry.
  unfoldable pub entry_limit : Float → ℤ → Duration → ℤ
  entry_limit rps burst window_size =
      let limit = to_int (times rps (seconds window_size)) in
      let limit' = if ltb_ℤ limit (pos 1) then pos 1 else limit in
      if ltb_ℤ limit' burst then burst else limit'

  -- The fields of a new entry beside its window.
  abbrev pub entry_with : ℤ → Time → Option SlidingWindow → IpEntry
  entry_with burst now window = record {
    bucket = record { tokens = of_int burst; last_update = now };
    sliding_window = window;
    blocked_until = 0;
    violation_count = pos 0;
    last_seen = unix now;
    first_seen = now;
    request_count = 0;
    last_violation = unix now;
  }

  unfoldable pub new_ip_entry : Float → ℤ → Bool → Duration → Time → Option IpEntry
  unfolding entry_limit
  new_ip_entry rps burst use_sliding_window window_size now =
      if use_sliding_window
      then elim (new_sliding_window window_size (entry_limit rps burst window_size)) [
        | none ↦ none
        | some sw ↦ some (entry_with burst now (some sw))
      ]
      else some (entry_with burst now none)

  unfoldable pub is_blocked : Time → IpEntry → Bool
  is_blocked now e = before now e.blocked_until

  unfoldable pub touch : Time → IpEntry → IpEntry
  touch now e = record e { last_seen = unix now; request_count = e.request_count + 1 }

  -- `since` and `now` are the readings of `time.Since` and of `isBlocked`.
  unfoldable pub should_cleanup : Duration → (since now : Time) → IpEntry → Bool
  unfolding is_blocked
  should_cleanup max_age since now e =
      ltb_ℤ max_age (sub since ((unix_epoch + e.last_seen) * second)) && not (is_blocked now e)
