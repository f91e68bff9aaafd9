-- ===== src/Memory/Backend/Counted.antt =====
-- What GetSlidingWindowCount of middleware/storage/memory/store.go tells of the next request.
use open_source.Common.{
  ℕ, ◌≤◌, ◌≡◌, refl, ◌∙◌, Bool, false, List, some, arith, ltb, if◌then◌else◌, length, length-drop,
  drop, Text, ◌-◌,
}
use open_source.Common.Int.{ℤ, pos, ltb_ℤ, neg}
use open_source.Common.GoTime.{Time, Duration, add}
use open_source.Common.Float.{Float64}
use open_source.Memory.Cache.{Ptr}
use open_source.Memory.Cache.Order.{touch}
use open_source.Memory.Window as Window
use open_source.Memory.Window.{SlidingWindow, find_first_valid}
use open_source.Memory.Entry
use open_source.Memory.Entry.{IpEntry, is_blocked}
use open_source.Memory.Backend.{
  Backend, window_of, allow_entry, allow_sliding_window, window_count, get_sliding_window_count,
}
use open_source.Memory.Backend.State.{IsDuration, Valid, entry_at}
use open_source.Memory.Backend.Updates.{entry_or, allow_sliding_window-Updated}
use open_source.Memory.Backend.Blocks.{read-Valid}

kept-count :
    (idx : ℕ) (requests : List Time)
    → length (if ltb 0 idx then drop idx requests else requests) ≡ length requests - idx
kept-count idx requests = ground (arith, length-drop idx requests)

-- A window admits a request exactly if it counts fewer than its limit at that instant.
allow-count :
    (now : Time) (sw : SlidingWindow)
    → (Window.allow now sw).1 ≡ ltb_ℤ (pos (Window.count now sw)) sw.limit
unfolding Window.allow Window.count
allow-count now sw =
    let idx = find_first_valid (add now (neg sw.window_size)) sw.requests in
    ground (arith, kept-count idx sw.requests)

module _ (fl : Float64) where
  -- What AllowSlidingWindow answers for a window that counts `n` requests.
  abbrev pub passes : (n : ℕ) (limit : ℤ) → Duration → Bool × Duration
  passes n limit window_size =
      let admitted = ltb_ℤ (pos n) limit in (admitted, if admitted then pos 0 else window_size)

  allow_entry-count :
      (limit : ℤ) (window_size : Duration) (seen checked left counted : Time) (e : IpEntry fl)
      (sw : SlidingWindow)
      → e.sliding_window ≡ some sw
      → is_blocked fl checked e ≡ false
      → let admitted = record (Entry.touch fl seen e) {
        sliding_window = some (Window.allow counted sw).0;
      } in
        allow_entry fl limit window_size checked left counted (Entry.touch fl seen e)
        ≡ some (admitted, passes (Window.count counted sw) sw.limit window_size)
  unfolding allow_entry window_of Entry.touch is_blocked
  allow_entry-count limit window_size seen checked left counted e sw windowed free =
      rw (free, windowed) (rw (allow-count counted sw) refl)

  -- On a valid backend with room for one entry, for a key whose entry is not blocked and has the window
  -- `sw`: `GetSlidingWindowCount` tells what becomes of a request of the key at the same instant.
  -- `AllowSlidingWindow` after it admits the request exactly if the count is below the limit of the
  -- window, whatever limit it is given, and else answers with the size that it is given. Neither call
  -- panics, and after the first every key has the entry that it had.
  pub get_sliding_window_count-allow_sliding_window :
      (size : ℕ) (k : Text) (limit : ℤ) (window_size : Duration)
      (made seen checked left counted : Time) (b : Backend fl) (es : List (Text × Ptr))
      (e : IpEntry fl) (sw : SlidingWindow)
      → 1 ≤ size
      → Valid fl size b es
      → IsDuration window_size
      → entry_at fl k b ≡ some e
      → e.sliding_window ≡ some sw
      → is_blocked fl checked e ≡ false
      → (b' : Backend fl) × (b'' : Backend fl) × (count : ℕ) × (get_sliding_window_count fl k
            counted b
          ≡ some (b', count))
        × ((j : Text) → entry_at fl j b' ≡ entry_at fl j b)
        × (allow_sliding_window fl k limit window_size made seen checked left counted b'
            ≡ some (b'', passes count sw.limit window_size))
  unfolding get_sliding_window_count window_count
  get_sliding_window_count-allow_sliding_window size k limit window_size made seen checked left
        counted b es e sw room v d_size here windowed free =
      let count = Window.count counted sw in
      let (b', reads, v', same) = read-Valid fl size k 0 (window_count fl counted) b es v in
      let e' = record (Entry.touch fl seen e) {
        sliding_window = some (Window.allow counted sw).0;
      } in
      let here' : entry_at fl k b' ≡ some e = same k ∙ here in
      let (b'', allows, u) =
        allow_sliding_window-Updated fl size k limit window_size made seen checked left counted b'
          (touch k es) (e', passes count sw.limit window_size) room d_size v'
          (rw (here', entry_or)
            (allow_entry-count limit window_size seen checked left counted e sw windowed free)) in
      (b', b'', count, reads ∙ rw here (rw (windowed, window_count) refl), same, allows)
