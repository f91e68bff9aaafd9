-- ===== src/Memory/Window/Made.antt =====
-- Which limits NewSlidingWindow of middleware/storage/memory/store.go can make a window for.
use open_source.Common.{◌≡◌, arith, some}
use open_source.Common.Int.{ℤ, pos, ◌≤ℤ◌, wrap_int64}
use open_source.Common.GoTime.{Duration}
use open_source.Memory.Window.{SlidingWindow, empty_window, new_sliding_window}

-- From 0 to below 2^62, so that the double is an int from 0 on.
abbrev pub Fits : ℤ → Type 0
Fits limit = (pos 0 ≤ℤ limit) × (limit ≤ℤ pos 4611686018427387903)

pub new_sliding_window-makes :
    (size : Duration) (limit : ℤ)
    → Fits limit
    → new_sliding_window size limit ≡ some (empty_window size limit)
unfolding new_sliding_window wrap_int64
new_sliding_window-makes size limit fits = ground arith

pub new_sliding_window-made :
    (size : Duration) (limit : ℤ) (sw : SlidingWindow)
    → new_sliding_window size limit ≡ some sw
    → sw ≡ empty_window size limit
unfolding new_sliding_window
new_sliding_window-made size limit sw h = ground arith
