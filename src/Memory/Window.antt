-- ===== src/Memory/Window.antt =====
-- The sliding window of middleware/storage/memory/store.go. The capacity of the slice of requests,
-- which `Allow` may give back by a copy, is not part of the state: a copy holds the same instants.
pub mod Made
pub mod Search
pub mod Log
pub mod Quota
use open_source.Common.{
  ℕ, zero, suc, ◌+◌, ◌/◌, Bool, true, false, List, [], ◌∷◌, ◌++◌, ◌&&◌, ◌||◌, ltb, leb, not, ◌==◌,
  if◌then◌else◌, length, get_or, drop, ◌-◌, Option, none, some,
}
use open_source.Common.Int.{ℤ, pos, leb_ℤ, ltb_ℤ, neg, mul_int64}
use open_source.Common.GoTime.{Time, Duration, add, before}

pub record SlidingWindow : Type 0 where
  pub window_size : Duration
  pub limit : ℤ  -- int
  pub requests : List Time

abbrev pub empty_window : Duration → ℤ → SlidingWindow
empty_window size limit = record { window_size = size; limit = limit; requests = [] }

-- `make` panics for a capacity below 0; `limit*2` wraps.
unfoldable pub new_sliding_window : Duration → ℤ → Option SlidingWindow
new_sliding_window size limit =
    let double = mul_int64 limit (pos 2) in
    let capacity = if ltb_ℤ double (pos 1000) then double else pos 1000 in
    if ltb_ℤ capacity (pos 0) then none else some (empty_window size limit)

-- The `for left < right` loop; the fuel is above `right - left`, which falls in each round.
unfoldable pub search_loop : ℕ → Time → List Time → (left right : ℕ) → ℕ
search_loop zero cutoff requests left right = left
search_loop (suc fuel) cutoff requests left right =
    let mid = (left + right) / 2 in
    let upper = search_loop fuel cutoff requests (mid + 1) right in
    let lower = search_loop fuel cutoff requests left mid in
    if ltb left right then (if leb (get_or requests mid 0) cutoff then upper else lower) else left

-- The test at the top of `findFirstValid`: the first and the last request are after the cutoff.
unfoldable pub all_recent : Time → List Time → Bool
all_recent cutoff requests =
    (length requests == 0 || ltb cutoff (get_or requests (length requests - 1) 0))
    && (ltb 0 (length requests) && ltb cutoff (get_or requests 0 0))

unfoldable pub find_first_valid : Time → List Time → ℕ
unfolding search_loop all_recent
find_first_valid cutoff requests =
    if all_recent cutoff requests
    then 0
    else search_loop (length requests + 1) cutoff requests 0 (length requests)

unfoldable pub allow : Time → SlidingWindow → SlidingWindow × Bool
unfolding find_first_valid
allow now sw =
    let cutoff = add now (neg sw.window_size) in
    let valid_idx = find_first_valid cutoff sw.requests in
    let kept = if ltb 0 valid_idx then drop valid_idx sw.requests else sw.requests in
    if leb_ℤ sw.limit (pos (length kept))
    then (record sw { requests = kept }, false)
    else (record sw { requests = kept ++ now ∷ [] }, true)

unfoldable pub count : Time → SlidingWindow → ℕ
unfolding find_first_valid
count now sw =
    let cutoff = add now (neg sw.window_size) in
    length sw.requests - find_first_valid cutoff sw.requests
