-- ===== src/Memory/Tests/Backends.antt =====
-- The backend of middleware/storage/memory/store.go, with room for two entries and with whole numbers
-- for its floats.
use open_source.Common.{
  ℕ, ◌+◌, ◌≤◌, ◌≡◌, refl, true, false, List, [], ◌∷◌, some, arith, if◌then◌else◌, is_some, Text,
  text_eq, codes, lookup, delete,
}
use open_source.Common.Int.{pos, ltb_ℤ}
use open_source.Common.GoTime.{Time, add, before, until_or_zero}
use open_source.Common.Float.{whole}
use open_source.Memory.Cache
use open_source.Memory.Cache.{Ptr, Links, LruCache, len}
use open_source.Memory.Cache.Order.{Ordered, touch, get-Ordered}
use open_source.Memory.Cache.Add.{added, add-Ordered}
use open_source.Memory.Cache.Evict.{remove-Ordered}
use open_source.Memory.Entry.{IpEntry, entry_limit, is_blocked}
use open_source.Memory.Window.{empty_window}
use open_source.Memory.Backend.{
  Backend, new_backend, block, is_key_blocked, allow_sliding_window, get_sliding_window_count,
}
use open_source.Memory.Backend.State.{Valid, Allocates, entry_at}
use open_source.Memory.Backend.Made.{made_entry}
use open_source.Memory.Backend.Blocks.{
  block-is_key_blocked, block-allow_sliding_window, allow_sliding_window-limit_ignored, window_at,
}
use open_source.Memory.Backend.Counted.{passes, get_sliding_window_count-allow_sliding_window}
use open_source.Memory.Backend.Calls.{
  Call, allows, slides, blocks, counts, decays, perform_all, started, new_backend-Valid,
  new_backend-perform_all,
}

-- January 2 of 2026, 00:00 UTC.
abbrev noon : Time
noon = 63902908800000000000

abbrev alice : Text
alice = codes "alice"

abbrev bob : Text
bob = codes "bob"

abbrev no_links : Links
no_links = record { next = λ p. 0; prev = λ p. 0 }

abbrev no_entries : Ptr → IpEntry whole
no_entries p = made_entry whole (pos 1) (pos 1) true (pos 1000) noon

abbrev empty_backend : Backend whole
empty_backend = started whole (pos 2) true (pos 1000) (pos 1) (pos 1) 1 2 no_links no_entries

slow-Allocates : Allocates whole (pos 1) (pos 1)
unfolding entry_limit
slow-Allocates size d = ground arith

empty-Valid : Valid whole 2 empty_backend []
empty-Valid =
    (new_backend-Valid whole 2 true (pos 1000) (pos 1) (pos 1) 1 2 no_links no_entries
      (ground arith) (ground arith) (ground arith) slow-Allocates (omega arith)).1

abbrev some_calls : List (Call whole)
some_calls =
    slides alice (pos 5) (pos 1000) noon noon noon noon noon
    ∷ blocks bob (pos 1000) noon noon
    ∷ allows (codes "carol") (pos 1) (pos 1) noon noon noon noon noon
    ∷ counts alice noon
    ∷ decays (alice ∷ bob ∷ []) 3600 1767225600
    ∷ []

new_backend-perform_all_example :
    (b : Backend whole) × (b' : Backend whole) × (new_backend whole
        (pos 2)
        true
        (pos 1000)
        (pos 1)
        (pos 1)
        1
        2
        no_links
        no_entries
      ≡ some b)
    × (perform_all whole some_calls b ≡ some b')
    × (len b'.cache ≤ 2)
new_backend-perform_all_example =
    new_backend-perform_all whole 2 true (pos 1000) (pos 1) (pos 1) 1 2 no_links no_entries
      some_calls (ground arith) (ground arith) (ground arith) (ground arith) slow-Allocates
      (omega arith)
      (((omega arith, omega arith), omega arith), (tt, (tt, (tt, (ground arith, tt)))))

block-is_key_blocked_example :
    (b' : Backend whole) × (block whole alice (pos 1000) noon noon empty_backend ≡ some b')
    × (b'' : Backend whole) × (is_key_blocked whole alice (noon + 999) b'
        ≡ some (
          b'',
          if ltb_ℤ (pos 1000) (pos 0)
              then (false, 0)
              else (before (noon + 999) (add noon (pos 1000)), add noon (pos 1000)),
        ))
block-is_key_blocked_example =
    block-is_key_blocked whole 2 alice (pos 1000) noon noon (noon + 999) empty_backend []
      (ground arith) empty-Valid

block-allow_sliding_window_example :
    (b' : Backend whole) × (block whole alice (pos 1000) noon noon empty_backend ≡ some b')
    × (b'' : Backend whole) × (allow_sliding_window whole alice
          (pos 5)
          (pos 1000)
          noon
          noon
          (noon + 1)
          (noon + 2)
          noon
          b'
        ≡ some (b'', (false, until_or_zero (noon + 2) (noon + 1000))))
    × (window_at whole alice b'' ≡ window_at whole alice b')
block-allow_sliding_window_example =
    block-allow_sliding_window whole 2 alice 1000 5 (pos 1000) noon noon noon (noon + 1) (noon + 2)
      noon empty_backend [] (ground arith) empty-Valid (ground arith) (omega arith)

unknown_alice :
    (e : IpEntry whole)
    → entry_at whole alice empty_backend ≡ some e
    → is_some e.sliding_window ≡ true
unfolding lookup
unknown_alice e h = ground arith

allow_sliding_window-limit_ignored_example :
    allow_sliding_window whole alice (pos 0) (pos 1000) noon noon noon noon noon empty_backend
    ≡ allow_sliding_window whole alice (pos 500) (pos 1000) noon noon noon noon noon empty_backend
allow_sliding_window-limit_ignored_example =
    allow_sliding_window-limit_ignored whole 2 alice (pos 0) (pos 500) (pos 1000) noon noon noon
      noon noon empty_backend [] (ground arith) empty-Valid unknown_alice (omega arith)

abbrev violator : IpEntry whole
violator = record (no_entries 0) { violation_count = pos 5; last_violation = 0 }

-- A cache of two entries, Alice's used last.
abbrev two_links : Links
two_links = record {
  next = Cache.update (Cache.update (Cache.update (λ p. 0) 1 4) 4 5) 5 2;
  prev = Cache.update (Cache.update (Cache.update (λ p. 0) 2 5) 5 4) 4 1;
}

abbrev two_entries : List (Text × Ptr)
two_entries = (alice, 4) ∷ (bob, 5) ∷ []

abbrev two_cache : LruCache
two_cache = record { capacity = pos 2; items = two_entries; head = 1; tail = 2; links = two_links }

two-Ordered : Ordered two_cache two_entries
unfolding lookup text_eq
two-Ordered = record {
  threaded = record {
    chain = (refl, refl, (refl, refl, (refl, refl)));
    apart = (refl, (refl, (refl, (refl, tt))));
    no_nil = refl;
  };
  keyed_items = (refl, (refl, tt));
  keyed = (refl, (refl, tt));
  same = λ k. refl;
  size = refl;
}

add-Ordered_example :
    let carol = codes "carol" in
    (c' : LruCache) × (Cache.add carol 6 two_cache ≡ some c')
    × Ordered c' (added (pos 2) carol 6 two_entries)
    × (c'.capacity ≡ pos 2)
    × (c'.head ≡ 1)
    × (c'.tail ≡ 2)
add-Ordered_example = add-Ordered (codes "carol") 6 two_cache two_entries refl refl two-Ordered

get-Ordered_example :
    (c' : LruCache) × (Cache.get bob two_cache ≡ some (c', lookup bob two_entries))
    × Ordered c' (touch bob two_entries)
    × (c'.items ≡ two_entries)
    × (c'.capacity ≡ pos 2)
    × (c'.head ≡ 1)
    × (c'.tail ≡ 2)
get-Ordered_example = get-Ordered bob two_cache two_entries two-Ordered

remove-Ordered_example :
    (c' : LruCache) × (Cache.remove bob two_cache ≡ some c') × Ordered c' (delete bob two_entries)
remove-Ordered_example = remove-Ordered bob two_cache two_entries two-Ordered

-- Alice and Bob have asked for nothing yet.
abbrev two_backend : Backend whole
two_backend = record empty_backend { cache = two_cache; entries = no_entries; fresh = 6 }

two-Valid : Valid whole 2 two_backend two_entries
two-Valid = record {
  ordered = two-Ordered;
  capacity = refl;
  bounded = ground arith;
  started = ground arith;
  unused = λ x above. ground arith;
  allocates = slow-Allocates;
  sized = omega arith;
}

get_sliding_window_count-allow_sliding_window_example :
    (b' : Backend whole) × (b'' : Backend whole) × (count : ℕ) × (get_sliding_window_count whole
        alice noon two_backend
      ≡ some (b', count))
    × ((j : Text) → entry_at whole j b' ≡ entry_at whole j two_backend)
    × (allow_sliding_window whole alice (pos 500) (pos 1000) noon noon noon noon noon b'
        ≡ some (b'', passes whole count (pos 1) (pos 1000)))
unfolding lookup text_eq entry_limit is_blocked
get_sliding_window_count-allow_sliding_window_example =
    get_sliding_window_count-allow_sliding_window whole 2 alice (pos 500) (pos 1000) noon noon noon
      noon noon two_backend two_entries (no_entries 4) (empty_window (pos 1000) (pos 1))
      (ground arith) two-Valid (omega arith) refl refl refl
